-- ===== src/Report.antt =====
-- The crate crates/blankres-report: the schema that every other part shares.
pub mod Event
pub mod Payload
pub mod Signature
pub mod Redact
pub mod Apport
