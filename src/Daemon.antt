-- ===== src/Daemon.antt =====
-- The crate crates/blankres-daemon: crashes in from the journal, events out, payloads for review.
pub mod Config
pub mod State
pub mod Spool
pub mod Reporter
pub mod Drain
pub mod Journal
pub mod Oops
pub mod Watch
