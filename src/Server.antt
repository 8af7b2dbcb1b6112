-- ===== src/Server.antt =====
-- The crate crates/blankres-server: the ingest service.
pub mod Db
pub mod Config
pub mod Storage
pub mod Routes
pub mod Web
pub mod Interleaving
