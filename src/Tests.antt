-- ===== src/Tests.antt =====
-- The theorems at concrete inputs, and the data that they share.
pub mod Data
pub mod Server
pub mod Upload
pub mod Session
pub mod Daemon
pub mod Report
pub mod Collect
pub mod Web
pub mod Hooks
pub mod Watch
pub mod Files
pub mod Machine
