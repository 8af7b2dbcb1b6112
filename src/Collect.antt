-- ===== src/Collect.antt =====
-- The crate crates/blankres-collect: what is gathered about one crash, and at what cost.
pub mod Budget
pub mod Record
pub mod Interfaces
pub mod Paths
pub mod DpkgIndex
pub mod Package
pub mod System
pub mod Stage1
pub mod Stage2
