-- ===== src/Fleet.antt =====
-- src/fleet.rs, and what src/machine.rs makes of the reports of the fleet.
pub mod Reports
pub mod Members
pub mod Result
pub mod Marks
pub mod Resume
pub mod Quorum
pub mod Memory
pub mod Gate
pub mod Groups
pub mod Live
pub mod Foreign
