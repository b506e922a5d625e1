-- ===== src/Machine.antt =====
-- src/machine.rs: the ceremony's state machine.
pub mod Exec
pub mod Host
pub mod Core
pub mod Halt
pub mod Reads
pub mod Pause
pub mod Admission
pub mod Strand
pub mod Steps
pub mod Rollback
pub mod View
pub mod Guard
pub mod Abort
pub mod Effects
pub mod Ownership
pub mod New
pub mod Operator
pub mod Reached
