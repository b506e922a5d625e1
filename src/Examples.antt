-- ===== src/Examples.antt =====
-- Concrete documents, on which the theorems are applied and the definitions run.
pub mod Tree
pub mod Desk
pub mod Abort
pub mod Clock
pub mod Viewed
pub mod Operator
pub mod Laws
pub mod Documents
pub mod Foreign
pub mod Resume
pub mod Quorum
pub mod FleetGate
pub mod Join
pub mod Gate
pub mod Mainnet
pub mod Watch
pub mod Replay
pub mod Versions
