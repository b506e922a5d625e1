-- ===== src/Journal.antt =====
-- src/journal.rs
pub mod Episodes
pub mod Replay
