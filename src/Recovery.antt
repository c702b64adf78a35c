-- ===== src/Recovery.antt =====
-- scripts/recover.py: the regional recovery.
pub mod State
pub mod Commands
pub mod Stages
pub mod Runner
pub mod Keeps
pub mod StageKeeps
pub mod Order
pub mod InOrder
pub mod Guard
pub mod Sets
pub mod Sequence
pub mod Plan
pub mod Run
