-- ===== src/Return.antt =====
-- scripts/return_to_primary.py: the return to the primary after a drill. It is a run of its own stages on its
-- own state and timeline, beside the state of the recovery, which it only reads.
pub mod Stages
pub mod Run
pub mod Plan
pub mod Keeps
pub mod InOrder
