-- ===== src/Drill.antt =====
-- scripts/drill.py: one unattended drill, one step for each command of the workflow.
pub mod State
pub mod Commands
pub mod Waits
pub mod Guard
pub mod Returning
pub mod Measure
pub mod Main
pub mod Masking
pub mod Issue
pub mod Masked
pub mod Results
pub mod Keeps
pub mod StepKeeps
pub mod Reached
pub mod Isolation
pub mod Seen
pub mod Ensured
pub mod Passing
