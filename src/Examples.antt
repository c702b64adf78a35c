-- ===== src/Examples.antt =====
-- The theorems applied to concrete inputs.
pub mod World
pub mod Times
pub mod Runs
pub mod Waits
pub mod Inventory
pub mod Pinned
pub mod Watching
pub mod Drills
pub mod Networks
pub mod Sessions
pub mod Datasets
pub mod Rendered
