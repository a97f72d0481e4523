-- ===== src/Examples.antt =====
-- A small cluster and a small pipeline, and the theorems of the development at work on them.
pub mod Data
pub mod Master
pub mod Snapshots
pub mod Revision
pub mod Worker
pub mod Inference
pub mod Agent
pub mod Runner
pub mod Profiling
