-- ===== src/Profiling.antt =====
-- src/edgeshard/profiling: the sampling and the lifecycle of a benchmark.
pub mod Benchmark
pub mod Network
pub mod Experiment
pub mod Cases
