-- ===== src/Cluster.antt =====
-- src/edgeshard/cluster: identity, capability, state and snapshot of a Worker, as the Master holds
-- them.
pub mod Identity
pub mod Capability
pub mod State
pub mod Snapshot
pub mod Consistency
pub mod Revision
