-- ===== src/Master.antt =====
-- src/edgeshard/control/master: the control plane of the Master. Its components are the modules
-- below; Service composes them into the handlers of the gRPC service.
pub mod Config
pub mod Requests
pub mod Registry
pub mod Sessions
pub mod StateStore
pub mod Liveness
pub mod Service
pub mod Traces
pub mod Snapshots
