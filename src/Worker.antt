-- ===== src/Worker.antt =====
-- src/edgeshard/control/worker: the Agent's loops against the Master, and what a Worker keeps while it
-- profiles, the device leases and the sessions with their case ledgers.
pub mod Config
pub mod Agent
pub mod Runner
pub mod Leases
pub mod Ledger
