-- ===== src/Wire.antt =====
-- src/edgeshard/protocol/control/mapper.py, its translation between the domain and the messages of
-- proto/worker_control.proto.
pub mod Fields
pub mod Schema
pub mod Enums
pub mod Capability
pub mod State
pub mod Requests
pub mod Transport
