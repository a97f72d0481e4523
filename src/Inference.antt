-- ===== src/Inference.antt =====
-- src/edgeshard/inference, model/spec.py and protocol/domain.py: contiguous shards of one model, the
-- sessions on them, and the messages between them.
pub mod Spec
pub mod Partition
pub mod Protocol
pub mod Sessions
pub mod Steps
pub mod Generation
