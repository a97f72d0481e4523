-- ===== src/Cluster/Identity.antt =====
-- src/edgeshard/cluster/identity.py. A dataclass is a record, and its `__post_init__` is the check
-- that stands under it.
use edge_shard_v.Shared.{String, Checked, Checked, value_error, raise_if, ◌>>◌, is_empty}

pub record WorkerIdentity : Type 0 where
  pub worker_id : String
  pub hostname : String
  pub agent_version : String
  pub protocol_version : String

unfoldable pub check_worker_identity : WorkerIdentity → Checked
check_worker_identity i = do
  raise_if (is_empty i.worker_id) value_error
  raise_if (is_empty i.hostname) value_error
  raise_if (is_empty i.agent_version) value_error
  raise_if (is_empty i.protocol_version) value_error

pub data DeviceKind : Type 0 where
  cpu gpu npu other : DeviceKind

pub record DeviceIdentity : Type 0 where
  pub device_id : String
  pub kind : DeviceKind
  pub local_locator : String

unfoldable pub check_device_identity : DeviceIdentity → Checked
check_device_identity i = do
  raise_if (is_empty i.device_id) value_error
  raise_if (is_empty i.local_locator) value_error
