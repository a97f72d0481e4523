-- ===== src/Cluster/State.antt =====
-- src/edgeshard/cluster/state.py and inventory.py: what a Worker reports with each heartbeat.
-- Percentages, degrees and watts are Python floats that the code only compares and passes on: they
-- are whole thousandths here.
use edge_shard_v.Shared.{
  String, Bool, false, Option, none, some, List, map, Checked, value_error, raise_if, ◌>>◌, ◌||◌,
  is_empty, has_duplicate,
}
use edge_shard_v.Shared.Int.{ℤ, pos, ltb_ℤ}

pub data DeviceAvailability : Type 0 where
  available unavailable unknown : DeviceAvailability

pub record DeviceState : Type 0 where
  pub device_id : String
  pub utilization : Option ℤ
  pub temperature_c : Option ℤ
  pub power_w : Option ℤ
  pub availability : DeviceAvailability
  pub running_runtime_ids : List String

abbrev outside_percent : Option ℤ → Bool
outside_percent none = false
outside_percent (some u) = ltb_ℤ u (pos 0) || ltb_ℤ (pos 100_000) u

unfoldable pub check_device_state : DeviceState → Checked
unfolding ltb_ℤ
check_device_state s = do
  raise_if (is_empty s.device_id) value_error
  raise_if (outside_percent s.utilization) value_error

pub record MemoryPoolState : Type 0 where
  pub memory_pool_id : String
  pub available_bytes : Option ℤ

abbrev negative : Option ℤ → Bool
negative none = false
negative (some n) = ltb_ℤ n (pos 0)

unfoldable pub check_memory_pool_state : MemoryPoolState → Checked
unfolding ltb_ℤ
check_memory_pool_state s = do
  raise_if (is_empty s.memory_pool_id) value_error
  raise_if (negative s.available_bytes) value_error

pub data WorkerStatus : Type 0 where
  online suspect offline : WorkerStatus

pub data RuntimeStatus : Type 0 where
  created running stopped failed unknown : RuntimeStatus

pub record RuntimeInstanceState : Type 0 where
  pub runtime_id : String
  pub backend : String
  pub execution_id : Option String
  pub status : RuntimeStatus
  pub device_ids : List String
  pub container_id : Option String
  pub endpoint : Option String
  pub model_local_name : Option String

unfoldable pub check_runtime_instance_state : RuntimeInstanceState → Checked
check_runtime_instance_state r = do
  raise_if (is_empty r.runtime_id) value_error
  raise_if (is_empty r.backend) value_error

pub data ModelAvailability : Type 0 where
  ready incomplete invalid : ModelAvailability

pub record ModelInventoryEntry : Type 0 where
  pub local_name : String
  pub model_id : Option String
  pub revision : Option String
  pub size_bytes : Option ℤ
  pub status : ModelAvailability

unfoldable pub check_model_inventory_entry : ModelInventoryEntry → Checked
unfolding ltb_ℤ
check_model_inventory_entry e = do
  raise_if (is_empty e.local_name) value_error
  raise_if (negative e.size_bytes) value_error

pub record WorkerState : Type 0 where
  pub worker_id : String
  pub device_states : List DeviceState
  pub memory_states : List MemoryPoolState
  pub runtime_instances : List RuntimeInstanceState
  pub models : List ModelInventoryEntry

unfoldable pub check_worker_state : WorkerState → Checked
check_worker_state s = do
  raise_if (is_empty s.worker_id) value_error
  raise_if (has_duplicate (map (λ d. d.device_id) s.device_states)) value_error
  raise_if (has_duplicate (map (λ m. m.memory_pool_id) s.memory_states)) value_error
