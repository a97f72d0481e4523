-- ===== src/Cluster/Snapshot.antt =====
-- src/edgeshard/cluster/snapshot.py: the cross-check of a state against a capability, and the
-- immutable view of the cluster.
use edge_shard_v.Shared.{
  ℕ, String, Bool, true, false, ◌==◌, ◌&&◌, not, Option, none, some, List, [], ◌∷◌, map, Checked,
  ok, value_error, raise_if, ◌>>◌, is_empty, contains, has_duplicate,
}
use edge_shard_v.Cluster.Identity.{WorkerIdentity}
use edge_shard_v.Cluster.Capability.{WorkerCapability, device_ids, pool_ids}
use edge_shard_v.Cluster.State.{
  DeviceState, MemoryPoolState, RuntimeInstanceState, WorkerState, WorkerStatus,
}

-- A `datetime`: an instant, and whether it carries a UTC offset.
pub record Datetime : Type 0 where
  pub instant : ℕ
  pub aware : Bool

unfoldable pub require_aware : Datetime → Checked
require_aware d = raise_if (not d.aware) value_error

abbrev pub all_known : List String → List String → Bool
all_known known [] = true
all_known known (i ∷ ids) = contains known i && all_known known ids

-- The three loops of `validate_state_against_capability`.
unfoldable pub check_devices : List String → List DeviceState → Checked
check_devices known [] = ok tt
check_devices known (d ∷ ds) =
    raise_if (not (contains known d.device_id)) value_error >> check_devices known ds

unfoldable pub check_pools : List String → List MemoryPoolState → Checked
check_pools known [] = ok tt
check_pools known (m ∷ ms) =
    raise_if (not (contains known m.memory_pool_id)) value_error >> check_pools known ms

unfoldable pub check_instances : List String → List RuntimeInstanceState → Checked
check_instances known [] = ok tt
check_instances known (r ∷ rs) =
    raise_if (not (all_known known r.device_ids)) value_error >> check_instances known rs

unfoldable pub validate_state_against_capability : WorkerState → WorkerCapability → Checked
validate_state_against_capability s c = do
  let known_devices = device_ids c.devices
  let known_pools = pool_ids c.memory_pools
  check_devices known_devices s.device_states
  check_pools known_pools s.memory_states
  check_instances known_devices s.runtime_instances

pub record WorkerSnapshot : Type 0 where
  pub identity : WorkerIdentity
  pub capability : WorkerCapability
  pub state : WorkerState
  pub status : WorkerStatus
  pub session_id : Option String
  pub last_seen_at : Option Datetime

-- `value is not None and not value`
abbrev pub present_and_empty : Option String → Bool
present_and_empty none = false
present_and_empty (some s) = is_empty s

abbrev check_optional : Option Datetime → Checked
check_optional none = ok tt
check_optional (some d) = require_aware d

unfoldable pub check_worker_snapshot : WorkerSnapshot → Checked
unfolding require_aware
check_worker_snapshot w = do
  raise_if (not (w.identity.worker_id == w.state.worker_id)) value_error
  raise_if (present_and_empty w.session_id) value_error
  check_optional w.last_seen_at
  validate_state_against_capability w.state w.capability

pub record ClusterSnapshot : Type 0 where
  pub snapshot_id : String
  pub created_at : Datetime
  pub workers : List WorkerSnapshot

unfoldable pub check_cluster_snapshot : ClusterSnapshot → Checked
unfolding require_aware
check_cluster_snapshot s = do
  raise_if (is_empty s.snapshot_id) value_error
  require_aware s.created_at
  raise_if (has_duplicate (map (λ w. w.identity.worker_id) s.workers)) value_error
