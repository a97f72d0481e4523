-- ===== src/Worker/Leases.antt =====
-- src/edgeshard/control/worker/profiling_leases.py: devices reserved for profiling sessions, checked
-- against a fresh state of the Worker. Utilization is in thousandths of a percent.
pub mod Dedupe
pub mod Rollback
pub mod Acquire
pub mod Release
use edge_shard_v.Shared.{
  String, Bool, true, false, ◌==◌, not, Option, none, some, List, [], ◌∷◌, ◌++◌, map, Result,
  Checked, ok, err, value_error, device_busy_error, raise_if, ◌>>◌, is_empty, contains,
  if◌then◌else◌,
}
use edge_shard_v.Shared.Int.{ℤ, pos, ltb_ℤ}
use edge_shard_v.Shared.Dict.{Dict, get, put, remove, keys}
use edge_shard_v.Cluster.State.{DeviceAvailability, DeviceState, MemoryPoolState, WorkerState}

pub record DeviceLease : Type 0 where
  pub session_id : String
  pub device_id : String

-- The constructor's arguments of `DeviceLeaseManager`.
pub record LeasePolicy : Type 0 where
  pub utilization_floor : ℤ
  pub min_available_bytes : Option ℤ
  pub memory_pool_resolver : Option (String → List String)

abbrev negative : Option ℤ → Bool
negative none = false
negative (some n) = ltb_ℤ n (pos 0)

abbrev lacks_resolver : Option ℤ → Option (String → List String) → Bool
lacks_resolver (some n) none = true
lacks_resolver _ _ = false

unfoldable pub check_lease_policy : LeasePolicy → Checked
unfolding ltb_ℤ
check_lease_policy p = do
  raise_if (ltb_ℤ p.utilization_floor (pos 0)) value_error
  raise_if (ltb_ℤ (pos 100_000) p.utilization_floor) value_error
  raise_if (negative p.min_available_bytes) value_error
  raise_if (lacks_resolver p.min_available_bytes p.memory_pool_resolver) value_error

-- `_leased_by`: device id to session id, in the order of acquisition.
abbrev pub Leases : Type 0
Leases = Dict String

unfoldable pub leased_device_ids : Leases → List String
leased_device_ids m = keys m

-- The devices whose holder is the session.
unfoldable pub held_by : String → Leases → List String
held_by session [] = []
held_by session ((d, holder) ∷ m) =
    let rest = held_by session m in if holder == session then d ∷ rest else rest

unfoldable pub leases_for_session : String → Leases → List DeviceLease
unfolding held_by
leases_for_session session m =
    map (λ d. record { session_id = session; device_id = d }) (held_by session m)

-- `tuple(dict.fromkeys(ids))`: the first of each id, in order. `seen` are the ids before.
abbrev pub dedupe_from : List String → List String → List String
dedupe_from seen [] = []
dedupe_from seen (i ∷ ids) =
    let rest = dedupe_from (i ∷ seen) ids in if contains seen i then rest else i ∷ rest

unfoldable pub dedupe : List String → List String
dedupe ids = dedupe_from [] ids

-- `{device.device_id: device for device in device_states}`: a later entry replaces an earlier one.
abbrev pub index_devices : List DeviceState → Dict DeviceState → Dict DeviceState
index_devices [] m = m
index_devices (d ∷ ds) m = index_devices ds (put d.device_id d m)

abbrev index_pools : List MemoryPoolState → Dict (Option ℤ) → Dict (Option ℤ)
index_pools [] m = m
index_pools (p ∷ ps) m = index_pools ps (put p.memory_pool_id p.available_bytes m)

abbrev below : Option (Option ℤ) → ℤ → Bool
below (some (some available)) floor = ltb_ℤ available floor
below _ floor = false

unfoldable pub check_pool_floor : String → ℤ → Dict (Option ℤ) → List String → Checked
check_pool_floor device floor by_pool [] = ok tt
check_pool_floor device floor by_pool (p ∷ ps) =
    raise_if (below (get p by_pool) floor) (device_busy_error device)
    >> check_pool_floor device floor by_pool ps

abbrev check_floor : Option ℤ → Option (String → List String) → String → WorkerState → Checked
check_floor (some floor) (some resolve) device s =
    check_pool_floor device floor (index_pools s.memory_states []) (resolve device)
check_floor _ _ device s = ok tt

unfoldable pub check_memory : LeasePolicy → String → WorkerState → Checked
unfolding check_pool_floor
check_memory p device s = check_floor p.min_available_bytes p.memory_pool_resolver device s

-- A holder other than the session.
abbrev pub held_by_other : String → Option String → Bool
held_by_other session none = false
held_by_other session (some holder) = not (holder == session)

abbrev pub is_available : DeviceAvailability → Bool
is_available DeviceAvailability.available = true
is_available _ = false

abbrev pub exceeds : Option ℤ → ℤ → Bool
exceeds none floor = false
exceeds (some u) floor = ltb_ℤ floor u

abbrev pub is_serving : List String → Bool
is_serving [] = false
is_serving (_ ∷ _) = true

abbrev check_reported :
    LeasePolicy → String → String → Option DeviceState → WorkerState → Leases → Checked
check_reported p session device none s m = err (device_busy_error device)
check_reported p session device (some d) s m = do
  raise_if (held_by_other session (get device m)) (device_busy_error device)
  raise_if (not (is_available d.availability)) (device_busy_error device)
  raise_if (is_serving d.running_runtime_ids) (device_busy_error device)
  raise_if (exceeds d.utilization p.utilization_floor) (device_busy_error device)
  check_memory p device s

unfoldable pub check_device :
    LeasePolicy → String → String → Dict DeviceState → WorkerState → Leases → Checked
check_device p session device states s m = check_reported p session device (get device states) s m

-- `for device_id in acquired: self._leased_by.pop(device_id, None)`
unfoldable pub roll_back : List String → Leases → Leases
roll_back [] m = m
roll_back (d ∷ ds) m = roll_back ds (remove d m)

-- The loop of `acquire` with its rollback; `acquired` are the devices marked so far.
unfoldable pub acquire_loop :
    LeasePolicy
    → String
    → Dict DeviceState
    → WorkerState
    → List String
    → List String
    → Leases
    → Result (List String) × Leases
acquire_loop p session states s acquired [] m = (ok acquired, m)
acquire_loop p session states s acquired (d ∷ ds) m = elim (check_device p session d states s m) [
  | ok _ ↦ acquire_loop p session states s (acquired ++ d ∷ []) ds (put d session m)
  | err e ↦ (err e, roll_back acquired m)
]

abbrev pub named : String → Result (List String) × Leases → Result (List DeviceLease) × Leases
named session (ok ds, m) = (ok (map (λ d. record { session_id = session; device_id = d }) ds), m)
named session (err e, m) = (err e, m)

abbrev pub acquire_requested :
    LeasePolicy → String → List String → WorkerState → Leases → Result (List DeviceLease) × Leases
acquire_requested p session [] s m = (err value_error, m)
acquire_requested p session (d ∷ ds) s m =
    named session (acquire_loop p session (index_devices s.device_states []) s [] (d ∷ ds) m)

unfoldable pub acquire :
    LeasePolicy → String → List String → WorkerState → Leases → Result (List DeviceLease) × Leases
acquire p session device_ids s m =
    if is_empty session
    then (err value_error, m)
    else acquire_requested p session (dedupe device_ids) s m

unfoldable pub release_session : String → Leases → List String × Leases
unfolding held_by roll_back
release_session session m = let released = held_by session m in (released, roll_back released m)

unfoldable pub release_all : Leases → List String × Leases
release_all m = (keys m, [])
