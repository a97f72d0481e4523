-- ===== src/Cluster/Consistency.antt =====
-- What the cross-check of snapshot.py decides: every reference of the state resolves.
use edge_shard_v.Shared.{String, ◌≡◌, refl, ◌↔◌, true, List, [], ◌∷◌, ok, All, contains, arith}
use edge_shard_v.Cluster.Capability.{WorkerCapability, device_ids, pool_ids}
use edge_shard_v.Cluster.State.{DeviceState, MemoryPoolState, RuntimeInstanceState, WorkerState}
use edge_shard_v.Cluster.Snapshot.{
  check_devices, check_pools, check_instances, validate_state_against_capability, all_known,
}

abbrev Known : List String → String → Type 0
Known known i = contains known i ≡ true

-- Every device, pool and runtime device that the state names is one of the capability's.
abbrev pub IsConsistent : WorkerState → WorkerCapability → Type 0
IsConsistent s c =
    All (λ d. Known (device_ids c.devices) d.device_id) s.device_states
    × All (λ m. Known (pool_ids c.memory_pools) m.memory_pool_id) s.memory_states
    × All (λ r. All (Known (device_ids c.devices)) r.device_ids) s.runtime_instances

module _ (known : List String) where
  all_known_iff : (ids : List String) → (all_known known ids ≡ true) ↔ All (Known known) ids
  all_known_iff [] = (λ _. tt, λ _. refl)
  all_known_iff (i ∷ ids) = (
    λ h. (ground arith, (all_known_iff ids).0 (ground arith)),
    λ h. ground (arith, (all_known_iff ids).1 h.1),
  )

  check_devices_iff :
      (ds : List DeviceState)
      → (check_devices known ds ≡ ok tt) ↔ All (λ d. Known known d.device_id) ds
  unfolding check_devices
  check_devices_iff [] = (λ _. tt, λ _. refl)
  check_devices_iff (d ∷ ds) = (
    λ h. (ground arith, (check_devices_iff ds).0 (ground arith)),
    λ h. ground (arith, (check_devices_iff ds).1 h.1),
  )

  check_pools_iff :
      (ms : List MemoryPoolState)
      → (check_pools known ms ≡ ok tt) ↔ All (λ m. Known known m.memory_pool_id) ms
  unfolding check_pools
  check_pools_iff [] = (λ _. tt, λ _. refl)
  check_pools_iff (m ∷ ms) = (
    λ h. (ground arith, (check_pools_iff ms).0 (ground arith)),
    λ h. ground (arith, (check_pools_iff ms).1 h.1),
  )

  check_instances_iff :
      (rs : List RuntimeInstanceState)
      → (check_instances known rs ≡ ok tt) ↔ All (λ r. All (Known known) r.device_ids) rs
  unfolding check_instances
  check_instances_iff [] = (λ _. tt, λ _. refl)
  check_instances_iff (r ∷ rs) = (
    λ h. ((all_known_iff r.device_ids).0 (ground arith), (check_instances_iff rs).0 (ground arith)),
    λ h. ground (arith, (all_known_iff r.device_ids).1 h.0, (check_instances_iff rs).1 h.1),
  )

-- The cross-check accepts a state exactly when each device, pool and runtime device that the state
-- names is declared by the capability.
pub validate-IsConsistent :
    (s : WorkerState) (c : WorkerCapability)
    → (validate_state_against_capability s c ≡ ok tt) ↔ IsConsistent s c
unfolding validate_state_against_capability
validate-IsConsistent s c = (
  λ h. (
    (check_devices_iff (device_ids c.devices) s.device_states).0 (ground arith),
    (check_pools_iff (pool_ids c.memory_pools) s.memory_states).0 (ground arith),
    (check_instances_iff (device_ids c.devices) s.runtime_instances).0 (ground arith),
  ),
  λ h. ground (
    arith,
    (check_devices_iff (device_ids c.devices) s.device_states).1 h.0,
    (check_pools_iff (pool_ids c.memory_pools) s.memory_states).1 h.1,
    (check_instances_iff (device_ids c.devices) s.runtime_instances).1 h.2,
  ),
)
