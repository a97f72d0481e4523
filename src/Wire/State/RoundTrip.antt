-- ===== src/Wire/State/RoundTrip.antt =====
-- A state is read back from its message as it was written.
use edge_shard_v.Shared.{◌≡◌, refl, ok, All, All-map, arith}
use edge_shard_v.Cluster.State.{
  DeviceState, check_device_state, MemoryPoolState, check_memory_pool_state, RuntimeInstanceState,
  check_runtime_instance_state, ModelInventoryEntry, check_model_inventory_entry, WorkerState,
  check_worker_state,
}
use edge_shard_v.Wire.Fields.{
  Protobuf, StoresInRange, InInt64, Optional, set_optional_kept, Trips, traverse-Trips,
}
use edge_shard_v.Wire.Enums.{
  availability_trip, runtime_status_trip, model_availability_to_wire, model_availability_trip,
}
use edge_shard_v.Wire.State.{
  device_state_to_wire, device_state_from_wire, memory_state_to_wire, memory_state_from_wire,
  runtime_instance_to_wire, runtime_instance_from_wire, model_entry_to_wire, model_entry_from_wire,
  state_to_wire, state_from_wire,
}

-- Every part was accepted by its constructor, and the sizes fit the fields of their messages.
pub record IsSendableState (s : WorkerState) : Type 0 where
  pub built : check_worker_state s ≡ ok tt
  pub devices_built : All (λ d. check_device_state d ≡ ok tt) s.device_states
  pub memories_built :
      All
        (λ m. (check_memory_pool_state m ≡ ok tt) × Optional InInt64 m.available_bytes)
        s.memory_states
  pub instances_built : All (λ i. check_runtime_instance_state i ≡ ok tt) s.runtime_instances
  pub models_built :
      All (λ e. (check_model_inventory_entry e ≡ ok tt) × Optional InInt64 e.size_bytes) s.models

device_state_trip :
    (x : DeviceState)
    → check_device_state x ≡ ok tt
    → Trips (λ y. ok (device_state_to_wire y)) device_state_from_wire x
unfolding device_state_from_wire device_state_to_wire
device_state_trip x h =
    (device_state_to_wire x, refl, ground (arith, h, availability_trip x.availability))

runtime_instance_trip :
    (x : RuntimeInstanceState)
    → check_runtime_instance_state x ≡ ok tt
    → Trips (λ y. ok (runtime_instance_to_wire y)) runtime_instance_from_wire x
unfolding runtime_instance_from_wire runtime_instance_to_wire
runtime_instance_trip x h =
    (runtime_instance_to_wire x, refl, ground (arith, h, runtime_status_trip x.status))

module _ (p : Protobuf) (stores : StoresInRange p) where
  memory_state_trip :
      (x : MemoryPoolState)
      → check_memory_pool_state x ≡ ok tt
      → Optional InInt64 x.available_bytes
      → Trips (memory_state_to_wire p) memory_state_from_wire x
  unfolding memory_state_from_wire memory_state_to_wire
  memory_state_trip x h f = (
    record { memory_pool_id = x.memory_pool_id; available_bytes = x.available_bytes },
    ground (arith, set_optional_kept p.set_int64 InInt64 x.available_bytes stores.int64_kept f),
    ground (arith, h),
  )

  model_entry_trip :
      (x : ModelInventoryEntry)
      → check_model_inventory_entry x ≡ ok tt
      → Optional InInt64 x.size_bytes
      → Trips (model_entry_to_wire p) model_entry_from_wire x
  unfolding model_entry_from_wire model_entry_to_wire
  model_entry_trip x h f = (
    record {
      local_name = x.local_name;
      model_id = x.model_id;
      revision = x.revision;
      size_bytes = x.size_bytes;
      status = model_availability_to_wire x.status;
    },
    ground (arith, set_optional_kept p.set_int64 InInt64 x.size_bytes stores.int64_kept f),
    ground (arith, h, model_availability_trip x.status),
  )

  -- A state whose parts their constructors accepted and whose sizes fit their fields is written to a
  -- message without an exception, and the message is read back as the same state.
  pub state_trip : (s : WorkerState) → IsSendableState s → Trips (state_to_wire p) state_from_wire s
  unfolding state_to_wire state_from_wire
  state_trip s v =
      let (ds, de, df) =
        traverse-Trips (λ y. ok (device_state_to_wire y)) device_state_from_wire s.device_states
          (All-map s.device_states device_state_trip v.devices_built) in
      let (ms, me, mf) =
        traverse-Trips (memory_state_to_wire p) memory_state_from_wire s.memory_states
          (All-map s.memory_states (λ x h. memory_state_trip x h.0 h.1) v.memories_built) in
      let (rs, re, rf) =
        traverse-Trips (λ y. ok (runtime_instance_to_wire y)) runtime_instance_from_wire
          s.runtime_instances
          (All-map s.runtime_instances runtime_instance_trip v.instances_built) in
      let (es, ee, ef) =
        traverse-Trips (model_entry_to_wire p) model_entry_from_wire s.models
          (All-map s.models (λ x h. model_entry_trip x h.0 h.1) v.models_built) in
      (
        record {
          worker_id = s.worker_id;
          device_states = ds;
          memory_states = ms;
          runtime_instances = rs;
          models = es;
        },
        rw (de, me, re, ee) refl,
        rw (df, mf, rf, ef, v.built) refl,
      )
