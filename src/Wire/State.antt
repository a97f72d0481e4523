-- ===== src/Wire/State.antt =====
-- The state of a Worker and its messages. The doubles of the telemetry are stored as they are.
pub mod RoundTrip
use edge_shard_v.Shared.{ℕ, String, Option, none, some, List, Result, ok, err, ◌>>=◌, ◌>>◌}
use edge_shard_v.Cluster.State.{
  DeviceState, check_device_state, MemoryPoolState, check_memory_pool_state, RuntimeInstanceState,
  check_runtime_instance_state, ModelInventoryEntry, check_model_inventory_entry, WorkerState,
  check_worker_state,
}
use edge_shard_v.Wire.Schema.{
  PbDeviceState, PbMemoryPoolState, PbRuntimeInstanceState, PbModelInventoryEntry, PbWorkerState,
}
use edge_shard_v.Wire.Fields.{Protobuf, set_optional, construct, traverse}
use edge_shard_v.Wire.Enums.{
  decode_enum, availability_to_wire, wire_to_availability, runtime_status_to_wire,
  wire_to_runtime_status, model_availability_to_wire, wire_to_model_availability,
}

unfoldable pub device_state_to_wire : DeviceState → PbDeviceState
device_state_to_wire x = record {
  device_id = x.device_id;
  utilization = x.utilization;
  temperature_c = x.temperature_c;
  power_w = x.power_w;
  availability = availability_to_wire x.availability;
  running_runtime_ids = x.running_runtime_ids;
}

unfoldable pub device_state_from_wire : PbDeviceState → Result DeviceState
device_state_from_wire w = do
  availability ← decode_enum wire_to_availability w.availability
  let value : DeviceState = record {
    device_id = w.device_id;
    utilization = w.utilization;
    temperature_c = w.temperature_c;
    power_w = w.power_w;
    availability = availability;
    running_runtime_ids = w.running_runtime_ids;
  }
  construct (check_device_state value) value

unfoldable pub runtime_instance_to_wire : RuntimeInstanceState → PbRuntimeInstanceState
runtime_instance_to_wire x = record {
  runtime_id = x.runtime_id;
  backend = x.backend;
  execution_id = x.execution_id;
  status = runtime_status_to_wire x.status;
  device_ids = x.device_ids;
  container_id = x.container_id;
  endpoint = x.endpoint;
  model_local_name = x.model_local_name;
}

unfoldable pub runtime_instance_from_wire : PbRuntimeInstanceState → Result RuntimeInstanceState
runtime_instance_from_wire w = do
  status ← decode_enum wire_to_runtime_status w.status
  let value : RuntimeInstanceState = record {
    runtime_id = w.runtime_id;
    backend = w.backend;
    execution_id = w.execution_id;
    status = status;
    device_ids = w.device_ids;
    container_id = w.container_id;
    endpoint = w.endpoint;
    model_local_name = w.model_local_name;
  }
  construct (check_runtime_instance_state value) value

unfoldable pub model_entry_from_wire : PbModelInventoryEntry → Result ModelInventoryEntry
model_entry_from_wire w = do
  status ← decode_enum wire_to_model_availability w.status
  let value : ModelInventoryEntry = record {
    local_name = w.local_name;
    model_id = w.model_id;
    revision = w.revision;
    size_bytes = w.size_bytes;
    status = status;
  }
  construct (check_model_inventory_entry value) value

unfoldable pub memory_state_from_wire : PbMemoryPoolState → Result MemoryPoolState
memory_state_from_wire w =
    let value : MemoryPoolState = record {
      memory_pool_id = w.memory_pool_id;
      available_bytes = w.available_bytes;
    } in
    construct (check_memory_pool_state value) value

unfoldable pub state_from_wire : PbWorkerState → Result WorkerState
unfolding memory_state_from_wire device_state_from_wire
state_from_wire w = do
  devices ← traverse device_state_from_wire w.device_states
  memories ← traverse memory_state_from_wire w.memory_states
  instances ← traverse runtime_instance_from_wire w.runtime_instances
  models ← traverse model_entry_from_wire w.models
  let value : WorkerState = record {
    worker_id = w.worker_id;
    device_states = devices;
    memory_states = memories;
    runtime_instances = instances;
    models = models;
  }
  construct (check_worker_state value) value

module _ (p : Protobuf) where
  open p use {set_int64}

  unfoldable pub memory_state_to_wire : MemoryPoolState → Result PbMemoryPoolState
  memory_state_to_wire x = do
    available_bytes ← set_optional set_int64 x.available_bytes
    ok (record { memory_pool_id = x.memory_pool_id; available_bytes = available_bytes })

  unfoldable pub model_entry_to_wire : ModelInventoryEntry → Result PbModelInventoryEntry
  model_entry_to_wire x = do
    size_bytes ← set_optional set_int64 x.size_bytes
    ok (record {
      local_name = x.local_name;
      model_id = x.model_id;
      revision = x.revision;
      size_bytes = size_bytes;
      status = model_availability_to_wire x.status;
    })

  unfoldable pub state_to_wire : WorkerState → Result PbWorkerState
  unfolding memory_state_to_wire model_entry_to_wire
  state_to_wire s = do
    devices ← traverse (λ d. ok (device_state_to_wire d)) s.device_states
    memories ← traverse memory_state_to_wire s.memory_states
    instances ← traverse (λ i. ok (runtime_instance_to_wire i)) s.runtime_instances
    models ← traverse model_entry_to_wire s.models
    ok (record {
      worker_id = s.worker_id;
      device_states = devices;
      memory_states = memories;
      runtime_instances = instances;
      models = models;
    })
