-- ===== src/Examples/Data.antt =====
-- One Worker with one device and one memory pool, its requests, and a Master that it registered with.
use edge_shard_v.Shared.{ℕ, String, none, some, [], ◌∷◌, true}
use edge_shard_v.Shared.Int.{pos}
use edge_shard_v.Cluster.Identity.{WorkerIdentity, gpu}
use edge_shard_v.Cluster.Capability.{WorkerCapability, DeviceCapability, discrete}
use edge_shard_v.Cluster.State.{DeviceState, WorkerState, available}
use edge_shard_v.Cluster.Revision.{Digest}
use edge_shard_v.Master.Config.{default_config}
use edge_shard_v.Master.Requests.{RegisterWorkerRequest, HeartbeatRequest, UpdateCapabilityRequest}
use edge_shard_v.Master.Service.{Master, Clock, init, register_worker}

-- A digest that gives every capability one fingerprint.
abbrev pub digest : Digest
digest = record { dumps = λ j. "json"; sha256 = λ text. "rev" }

abbrev pub identity : WorkerIdentity
identity = record {
  worker_id = "w1";
  hostname = "host";
  agent_version = "2.0";
  protocol_version = "1";
}

abbrev pub device : DeviceCapability
device = record {
  identity = record { device_id = "g0"; kind = gpu; local_locator = "0" };
  vendor = "nvidia";
  model = "orin";
  compute_capability = none;
  memory_pool_id = some "p0";
  supported_dtypes = "float16" ∷ [];
  driver_version = none;
  platform_tags = [];
}

abbrev pub capability : WorkerCapability
capability = record {
  architecture = "aarch64";
  os = record { name = "linux"; version = none; kernel = none };
  container_runtime = none;
  network_interfaces = [];
  devices = device ∷ [];
  memory_pools = record { memory_pool_id = "p0"; model = discrete; total_bytes = 64 } ∷ [];
  runtime_platforms = [];
  capability_revision = "rev";
}

abbrev pub idle_device : DeviceState
idle_device = record {
  device_id = "g0";
  utilization = some (pos 1_000);
  temperature_c = none;
  power_w = none;
  availability = available;
  running_runtime_ids = [];
}

abbrev pub state : WorkerState
state = record {
  worker_id = "w1";
  device_states = idle_device ∷ [];
  memory_states = record { memory_pool_id = "p0"; available_bytes = some (pos 32) } ∷ [];
  runtime_instances = [];
  models = [];
}

abbrev pub clock : ℕ → Clock
clock n = record { monotonic = n; wall = record { instant = n; aware = true } }

abbrev pub registration : RegisterWorkerRequest
registration = record {
  protocol_version = "1";
  instance_id = "i1";
  identity = identity;
  capability = capability;
  initial_state = state;
  profiling_endpoint = none;
}

-- The heartbeat with the given number in the given session.
abbrev pub beat : String → ℕ → HeartbeatRequest
beat session n = record {
  worker_id = "w1";
  instance_id = "i1";
  session_id = session;
  sequence_number = n;
  capability_revision = "rev";
  state = state;
  worker_reported_at = none;
}

abbrev pub update : UpdateCapabilityRequest
update = record {
  worker_id = "w1";
  instance_id = "i1";
  session_id = "s1";
  capability = capability;
  state = state;
}

-- The Master after the registration, which was awarded the session `s1`.
abbrev pub master : Master
master = (register_worker digest registration "s1" (clock 0) (init default_config)).1
