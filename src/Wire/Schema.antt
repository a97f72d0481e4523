-- ===== src/Wire/Schema.antt =====
-- The messages of proto/worker_control.proto. An `optional` field is an option, which `HasField`
-- tests; the value of an enumeration is its number.
use edge_shard_v.Shared.{ℕ, String, Bool, Option, List}
use edge_shard_v.Shared.Int.{ℤ}

pub record PbWorkerIdentity : Type 0 where
  pub worker_id : String
  pub hostname : String
  pub agent_version : String
  pub protocol_version : String

pub record PbDeviceIdentity : Type 0 where
  pub device_id : String
  pub kind : ℕ
  pub local_locator : String

pub record PbMemoryPoolCapability : Type 0 where
  pub memory_pool_id : String
  pub model : ℕ
  pub total_bytes : ℤ

pub record PbOsInfo : Type 0 where
  pub name : String
  pub version : Option String
  pub kernel : Option String

pub record PbContainerRuntimeCapability : Type 0 where
  pub runtime : String
  pub version : Option String
  pub nvidia_runtime_available : Bool

pub record PbNetworkInterfaceCapability : Type 0 where
  pub interface_id : String
  pub name : String
  pub addresses : List String
  pub mtu : Option ℤ

pub record PbRuntimePlatformCapability : Type 0 where
  pub backend : String
  pub platform : String
  pub image : Option String

pub record PbDeviceCapability : Type 0 where
  pub identity : PbDeviceIdentity
  pub vendor : String
  pub model : String
  pub compute_capability : Option String
  pub memory_pool_id : Option String
  pub supported_dtypes : List String
  pub driver_version : Option String
  pub platform_tags : List String

pub record PbWorkerCapability : Type 0 where
  pub architecture : String
  pub os : PbOsInfo
  pub container_runtime : Option PbContainerRuntimeCapability
  pub network_interfaces : List PbNetworkInterfaceCapability
  pub devices : List PbDeviceCapability
  pub memory_pools : List PbMemoryPoolCapability
  pub runtime_platforms : List PbRuntimePlatformCapability
  pub capability_revision : String

pub record PbDeviceState : Type 0 where
  pub device_id : String
  pub utilization : Option ℤ
  pub temperature_c : Option ℤ
  pub power_w : Option ℤ
  pub availability : ℕ
  pub running_runtime_ids : List String

pub record PbMemoryPoolState : Type 0 where
  pub memory_pool_id : String
  pub available_bytes : Option ℤ

pub record PbRuntimeInstanceState : Type 0 where
  pub runtime_id : String
  pub backend : String
  pub execution_id : Option String
  pub status : ℕ
  pub device_ids : List String
  pub container_id : Option String
  pub endpoint : Option String
  pub model_local_name : Option String

pub record PbModelInventoryEntry : Type 0 where
  pub local_name : String
  pub model_id : Option String
  pub revision : Option String
  pub size_bytes : Option ℤ
  pub status : ℕ

pub record PbWorkerState : Type 0 where
  pub worker_id : String
  pub device_states : List PbDeviceState
  pub memory_states : List PbMemoryPoolState
  pub runtime_instances : List PbRuntimeInstanceState
  pub models : List PbModelInventoryEntry

pub record PbRegisterWorkerRequest : Type 0 where
  pub protocol_version : String
  pub worker_id : String
  pub instance_id : String
  pub identity : PbWorkerIdentity
  pub capability_revision : String
  pub capability : PbWorkerCapability
  pub initial_state : PbWorkerState
  pub profiling_endpoint : Option String

pub record PbRegisterWorkerResponse : Type 0 where
  pub session_id : String
  pub heartbeat_interval_ms : ℤ
  pub server_protocol_version : String

pub record PbHeartbeatRequest : Type 0 where
  pub worker_id : String
  pub instance_id : String
  pub session_id : String
  pub sequence_number : ℤ
  pub worker_reported_at_ms : Option ℤ
  pub capability_revision : String
  pub state : PbWorkerState

-- `HeartbeatResponse` and `UpdateCapabilityResponse`, which have the same fields.
pub record PbVerdict : Type 0 where
  pub accepted : Bool
  pub detail : String
  pub reason : ℕ

pub record PbUpdateCapabilityRequest : Type 0 where
  pub worker_id : String
  pub instance_id : String
  pub session_id : String
  pub capability : PbWorkerCapability
  pub state : Option PbWorkerState
