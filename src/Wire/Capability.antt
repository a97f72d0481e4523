-- ===== src/Wire/Capability.antt =====
-- The capability of a Worker and its messages.
pub mod RoundTrip
use edge_shard_v.Shared.{ℕ, String, Option, none, some, List, Result, ok, err, ◌>>=◌, ◌>>◌}
use edge_shard_v.Shared.Int.{ℤ, pos, negsuc}
use edge_shard_v.Cluster.Identity.{
  WorkerIdentity, check_worker_identity, DeviceIdentity, check_device_identity,
}
use edge_shard_v.Cluster.Capability.{
  OsInfo, check_os_info, ContainerRuntimeCapability, check_container_runtime,
  NetworkInterfaceCapability, check_network_interface, RuntimePlatformCapability,
  check_runtime_platform, MemoryPoolCapability, check_memory_pool_capability, DeviceCapability,
  check_device_capability, WorkerCapability, check_worker_capability,
}
use edge_shard_v.Wire.Schema.{
  PbWorkerIdentity, PbOsInfo, PbContainerRuntimeCapability, PbNetworkInterfaceCapability,
  PbRuntimePlatformCapability, PbMemoryPoolCapability, PbDeviceIdentity, PbDeviceCapability,
  PbWorkerCapability,
}
use edge_shard_v.Wire.Fields.{Protobuf, set_optional, construct, traverse}
use edge_shard_v.Wire.Enums.{
  decode_enum, device_kind_to_wire, wire_to_device_kind, memory_model_to_wire, wire_to_memory_model,
}

unfoldable pub identity_to_wire : WorkerIdentity → PbWorkerIdentity
identity_to_wire x = record {
  worker_id = x.worker_id;
  hostname = x.hostname;
  agent_version = x.agent_version;
  protocol_version = x.protocol_version;
}

unfoldable pub identity_from_wire : PbWorkerIdentity → Result WorkerIdentity
identity_from_wire w =
    let value : WorkerIdentity = record {
      worker_id = w.worker_id;
      hostname = w.hostname;
      agent_version = w.agent_version;
      protocol_version = w.protocol_version;
    } in
    construct (check_worker_identity value) value

unfoldable pub os_to_wire : OsInfo → PbOsInfo
os_to_wire x = record { name = x.name; version = x.version; kernel = x.kernel }

unfoldable pub os_from_wire : PbOsInfo → Result OsInfo
os_from_wire w =
    let value : OsInfo = record { name = w.name; version = w.version; kernel = w.kernel } in
    construct (check_os_info value) value

unfoldable pub container_runtime_to_wire : ContainerRuntimeCapability → PbContainerRuntimeCapability
container_runtime_to_wire x = record {
  runtime = x.runtime;
  version = x.version;
  nvidia_runtime_available = x.nvidia_runtime_available;
}

unfoldable pub container_runtime_from_wire :
    PbContainerRuntimeCapability → Result ContainerRuntimeCapability
container_runtime_from_wire w =
    let value : ContainerRuntimeCapability = record {
      runtime = w.runtime;
      version = w.version;
      nvidia_runtime_available = w.nvidia_runtime_available;
    } in
    construct (check_container_runtime value) value

unfoldable pub runtime_platform_to_wire : RuntimePlatformCapability → PbRuntimePlatformCapability
runtime_platform_to_wire x = record { backend = x.backend; platform = x.platform; image = x.image }

unfoldable pub runtime_platform_from_wire :
    PbRuntimePlatformCapability → Result RuntimePlatformCapability
runtime_platform_from_wire w =
    let value : RuntimePlatformCapability = record {
      backend = w.backend;
      platform = w.platform;
      image = w.image;
    } in
    construct (check_runtime_platform value) value

-- `total_bytes` as the domain holds it: the constructor refuses a negative number like 0.
abbrev pub bytes_of : ℤ → ℕ
bytes_of (pos n) = n
bytes_of (negsuc n) = 0

unfoldable pub network_interface_from_wire :
    PbNetworkInterfaceCapability → Result NetworkInterfaceCapability
network_interface_from_wire w =
    let value : NetworkInterfaceCapability = record {
      interface_id = w.interface_id;
      name = w.name;
      addresses = w.addresses;
      mtu = w.mtu;
    } in
    construct (check_network_interface value) value

unfoldable pub memory_pool_from_wire : PbMemoryPoolCapability → Result MemoryPoolCapability
memory_pool_from_wire w = do
  model ← decode_enum wire_to_memory_model w.model
  let value : MemoryPoolCapability = record {
    memory_pool_id = w.memory_pool_id;
    model = model;
    total_bytes = bytes_of w.total_bytes;
  }
  construct (check_memory_pool_capability value) value

unfoldable pub device_to_wire : DeviceCapability → PbDeviceCapability
device_to_wire d = record {
  identity = record {
    device_id = d.identity.device_id;
    kind = device_kind_to_wire d.identity.kind;
    local_locator = d.identity.local_locator;
  };
  vendor = d.vendor;
  model = d.model;
  compute_capability = d.compute_capability;
  memory_pool_id = d.memory_pool_id;
  supported_dtypes = d.supported_dtypes;
  driver_version = d.driver_version;
  platform_tags = d.platform_tags;
}

unfoldable pub device_from_wire : PbDeviceCapability → Result DeviceCapability
device_from_wire w = do
  kind ← decode_enum wire_to_device_kind w.identity.kind
  let identity : DeviceIdentity = record {
    device_id = w.identity.device_id;
    kind = kind;
    local_locator = w.identity.local_locator;
  }
  check_device_identity identity
  let value : DeviceCapability = record {
    identity = identity;
    vendor = w.vendor;
    model = w.model;
    compute_capability = w.compute_capability;
    memory_pool_id = w.memory_pool_id;
    supported_dtypes = w.supported_dtypes;
    driver_version = w.driver_version;
    platform_tags = w.platform_tags;
  }
  construct (check_device_capability value) value

-- `_container_runtime_from_wire(wire.container_runtime) if wire.HasField(...) else None`
abbrev pub optional_runtime :
    Option PbContainerRuntimeCapability → Result (Option ContainerRuntimeCapability)
optional_runtime none = ok none
optional_runtime (some w) = do r ← container_runtime_from_wire w; ok (some r)

abbrev pub optional_pb : Option ContainerRuntimeCapability → Option PbContainerRuntimeCapability
optional_pb none = none
optional_pb (some r) = some (container_runtime_to_wire r)

unfoldable pub capability_from_wire : PbWorkerCapability → Result WorkerCapability
unfolding device_from_wire memory_pool_from_wire network_interface_from_wire
capability_from_wire w = do
  os ← os_from_wire w.os
  runtime ← optional_runtime w.container_runtime
  interfaces ← traverse network_interface_from_wire w.network_interfaces
  devices ← traverse device_from_wire w.devices
  pools ← traverse memory_pool_from_wire w.memory_pools
  platforms ← traverse runtime_platform_from_wire w.runtime_platforms
  let value : WorkerCapability = record {
    architecture = w.architecture;
    os = os;
    container_runtime = runtime;
    network_interfaces = interfaces;
    devices = devices;
    memory_pools = pools;
    runtime_platforms = platforms;
    capability_revision = w.capability_revision;
  }
  construct (check_worker_capability value) value

module _ (p : Protobuf) where
  open p use {set_int32, set_int64}

  unfoldable pub network_interface_to_wire :
      NetworkInterfaceCapability → Result PbNetworkInterfaceCapability
  network_interface_to_wire x = do
    mtu ← set_optional set_int32 x.mtu
    ok (record { interface_id = x.interface_id; name = x.name; addresses = x.addresses; mtu = mtu })

  unfoldable pub memory_pool_to_wire : MemoryPoolCapability → Result PbMemoryPoolCapability
  memory_pool_to_wire x = do
    total_bytes ← set_int64 (pos x.total_bytes)
    ok (record {
      memory_pool_id = x.memory_pool_id;
      model = memory_model_to_wire x.model;
      total_bytes = total_bytes;
    })

  unfoldable pub capability_to_wire : WorkerCapability → Result PbWorkerCapability
  unfolding network_interface_to_wire memory_pool_to_wire
  capability_to_wire c = do
    interfaces ← traverse network_interface_to_wire c.network_interfaces
    devices ← traverse (λ d. ok (device_to_wire d)) c.devices
    pools ← traverse memory_pool_to_wire c.memory_pools
    platforms ← traverse (λ x. ok (runtime_platform_to_wire x)) c.runtime_platforms
    ok (record {
      architecture = c.architecture;
      os = os_to_wire c.os;
      container_runtime = optional_pb c.container_runtime;
      network_interfaces = interfaces;
      devices = devices;
      memory_pools = pools;
      runtime_platforms = platforms;
      capability_revision = c.capability_revision;
    })
