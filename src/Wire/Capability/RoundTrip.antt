-- ===== src/Wire/Capability/RoundTrip.antt =====
-- A capability is read back from its message as it was written.
use edge_shard_v.Shared.{◌≡◌, refl, Option, none, some, ok, All, All-map, arith, Checked}
use edge_shard_v.Shared.Int.{pos}
use edge_shard_v.Cluster.Identity.{WorkerIdentity, check_worker_identity, check_device_identity}
use edge_shard_v.Cluster.Capability.{
  OsInfo, check_os_info, ContainerRuntimeCapability, check_container_runtime,
  NetworkInterfaceCapability, check_network_interface, RuntimePlatformCapability,
  check_runtime_platform, MemoryPoolCapability, check_memory_pool_capability, DeviceCapability,
  check_device_capability, WorkerCapability, check_worker_capability,
}
use edge_shard_v.Wire.Fields.{
  Protobuf, StoresInRange, InInt32, InInt64, Optional, set_optional_kept, Trips, traverse-Trips,
}
use edge_shard_v.Wire.Enums.{device_kind_trip, memory_model_to_wire, memory_model_trip}
use edge_shard_v.Wire.Capability.{
  identity_to_wire, identity_from_wire, os_to_wire, os_from_wire, container_runtime_to_wire,
  container_runtime_from_wire, runtime_platform_to_wire, runtime_platform_from_wire,
  network_interface_to_wire, network_interface_from_wire, memory_pool_to_wire,
  memory_pool_from_wire, device_to_wire, device_from_wire, optional_runtime, optional_pb,
  capability_to_wire, capability_from_wire,
}

abbrev IsBuilt : {A : Type 0} → (A → Checked) → A → Type 0
IsBuilt check a = check a ≡ ok tt

abbrev IsBuiltOptional : Option ContainerRuntimeCapability → Type 0
IsBuiltOptional none = Unit
IsBuiltOptional (some r) = check_container_runtime r ≡ ok tt

-- Every part was accepted by its constructor, and the numbers fit the fields of their messages.
pub record IsSendable (c : WorkerCapability) : Type 0 where
  pub built : check_worker_capability c ≡ ok tt
  pub os_built : check_os_info c.os ≡ ok tt
  pub runtime_built : IsBuiltOptional c.container_runtime
  pub interfaces_built :
      All (λ n. (check_network_interface n ≡ ok tt) × Optional InInt32 n.mtu) c.network_interfaces
  pub devices_built :
      All
        (λ d. (check_device_identity d.identity ≡ ok tt) × (check_device_capability d ≡ ok tt))
        c.devices
  pub pools_built :
      All
        (λ m. (check_memory_pool_capability m ≡ ok tt) × InInt64 (pos m.total_bytes))
        c.memory_pools
  pub platforms_built : All (IsBuilt check_runtime_platform) c.runtime_platforms

pub identity_trip :
    (x : WorkerIdentity)
    → check_worker_identity x ≡ ok tt
    → identity_from_wire (identity_to_wire x) ≡ ok x
unfolding identity_from_wire identity_to_wire
identity_trip x h = ground (arith, h)

os_trip : (x : OsInfo) → check_os_info x ≡ ok tt → os_from_wire (os_to_wire x) ≡ ok x
unfolding os_from_wire os_to_wire
os_trip x h = ground (arith, h)

runtime_trip :
    (o : Option ContainerRuntimeCapability)
    → IsBuiltOptional o
    → optional_runtime (optional_pb o) ≡ ok o
unfolding container_runtime_from_wire container_runtime_to_wire
runtime_trip none h = refl
runtime_trip (some r) h = ground (arith, h)

platform_trip :
    (x : RuntimePlatformCapability)
    → check_runtime_platform x ≡ ok tt
    → Trips (λ y. ok (runtime_platform_to_wire y)) runtime_platform_from_wire x
unfolding runtime_platform_from_wire runtime_platform_to_wire
platform_trip x h = (runtime_platform_to_wire x, refl, ground (arith, h))

device_trip :
    (x : DeviceCapability)
    → check_device_identity x.identity ≡ ok tt
    → check_device_capability x ≡ ok tt
    → Trips (λ y. ok (device_to_wire y)) device_from_wire x
unfolding device_from_wire device_to_wire
device_trip x h k = (device_to_wire x, refl, ground (arith, h, k, device_kind_trip x.identity.kind))

module _ (p : Protobuf) (stores : StoresInRange p) where
  interface_trip :
      (x : NetworkInterfaceCapability)
      → check_network_interface x ≡ ok tt
      → Optional InInt32 x.mtu
      → Trips (network_interface_to_wire p) network_interface_from_wire x
  unfolding network_interface_from_wire network_interface_to_wire
  interface_trip x h f = (
    record { interface_id = x.interface_id; name = x.name; addresses = x.addresses; mtu = x.mtu },
    ground (arith, set_optional_kept p.set_int32 InInt32 x.mtu stores.int32_kept f),
    ground (arith, h),
  )

  pool_trip :
      (x : MemoryPoolCapability)
      → check_memory_pool_capability x ≡ ok tt
      → InInt64 (pos x.total_bytes)
      → Trips (memory_pool_to_wire p) memory_pool_from_wire x
  unfolding memory_pool_from_wire memory_pool_to_wire
  pool_trip x h f = (
    record {
      memory_pool_id = x.memory_pool_id;
      model = memory_model_to_wire x.model;
      total_bytes = pos x.total_bytes;
    },
    ground (arith, stores.int64_kept (pos x.total_bytes) f),
    ground (arith, h, memory_model_trip x.model),
  )

  -- A capability whose parts their constructors accepted and whose numbers fit their fields is written
  -- to a message without an exception, and the message is read back as the same capability.
  pub capability_trip :
      (c : WorkerCapability) → IsSendable c → Trips (capability_to_wire p) capability_from_wire c
  unfolding capability_to_wire capability_from_wire
  capability_trip c v =
      let (ni, ne, nf) =
        traverse-Trips (network_interface_to_wire p) network_interface_from_wire
          c.network_interfaces
          (All-map c.network_interfaces (λ x h. interface_trip x h.0 h.1) v.interfaces_built) in
      let (ds, de, df) =
        traverse-Trips (λ y. ok (device_to_wire y)) device_from_wire c.devices
          (All-map c.devices (λ x h. device_trip x h.0 h.1) v.devices_built) in
      let (ms, me, mf) =
        traverse-Trips (memory_pool_to_wire p) memory_pool_from_wire c.memory_pools
          (All-map c.memory_pools (λ x h. pool_trip x h.0 h.1) v.pools_built) in
      let (ps, pe, pf) =
        traverse-Trips (λ y. ok (runtime_platform_to_wire y)) runtime_platform_from_wire
          c.runtime_platforms (All-map c.runtime_platforms platform_trip v.platforms_built) in
      (
        record {
          architecture = c.architecture;
          os = os_to_wire c.os;
          container_runtime = optional_pb c.container_runtime;
          network_interfaces = ni;
          devices = ds;
          memory_pools = ms;
          runtime_platforms = ps;
          capability_revision = c.capability_revision;
        },
        rw (ne, de, me, pe) refl,
        rw
            (
              os_trip c.os v.os_built,
              runtime_trip c.container_runtime v.runtime_built,
              nf,
              df,
              mf,
              pf,
              v.built,
            )
            refl,
      )
