-- ===== src/Cluster/Revision.antt =====
-- `compute_capability_revision` of src/edgeshard/cluster/capability.py: the fingerprint of a
-- capability. Python's `json.dumps` (sorted keys, no spaces) and SHA-256 are parameters.
pub mod Order
use edge_shard_v.Shared.{
  String, Bool, ◌==◌, Option, none, some, List, [], ◌∷◌, contains, if◌then◌else◌,
}
use Prim.Native.Nat.{Ordering}
use Prim.Native.String.{compare}
use edge_shard_v.Shared.Int.{ℤ, pos}
use edge_shard_v.Cluster.Identity.{DeviceIdentity, DeviceKind, cpu, gpu, npu, other}
use edge_shard_v.Cluster.Capability.{
  MemoryModel, discrete, shared, MemoryPoolCapability, OsInfo, ContainerRuntimeCapability,
  NetworkInterfaceCapability, RuntimePlatformCapability, DeviceCapability, WorkerCapability,
}

-- A Python value as `_canonical_value` tells them apart: a dataclass with its fields in order, a
-- tuple, and what JSON writes as it is. An enum member stands by its value.
mutual
  pub data Value : Type 0 where
    null : Value
    boolean : Bool → Value
    integer : ℤ → Value
    str : String → Value
    tuple : Values → Value
    dataclass : Fields → Value

  pub data Values : Type 0 where
    nil : Values
    cons : Value → Values → Values

  pub data Fields : Type 0 where
    end : Fields
    field : String → Value → Fields → Fields

-- Plain JSON data: arrays and mappings.
mutual
  pub data Json : Type 0 where
    j_null : Json
    j_boolean : Bool → Json
    j_integer : ℤ → Json
    j_string : String → Json
    array : Array → Json
    mapping : Mapping → Json

  pub data Array : Type 0 where
    empty : Array
    item : Json → Array → Array

  pub data Mapping : Type 0 where
    done : Mapping
    entry : String → Json → Mapping → Mapping

pub record Digest : Type 0 where
  pub dumps : Json → String
  pub sha256 : String → String

abbrev pub order_insensitive_fields : List String
order_insensitive_fields =
    "network_interfaces" ∷ "devices" ∷ "memory_pools" ∷ "runtime_platforms" ∷ "addresses"
    ∷ "supported_dtypes" ∷ "platform_tags" ∷ []

abbrev pub key_le : String → String → Bool
key_le a b = elim (compare a b) [ Ordering.gt ↦ Bool.false | _ ↦ Bool.true ]

-- The dataclasses as such values, field by field in the order of their declarations.
abbrev pub optional {ℓ} : {A : Type ℓ} → (A → Value) → Option A → Value
optional f none = null
optional f (some a) = f a

abbrev pub tuple_of {ℓ} : {A : Type ℓ} → (A → Value) → List A → Values
tuple_of f [] = nil
tuple_of f (x ∷ xs) = cons (f x) (tuple_of f xs)

abbrev kind_value : DeviceKind → String
kind_value cpu = "cpu"
kind_value gpu = "gpu"
kind_value npu = "npu"
kind_value other = "other"

abbrev model_value : MemoryModel → String
model_value discrete = "discrete"
model_value shared = "shared"

abbrev pub pool_value : MemoryPoolCapability → Value
pool_value p = dataclass (
    field "memory_pool_id" (str p.memory_pool_id) (
      field "model" (str (model_value p.model))
        (field "total_bytes" (integer (pos p.total_bytes)) end)))

abbrev pub os_value : OsInfo → Value
os_value o = dataclass (
    field "name" (str o.name)
      (field "version" (optional str o.version) (field "kernel" (optional str o.kernel) end)))

abbrev pub container_value : ContainerRuntimeCapability → Value
container_value c = dataclass (
    field "runtime" (str c.runtime) (
      field "version" (optional str c.version)
        (field "nvidia_runtime_available" (boolean c.nvidia_runtime_available) end)))

abbrev pub interface_value : NetworkInterfaceCapability → Value
interface_value n = dataclass (
    field "interface_id" (str n.interface_id) (
      field "name" (str n.name) (
        field "addresses" (tuple (tuple_of str n.addresses))
          (field "mtu" (optional integer n.mtu) end))))

abbrev pub platform_value : RuntimePlatformCapability → Value
platform_value p = dataclass (
    field "backend" (str p.backend)
      (field "platform" (str p.platform) (field "image" (optional str p.image) end)))

abbrev identity_value : DeviceIdentity → Value
identity_value i = dataclass (
    field "device_id" (str i.device_id)
      (field "kind" (str (kind_value i.kind)) (field "local_locator" (str i.local_locator) end)))

abbrev pub device_value : DeviceCapability → Value
device_value d = dataclass (
    field "identity" (identity_value d.identity) (
      field "vendor" (str d.vendor) (
        field "model" (str d.model) (
          field "compute_capability" (optional str d.compute_capability) (
            field "memory_pool_id" (optional str d.memory_pool_id) (
              field "supported_dtypes" (tuple (tuple_of str d.supported_dtypes)) (
                field "driver_version" (optional str d.driver_version)
                  (field "platform_tags" (tuple (tuple_of str d.platform_tags)) end))))))))

abbrev pub capability_value : WorkerCapability → Value
capability_value c = dataclass (
    field "architecture" (str c.architecture) (
      field "os" (os_value c.os) (
        field "container_runtime" (optional container_value c.container_runtime) (
          field "network_interfaces" (tuple (tuple_of interface_value c.network_interfaces)) (
            field "devices" (tuple (tuple_of device_value c.devices)) (
              field "memory_pools" (tuple (tuple_of pool_value c.memory_pools)) (
                field "runtime_platforms" (tuple (tuple_of platform_value c.runtime_platforms))
                  (field "capability_revision" (str c.capability_revision) end))))))))

-- `mapping.pop("capability_revision", None)`
unfoldable pub pop_entry : String → Mapping → Mapping
pop_entry key done = done
pop_entry key (entry k j m) =
    let rest = pop_entry key m in if k == key then rest else entry k j rest

unfoldable pub without_revision : Json → Json
unfolding pop_entry
without_revision (mapping m) = mapping (pop_entry "capability_revision" m)
without_revision j = j

module _ (h : Digest) where
  open h use {dumps, sha256}

  -- `sorted(item, key=_canonical_sort_key)`: a stable insertion by the key.
  unfoldable pub insert_item : Json → Array → Array
  insert_item j empty = item j empty
  insert_item j (item k xs) =
      if key_le (dumps j) (dumps k) then item j (item k xs) else item k (insert_item j xs)

  unfoldable pub sort_array : Array → Array
  unfolding insert_item
  sort_array empty = empty
  sort_array (item j xs) = insert_item j (sort_array xs)

  unfoldable pub sort_if_array : Json → Json
  unfolding sort_array
  sort_if_array (array xs) = array (sort_array xs)
  sort_if_array j = j

  unfoldable mutual
    pub canonical_value : Value → Json
    canonical_value null = j_null
    canonical_value (boolean b) = j_boolean b
    canonical_value (integer n) = j_integer n
    canonical_value (str s) = j_string s
    canonical_value (tuple xs) = array (canonical_values xs)
    canonical_value (dataclass fs) = mapping (canonical_fields fs)

    pub canonical_values : Values → Array
    canonical_values nil = empty
    canonical_values (cons x xs) = item (canonical_value x) (canonical_values xs)

    pub canonical_fields : Fields → Mapping
    canonical_fields end = done
    canonical_fields (field name x fs) =
        entry name
          (if contains order_insensitive_fields name
            then sort_if_array (canonical_value x)
            else canonical_value x)
          (canonical_fields fs)

  unfoldable pub compute_capability_revision : WorkerCapability → String
  unfolding without_revision canonical_value
  compute_capability_revision c =
      sha256 (dumps (without_revision (canonical_value (capability_value c))))
