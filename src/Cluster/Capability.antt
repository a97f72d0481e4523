-- ===== src/Cluster/Capability.antt =====
-- src/edgeshard/cluster/capability.py: the static description of a Worker, and its own check.
use edge_shard_v.Shared.{
  ℕ, String, Bool, not, Option, none, some, List, [], ◌∷◌, map, Checked, ok, value_error, raise_if,
  ◌>>◌, is_empty, leb, contains, has_duplicate,
}
use edge_shard_v.Shared.Int.{ℤ}
use edge_shard_v.Cluster.Identity.{DeviceIdentity}

pub data MemoryModel : Type 0 where
  discrete shared : MemoryModel

-- `total_bytes <= 0` is refused, so a negative value and 0 fare alike.
pub record MemoryPoolCapability : Type 0 where
  pub memory_pool_id : String
  pub model : MemoryModel
  pub total_bytes : ℕ

unfoldable pub check_memory_pool_capability : MemoryPoolCapability → Checked
check_memory_pool_capability p = do
  raise_if (is_empty p.memory_pool_id) value_error
  raise_if (leb p.total_bytes 0) value_error

pub record OsInfo : Type 0 where
  pub name : String
  pub version : Option String
  pub kernel : Option String

unfoldable pub check_os_info : OsInfo → Checked
check_os_info o = raise_if (is_empty o.name) value_error

pub record ContainerRuntimeCapability : Type 0 where
  pub runtime : String
  pub version : Option String
  pub nvidia_runtime_available : Bool

unfoldable pub check_container_runtime : ContainerRuntimeCapability → Checked
check_container_runtime c = raise_if (is_empty c.runtime) value_error

pub record NetworkInterfaceCapability : Type 0 where
  pub interface_id : String
  pub name : String
  pub addresses : List String
  pub mtu : Option ℤ

unfoldable pub check_network_interface : NetworkInterfaceCapability → Checked
check_network_interface n = do
  raise_if (is_empty n.interface_id) value_error
  raise_if (is_empty n.name) value_error

pub record RuntimePlatformCapability : Type 0 where
  pub backend : String
  pub platform : String
  pub image : Option String

unfoldable pub check_runtime_platform : RuntimePlatformCapability → Checked
check_runtime_platform r = do
  raise_if (is_empty r.backend) value_error
  raise_if (is_empty r.platform) value_error

pub record DeviceCapability : Type 0 where
  pub identity : DeviceIdentity
  pub vendor : String
  pub model : String
  pub compute_capability : Option String
  pub memory_pool_id : Option String
  pub supported_dtypes : List String
  pub driver_version : Option String
  pub platform_tags : List String

unfoldable pub check_device_capability : DeviceCapability → Checked
check_device_capability d = do
  raise_if (is_empty d.vendor) value_error
  raise_if (is_empty d.model) value_error

pub record WorkerCapability : Type 0 where
  pub architecture : String
  pub os : OsInfo
  pub container_runtime : Option ContainerRuntimeCapability
  pub network_interfaces : List NetworkInterfaceCapability
  pub devices : List DeviceCapability
  pub memory_pools : List MemoryPoolCapability
  pub runtime_platforms : List RuntimePlatformCapability
  pub capability_revision : String

abbrev pub pool_ids : List MemoryPoolCapability → List String
pool_ids = map λ p. p.memory_pool_id

abbrev pub device_ids : List DeviceCapability → List String
device_ids = map λ d. d.identity.device_id

-- The loop over the devices that looks for a dangling pool.
check_device_pools : List String → List DeviceCapability → Checked
check_device_pools known [] = ok tt
check_device_pools known (d ∷ ds) =
    let rest = check_device_pools known ds in
    elim d.memory_pool_id [
      | none ↦ rest
      | some pool_id ↦ raise_if (not (contains known pool_id)) value_error >> rest
    ]

unfoldable pub check_worker_capability : WorkerCapability → Checked
unfolding check_device_pools
check_worker_capability c = do
  raise_if (is_empty c.architecture) value_error
  raise_if (has_duplicate (pool_ids c.memory_pools)) value_error
  raise_if (has_duplicate (device_ids c.devices)) value_error
  check_device_pools (pool_ids c.memory_pools) c.devices
