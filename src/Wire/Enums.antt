-- ===== src/Wire/Enums.antt =====
-- The tables between enumerations and their numbers on the wire.
use edge_shard_v.Shared.{
  ℕ, ◌≡◌, refl, Option, none, some, List, [], ◌∷◌, map, Result, ok, err, control_protocol_error,
  ◌==ₙ◌, if◌then◌else◌,
}
use edge_shard_v.Cluster.Identity.{DeviceKind, cpu, gpu, npu, other}
use edge_shard_v.Cluster.Capability.{MemoryModel, discrete, shared}
use edge_shard_v.Cluster.State.{
  DeviceAvailability, RuntimeStatus, created, running, stopped, failed, ModelAvailability, ready,
  incomplete, invalid,
}
use edge_shard_v.Master.Requests.{
  RejectionReason, unknown_worker, stale_session, instance_mismatch, out_of_order,
  reregister_required,
}

-- `{v: k for k, v in table.items()}`
abbrev pub inverted : {A : Type 0} → (A → ℕ) → List A → List (ℕ × A)
inverted to_wire = map (λ k. (to_wire k, k))

-- `table.get(wire_value)`
unfoldable pub lookup : {A : Type 0} → List (ℕ × A) → ℕ → Option A
lookup [] v = none
lookup ((w, a) ∷ table) v = let rest = lookup table v in if w ==ₙ v then some a else rest

abbrev pub decoded : {A : Type 0} → Option A → Result A
decoded none = err control_protocol_error
decoded (some a) = ok a

unfoldable pub decode_enum : {A : Type 0} → List (ℕ × A) → ℕ → Result A
unfolding lookup
decode_enum table wire_value = decoded (lookup table wire_value)

unfoldable pub device_kind_to_wire : DeviceKind → ℕ
device_kind_to_wire cpu = 1
device_kind_to_wire gpu = 2
device_kind_to_wire npu = 3
device_kind_to_wire other = 4

unfoldable pub wire_to_device_kind : List (ℕ × DeviceKind)
unfolding device_kind_to_wire
wire_to_device_kind = inverted device_kind_to_wire (cpu ∷ gpu ∷ npu ∷ other ∷ [])

pub device_kind_trip :
    (k : DeviceKind) → decode_enum wire_to_device_kind (device_kind_to_wire k) ≡ ok k
unfolding decode_enum wire_to_device_kind device_kind_to_wire lookup
device_kind_trip cpu = refl
device_kind_trip gpu = refl
device_kind_trip npu = refl
device_kind_trip other = refl

unfoldable pub memory_model_to_wire : MemoryModel → ℕ
memory_model_to_wire discrete = 1
memory_model_to_wire shared = 2

unfoldable pub wire_to_memory_model : List (ℕ × MemoryModel)
unfolding memory_model_to_wire
wire_to_memory_model = inverted memory_model_to_wire (discrete ∷ shared ∷ [])

pub memory_model_trip :
    (k : MemoryModel) → decode_enum wire_to_memory_model (memory_model_to_wire k) ≡ ok k
unfolding decode_enum wire_to_memory_model memory_model_to_wire lookup
memory_model_trip discrete = refl
memory_model_trip shared = refl

unfoldable pub availability_to_wire : DeviceAvailability → ℕ
availability_to_wire DeviceAvailability.available = 1
availability_to_wire DeviceAvailability.unavailable = 2
availability_to_wire DeviceAvailability.unknown = 3

unfoldable pub wire_to_availability : List (ℕ × DeviceAvailability)
unfolding availability_to_wire
wire_to_availability = inverted availability_to_wire (
    DeviceAvailability.available ∷ DeviceAvailability.unavailable ∷ DeviceAvailability.unknown ∷ [])

pub availability_trip :
    (k : DeviceAvailability) → decode_enum wire_to_availability (availability_to_wire k) ≡ ok k
unfolding decode_enum wire_to_availability availability_to_wire lookup
availability_trip DeviceAvailability.available = refl
availability_trip DeviceAvailability.unavailable = refl
availability_trip DeviceAvailability.unknown = refl

unfoldable pub runtime_status_to_wire : RuntimeStatus → ℕ
runtime_status_to_wire created = 1
runtime_status_to_wire running = 2
runtime_status_to_wire stopped = 3
runtime_status_to_wire failed = 4
runtime_status_to_wire RuntimeStatus.unknown = 5

unfoldable pub wire_to_runtime_status : List (ℕ × RuntimeStatus)
unfolding runtime_status_to_wire
wire_to_runtime_status =
    inverted runtime_status_to_wire
      (created ∷ running ∷ stopped ∷ failed ∷ RuntimeStatus.unknown ∷ [])

pub runtime_status_trip :
    (k : RuntimeStatus) → decode_enum wire_to_runtime_status (runtime_status_to_wire k) ≡ ok k
unfolding decode_enum wire_to_runtime_status runtime_status_to_wire lookup
runtime_status_trip created = refl
runtime_status_trip running = refl
runtime_status_trip stopped = refl
runtime_status_trip failed = refl
runtime_status_trip RuntimeStatus.unknown = refl

unfoldable pub model_availability_to_wire : ModelAvailability → ℕ
model_availability_to_wire ready = 1
model_availability_to_wire incomplete = 2
model_availability_to_wire invalid = 3

unfoldable pub wire_to_model_availability : List (ℕ × ModelAvailability)
unfolding model_availability_to_wire
wire_to_model_availability = inverted model_availability_to_wire (ready ∷ incomplete ∷ invalid ∷ [])

pub model_availability_trip :
    (k : ModelAvailability)
    → decode_enum wire_to_model_availability (model_availability_to_wire k) ≡ ok k
unfolding decode_enum wire_to_model_availability model_availability_to_wire lookup
model_availability_trip ready = refl
model_availability_trip incomplete = refl
model_availability_trip invalid = refl

unfoldable pub rejection_reason_to_wire : RejectionReason → ℕ
rejection_reason_to_wire unknown_worker = 1
rejection_reason_to_wire stale_session = 2
rejection_reason_to_wire instance_mismatch = 3
rejection_reason_to_wire out_of_order = 4
rejection_reason_to_wire reregister_required = 5

unfoldable pub wire_to_rejection_reason : List (ℕ × RejectionReason)
unfolding rejection_reason_to_wire
wire_to_rejection_reason =
    inverted rejection_reason_to_wire
      (unknown_worker ∷ stale_session ∷ instance_mismatch ∷ out_of_order ∷ reregister_required ∷ [])

pub rejection_reason_trip :
    (k : RejectionReason) → decode_enum wire_to_rejection_reason (rejection_reason_to_wire k) ≡ ok k
unfolding decode_enum wire_to_rejection_reason rejection_reason_to_wire lookup
rejection_reason_trip unknown_worker = refl
rejection_reason_trip stale_session = refl
rejection_reason_trip instance_mismatch = refl
rejection_reason_trip out_of_order = refl
rejection_reason_trip reregister_required = refl
