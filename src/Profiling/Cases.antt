-- ===== src/Profiling/Cases.antt =====
-- src/edgeshard/profiling/domain/experiment.py: the checks of the specifications of cases. A model
-- reference and the three kinds of signatures are opaque types; a duration is a number of one unit.
pub mod Signatures
use edge_shard_v.Shared.{
  ℕ, String, Bool, true, false, not, ◌==◌, ◌==ₙ◌, ◌&&◌, ◌||◌, Option, none, some, List, [], ◌∷◌,
  length, Checked, ok, err, value_error, raise_if, ◌>>◌, is_empty, contains, has_duplicate, leb,
}
use edge_shard_v.Shared.Int.{ℤ, pos, ltb_ℤ}
use edge_shard_v.Cluster.Snapshot.{present_and_empty}
use edge_shard_v.Inference.Protocol.{InferencePhase, prefill, decode}
use edge_shard_v.Profiling.Network.{NetworkPathClass}
use edge_shard_v.Profiling.Network.Pairs.{same_interface}

pub data ProfilingGranularity : Type 0 where
  transformer_layer module_level operator_level : ProfilingGranularity

abbrev is_present : {A : Type 0} → Option A → Bool
is_present none = false
is_present (some a) = true

-- The test `value <= 0` of a number that may be absent.
abbrev present_not_positive : Option ℤ → Bool
present_not_positive none = false
present_not_positive (some n) = ltb_ℤ n (pos 1)

pub record ModelCaseSpec (Model Layer Module Operator : Type 0) : Type 0 where
  pub granularity : ProfilingGranularity
  pub device_ids : List String
  pub dtype : String
  pub backend : String
  pub model : Option Model
  pub layer_signature : Option Layer
  pub module_signature : Option Module
  pub operator_signature : Option Operator
  pub phase : InferencePhase
  pub batch_size : ℤ
  pub sequence_length : ℤ
  pub context_length : Option ℤ
  pub layer_index : Option ℤ

-- Where the model says which signatures are present: the layer's, the module's, the operator's.
unfoldable pub check_signatures : ProfilingGranularity → Bool → Bool → Bool → Bool → Checked
check_signatures transformer_layer model l m o = do
  raise_if (not l) value_error
  raise_if (m || o) value_error
  raise_if (not model) value_error
check_signatures module_level model l m o = do
  raise_if (not m) value_error
  raise_if (l || o) value_error
  raise_if (not model) value_error
check_signatures operator_level model l m o = do
  raise_if (not o) value_error
  raise_if (l || m) value_error

unfoldable pub check_phase : InferencePhase → Option ℤ → Checked
check_phase decode none = err value_error
check_phase decode (some n) = raise_if (ltb_ℤ n (pos 1)) value_error
check_phase prefill context_length = raise_if (is_present context_length) value_error

unfoldable pub check_layer_index : ProfilingGranularity → Option ℤ → Checked
check_layer_index g none = ok tt
check_layer_index transformer_layer (some n) = raise_if (ltb_ℤ n (pos 0)) value_error
check_layer_index _ (some n) = err value_error

unfoldable pub check_device_ids : List String → List String → Checked
check_device_ids seen [] = ok tt
check_device_ids seen (d ∷ ds) = do
  raise_if (is_empty d) value_error
  raise_if (contains seen d) value_error
  check_device_ids (d ∷ seen) ds

module _ {Model Layer Module Operator : Type 0} where
  unfoldable pub check_granularity : ModelCaseSpec Model Layer Module Operator → Checked
  unfolding check_signatures
  check_granularity c =
      check_signatures c.granularity (is_present c.model) (is_present c.layer_signature)
        (is_present c.module_signature) (is_present c.operator_signature)

  unfoldable pub check_model_case_spec : ModelCaseSpec Model Layer Module Operator → Checked
  unfolding check_device_ids check_layer_index check_phase check_granularity
  check_model_case_spec c = do
    raise_if (length c.device_ids ==ₙ 0) value_error
    raise_if (not (length c.device_ids ==ₙ 1)) value_error
    check_device_ids [] c.device_ids
    raise_if (is_empty c.dtype) value_error
    raise_if (is_empty c.backend) value_error
    raise_if (ltb_ℤ c.batch_size (pos 1)) value_error
    raise_if (ltb_ℤ c.sequence_length (pos 1)) value_error
    check_layer_index c.granularity c.layer_index
    check_phase c.phase c.context_length
    check_granularity c

pub data ProbeKind : Type 0 where
  rtt bandwidth : ProbeKind

pub data NetworkTransport : Type 0 where
  tcp udp : NetworkTransport

pub data NetworkDirection : Type 0 where
  forward reverse : NetworkDirection

-- The regime of a case has one value in the source, and no field here.
pub record NetworkCaseSpec : Type 0 where
  pub probe_kind : ProbeKind
  pub source_worker_id : String
  pub destination_worker_id : String
  pub source_interface_id : Option String
  pub destination_interface_id : Option String
  pub path_class : Option NetworkPathClass
  pub transport : Option NetworkTransport
  pub direction : Option NetworkDirection
  pub duration : Option ℤ
  pub packet_count : Option ℤ
  pub payload_bytes : Option ℤ

unfoldable pub check_probe : ProbeKind → NetworkCaseSpec → Checked
check_probe rtt c = do
  raise_if (is_present c.transport) value_error
  raise_if (is_present c.direction) value_error
  raise_if (is_present c.duration) value_error
  raise_if (is_present c.payload_bytes) value_error
check_probe bandwidth c = do
  raise_if (not (is_present c.transport)) value_error
  raise_if (not (is_present c.direction)) value_error
  raise_if (not (is_present c.duration)) value_error
  raise_if (present_not_positive c.duration) value_error
  raise_if (is_present c.packet_count) value_error

unfoldable pub check_network_case_spec : NetworkCaseSpec → Checked
unfolding check_probe
check_network_case_spec c = do
  raise_if (is_empty c.source_worker_id) value_error
  raise_if (is_empty c.destination_worker_id) value_error
  raise_if (present_and_empty c.source_interface_id) value_error
  raise_if (present_and_empty c.destination_interface_id) value_error
  raise_if
      (c.source_worker_id == c.destination_worker_id
        && same_interface c.source_interface_id c.destination_interface_id)
      value_error
  raise_if (present_not_positive c.packet_count) value_error
  raise_if (present_not_positive c.payload_bytes) value_error
  check_probe c.probe_kind c
