-- ===== src/Master/Requests.antt =====
-- The domain requests and responses of src/edgeshard/protocol/control/mapper.py, each with the check
-- that its constructor makes.
use edge_shard_v.Shared.{
  ℕ, String, Bool, true, false, ◌==◌, not, Option, none, some, Checked, ok, err, value_error,
  control_protocol_error, raise_if, ◌>>◌, is_empty, leb, ltb,
}
use edge_shard_v.Cluster.Identity.{WorkerIdentity}
use edge_shard_v.Cluster.Capability.{WorkerCapability}
use edge_shard_v.Cluster.State.{WorkerState}
use edge_shard_v.Cluster.Snapshot.{Datetime, present_and_empty}

abbrev pub control_protocol_version : String
control_protocol_version = "1"

pub data RejectionReason : Type 0 where
  unknown_worker stale_session instance_mismatch out_of_order reregister_required : RejectionReason

-- The human-readable part of a rejection. The last constructor holds the values that the message
-- of a revision mismatch prints.
pub data Detail : Type 0 where
  text : String → Detail
  revision_mismatch : String → String → Detail

pub record RegisterWorkerRequest : Type 0 where
  pub protocol_version : String
  pub instance_id : String
  pub identity : WorkerIdentity
  pub capability : WorkerCapability
  pub initial_state : WorkerState
  pub profiling_endpoint : Option String

unfoldable pub check_register_worker_request : RegisterWorkerRequest → Checked
check_register_worker_request r = do
  raise_if (not (r.protocol_version == control_protocol_version)) control_protocol_error
  raise_if (not (r.identity.protocol_version == r.protocol_version)) control_protocol_error
  raise_if (is_empty r.instance_id) value_error
  raise_if (not (r.identity.worker_id == r.initial_state.worker_id)) value_error
  raise_if (present_and_empty r.profiling_endpoint) value_error

pub record RegisterWorkerResponse : Type 0 where
  pub session_id : String
  pub heartbeat_interval_ms : ℕ
  pub server_protocol_version : String

unfoldable pub check_register_worker_response : RegisterWorkerResponse → Checked
check_register_worker_response r = do
  raise_if (is_empty r.session_id) value_error
  raise_if (leb r.heartbeat_interval_ms 0) value_error
  raise_if (not (r.server_protocol_version == control_protocol_version)) control_protocol_error

pub record HeartbeatRequest : Type 0 where
  pub worker_id : String
  pub instance_id : String
  pub session_id : String
  pub sequence_number : ℕ
  pub capability_revision : String
  pub state : WorkerState
  pub worker_reported_at : Option Datetime

abbrev pub naive : Option Datetime → Bool
naive none = false
naive (some d) = not d.aware

unfoldable pub check_heartbeat_request : HeartbeatRequest → Checked
check_heartbeat_request r = do
  raise_if (is_empty r.worker_id) value_error
  raise_if (is_empty r.instance_id) value_error
  raise_if (is_empty r.session_id) value_error
  raise_if (ltb r.sequence_number 1) value_error
  raise_if (is_empty r.capability_revision) value_error
  raise_if (not (r.worker_id == r.state.worker_id)) value_error
  raise_if (naive r.worker_reported_at) value_error

-- `HeartbeatResponse` and `UpdateCapabilityResponse` have the same fields and the same check. An
-- absent detail is the empty text.
pub record Verdict : Type 0 where
  pub accepted : Bool
  pub detail : Option Detail
  pub reason : Option RejectionReason

abbrev check_rejected : Option Detail → Option RejectionReason → Checked
check_rejected none reason = err value_error
check_rejected (some d) none = err value_error
check_rejected (some d) (some r) = ok tt

abbrev check_accepted : Option RejectionReason → Checked
check_accepted none = ok tt
check_accepted (some r) = err value_error

abbrev check_parts : Bool → Option Detail → Option RejectionReason → Checked
check_parts false detail reason = check_rejected detail reason
check_parts true detail reason = check_accepted reason

unfoldable pub check_verdict : Verdict → Checked
check_verdict v = check_parts v.accepted v.detail v.reason

pub record UpdateCapabilityRequest : Type 0 where
  pub worker_id : String
  pub instance_id : String
  pub session_id : String
  pub capability : WorkerCapability
  pub state : WorkerState

unfoldable pub check_update_capability_request : UpdateCapabilityRequest → Checked
check_update_capability_request r = do
  raise_if (is_empty r.worker_id) value_error
  raise_if (is_empty r.instance_id) value_error
  raise_if (is_empty r.session_id) value_error
  raise_if (not (r.worker_id == r.state.worker_id)) value_error
