-- ===== src/Wire/Requests.antt =====
-- The requests and responses of the control protocol and their messages. The conversions of a
-- reported time are over the floats and the calendar of Python, which are parameters.
pub mod RoundTrip
use edge_shard_v.Shared.{
  ℕ, String, Bool, true, false, not, ◌==◌, Option, none, some, Result, ok, err, ◌>>=◌, ◌>>◌,
  raise_if, is_empty, control_protocol_error, if◌then◌else◌,
}
use edge_shard_v.Shared.Int.{ℤ, pos, negsuc}
use edge_shard_v.Cluster.Snapshot.{Datetime}
use edge_shard_v.Master.Requests.{
  control_protocol_version, RejectionReason, Detail, text, RegisterWorkerRequest,
  check_register_worker_request, RegisterWorkerResponse, check_register_worker_response,
  HeartbeatRequest, check_heartbeat_request, Verdict, check_verdict, UpdateCapabilityRequest,
  check_update_capability_request,
}
use edge_shard_v.Wire.Schema.{
  PbWorkerState, PbRegisterWorkerRequest, PbRegisterWorkerResponse, PbHeartbeatRequest, PbVerdict,
  PbUpdateCapabilityRequest,
}
use edge_shard_v.Wire.Fields.{Protobuf, construct, set_optional}
use edge_shard_v.Wire.Enums.{lookup, rejection_reason_to_wire, wire_to_rejection_reason}
use edge_shard_v.Wire.Capability.{
  identity_to_wire, identity_from_wire, bytes_of, capability_to_wire, capability_from_wire,
}
use edge_shard_v.Wire.State.{state_to_wire, state_from_wire}

-- What the conversions of a time use of Python: floats, `timestamp`, `int`, the constant
-- `datetime.fromtimestamp(0, tz=UTC)`, and the addition of `timedelta(milliseconds=ms)`.
pub record Times : Type 1 where
  pub Float : Type 0
  pub timestamp : Datetime → Float
  pub multiply : Float → ℕ → Float
  pub int : Float → ℤ
  pub epoch : Datetime
  pub add_milliseconds : Datetime → ℤ → Result Datetime

unfoldable pub register_request_from_wire : PbRegisterWorkerRequest → Result RegisterWorkerRequest
register_request_from_wire w = do
  raise_if (not (w.protocol_version == control_protocol_version)) control_protocol_error
  identity ← identity_from_wire w.identity
  raise_if (not (w.worker_id == identity.worker_id)) control_protocol_error
  capability ← capability_from_wire w.capability
  raise_if (not (w.capability_revision == capability.capability_revision)) control_protocol_error
  state ← state_from_wire w.initial_state
  let value : RegisterWorkerRequest = record {
    protocol_version = w.protocol_version;
    instance_id = w.instance_id;
    identity = identity;
    capability = capability;
    initial_state = state;
    profiling_endpoint = w.profiling_endpoint;
  }
  construct (check_register_worker_request value) value

unfoldable pub register_response_from_wire :
    PbRegisterWorkerResponse → Result RegisterWorkerResponse
register_response_from_wire w =
    let value : RegisterWorkerResponse = record {
      session_id = w.session_id;
      heartbeat_interval_ms = bytes_of w.heartbeat_interval_ms;
      server_protocol_version = w.server_protocol_version;
    } in
    construct (check_register_worker_response value) value

-- `state=state_from_wire(wire.state)` behind `if not wire.HasField("state")`
abbrev pub required_state : Option PbWorkerState → Result PbWorkerState
required_state none = err control_protocol_error
required_state (some s) = ok s

unfoldable pub update_request_from_wire : PbUpdateCapabilityRequest → Result UpdateCapabilityRequest
update_request_from_wire w = do
  sampled ← required_state w.state
  capability ← capability_from_wire w.capability
  state ← state_from_wire sampled
  let value : UpdateCapabilityRequest = record {
    worker_id = w.worker_id;
    instance_id = w.instance_id;
    session_id = w.session_id;
    capability = capability;
    state = state;
  }
  construct (check_update_capability_request value) value

-- `REJECTION_REASON_UNSPECIFIED` is 0.
unfoldable pub reason_to_wire : Option RejectionReason → ℕ
reason_to_wire none = 0
reason_to_wire (some r) = rejection_reason_to_wire r

abbrev pub required_reason : Option RejectionReason → Result (Option RejectionReason)
required_reason none = err control_protocol_error
required_reason (some r) = ok (some r)

unfoldable pub reason_from_wire : ℕ → Bool → Result (Option RejectionReason)
unfolding lookup
reason_from_wire wire_reason true = ok none
reason_from_wire wire_reason false = required_reason (lookup wire_to_rejection_reason wire_reason)

-- The text of a response: an absent detail is the empty text.
abbrev pub detail_of : String → Option Detail
detail_of s = if is_empty s then none else some (text s)

unfoldable pub verdict_from_wire : PbVerdict → Result Verdict
unfolding reason_from_wire
verdict_from_wire w = do
  reason ← reason_from_wire w.reason w.accepted
  let value : Verdict = record {
    accepted = w.accepted;
    detail = detail_of w.detail;
    reason = reason;
  }
  construct (check_verdict value) value

-- `render` prints the detail of a rejection.
module _ (render : Detail → String) where
  abbrev pub text_of : Option Detail → String
  text_of none = ""
  text_of (some d) = render d

  unfoldable pub verdict_to_wire : Verdict → PbVerdict
  verdict_to_wire v = record {
    accepted = v.accepted;
    detail = text_of v.detail;
    reason = reason_to_wire v.reason;
  }

module _ (p : Protobuf) where
  open p use {set_int32, set_int64}

  unfoldable pub register_request_to_wire : RegisterWorkerRequest → Result PbRegisterWorkerRequest
  register_request_to_wire r = do
    capability ← capability_to_wire p r.capability
    state ← state_to_wire p r.initial_state
    ok (record {
      protocol_version = r.protocol_version;
      worker_id = r.identity.worker_id;
      instance_id = r.instance_id;
      identity = identity_to_wire r.identity;
      capability_revision = r.capability.capability_revision;
      capability = capability;
      initial_state = state;
      profiling_endpoint = r.profiling_endpoint;
    })

  unfoldable pub register_response_to_wire :
      RegisterWorkerResponse → Result PbRegisterWorkerResponse
  register_response_to_wire r = do
    interval ← set_int32 (pos r.heartbeat_interval_ms)
    ok (record {
      session_id = r.session_id;
      heartbeat_interval_ms = interval;
      server_protocol_version = r.server_protocol_version;
    })

  unfoldable pub update_request_to_wire : UpdateCapabilityRequest → Result PbUpdateCapabilityRequest
  update_request_to_wire r = do
    capability ← capability_to_wire p r.capability
    state ← state_to_wire p r.state
    ok (record {
      worker_id = r.worker_id;
      instance_id = r.instance_id;
      session_id = r.session_id;
      capability = capability;
      state = some state;
    })

module _ (times : Times) where
  unfoldable pub timestamp_to_ms : Option Datetime → Option ℤ
  timestamp_to_ms none = none
  timestamp_to_ms (some reported_at) =
      some (times.int (times.multiply (times.timestamp reported_at) 1_000))

  unfoldable pub timestamp_from_ms : Option ℤ → Result (Option Datetime)
  timestamp_from_ms none = ok none
  timestamp_from_ms (some ms) = do
    reported_at ← times.add_milliseconds times.epoch ms
    ok (some reported_at)

  unfoldable pub heartbeat_request_from_wire : PbHeartbeatRequest → Result HeartbeatRequest
  heartbeat_request_from_wire w = do
    state ← state_from_wire w.state
    reported_at ← timestamp_from_ms w.worker_reported_at_ms
    let value : HeartbeatRequest = record {
      worker_id = w.worker_id;
      instance_id = w.instance_id;
      session_id = w.session_id;
      sequence_number = bytes_of w.sequence_number;
      capability_revision = w.capability_revision;
      state = state;
      worker_reported_at = reported_at;
    }
    construct (check_heartbeat_request value) value

module _ (times : Times) (p : Protobuf) where
  open p use {set_int64}

  unfoldable pub heartbeat_request_to_wire : HeartbeatRequest → Result PbHeartbeatRequest
  heartbeat_request_to_wire r = do
    sequence_number ← set_int64 (pos r.sequence_number)
    state ← state_to_wire p r.state
    reported_at_ms ← set_optional set_int64 (timestamp_to_ms times r.worker_reported_at)
    ok (record {
      worker_id = r.worker_id;
      instance_id = r.instance_id;
      session_id = r.session_id;
      sequence_number = sequence_number;
      worker_reported_at_ms = reported_at_ms;
      capability_revision = r.capability_revision;
      state = state;
    })
