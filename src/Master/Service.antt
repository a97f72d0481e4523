-- ===== src/Master/Service.antt =====
-- src/edgeshard/control/master/service.py: the handlers of the Master over its
-- components. A handler runs on one event loop and never awaits between a read and a write, so it is
-- one function; the clocks and the fresh session id are arguments. The state
-- comes back beside an exception, with what was written before it was raised.
pub mod Invariant
pub mod Atomicity
pub mod Heartbeats
use edge_shard_v.Shared.{
  ℕ, String, Bool, true, false, ◌==◌, not, Option, none, some, List, [], ◌∷◌, Result, Checked, ok,
  err, value_error, control_protocol_error, raise_if, if◌then◌else◌,
}
use edge_shard_v.Shared.Exec.{Exec, lift, gets, ◌>>=◌, ◌>>◌}
use edge_shard_v.Shared.Dict.{Dict, get, put}
use edge_shard_v.Cluster.Identity.{WorkerIdentity}
use edge_shard_v.Cluster.Capability.{WorkerCapability}
use edge_shard_v.Cluster.State.{WorkerState, WorkerStatus}
use edge_shard_v.Cluster.Snapshot.{
  Datetime, validate_state_against_capability, WorkerSnapshot, check_worker_snapshot,
  ClusterSnapshot, check_cluster_snapshot,
}
use edge_shard_v.Cluster.Revision.{Digest, compute_capability_revision}
use edge_shard_v.Master.Config.{MasterConfig}
use edge_shard_v.Master.Requests.{
  control_protocol_version, unknown_worker, reregister_required, text, revision_mismatch,
  RegisterWorkerRequest, RegisterWorkerResponse, check_register_worker_response, HeartbeatRequest,
  Verdict, check_verdict, UpdateCapabilityRequest,
}
use edge_shard_v.Master.Registry.{WorkerRecord, Registry, upsert, get_record, list_workers}
use edge_shard_v.Master.Sessions.{
  Rejection, Sessions, open_session, check_session, check_heartbeat, record_accepted_sequence,
}
use edge_shard_v.Master.StateStore.{States, record_state}
use edge_shard_v.Master.Liveness.{status_at, evaluate}

pub record Master : Type 0 where
  pub config : MasterConfig
  pub registry : Registry
  pub sessions : Sessions
  pub states : States
  pub last_logged : Dict WorkerStatus

abbrev pub init : MasterConfig → Master
init c = record { config = c; registry = []; sessions = []; states = []; last_logged = [] }

-- What the two clocks read when a handler stores a state.
pub record Clock : Type 0 where
  pub monotonic : ℕ
  pub wall : Datetime

-- The call of one component, which replaces its part of the state or raises.
abbrev with_registry : Master → Result Registry → Result (Unit {0}) × Master
with_registry m (ok r) = (ok tt, record m { registry = r })
with_registry m (err e) = (err e, m)

abbrev with_sessions : Master → Result Sessions → Result (Unit {0}) × Master
with_sessions m (ok s) = (ok tt, record m { sessions = s })
with_sessions m (err e) = (err e, m)

abbrev with_states : Master → Result States → Result (Unit {0}) × Master
with_states m (ok s) = (ok tt, record m { states = s })
with_states m (err e) = (err e, m)

upsert_record : WorkerIdentity → WorkerCapability → Option String → Exec Master (Unit {0})
upsert_record identity capability endpoint m =
    with_registry m (upsert identity capability endpoint m.registry)

award_session : String → String → String → Exec Master (Unit {0})
award_session worker_id instance_id fresh m =
    with_sessions m (open_session worker_id instance_id fresh m.sessions)

consume_sequence : String → ℕ → Exec Master (Unit {0})
consume_sequence worker_id sequence m =
    with_sessions m (record_accepted_sequence worker_id sequence m.sessions)

store_state : String → WorkerState → Clock → Exec Master (Unit {0})
store_state worker_id state now m =
    with_states m (record_state worker_id state now.monotonic now.wall m.states)

-- `except ValueError`: any exception of the cross-check becomes a protocol error.
abbrev as_protocol_error : Checked → Checked
as_protocol_error (ok u) = ok u
as_protocol_error (err e) = err control_protocol_error

unfoldable pub check_state_consistency : WorkerState → WorkerCapability → Checked
check_state_consistency s c = as_protocol_error (validate_state_against_capability s c)

-- A response object is built, which may raise, and returned.
abbrev built {ℓ} : {A : Type ℓ} → Checked → A → Result A
built (ok u) a = ok a
built (err e) a = err e

abbrev pub accept : Verdict
accept = record { accepted = true; detail = none; reason = none }

abbrev pub refuse : Rejection → Verdict
refuse r = record { accepted = false; detail = some r.detail; reason = some r.reason }

respond : Verdict → Result Verdict
respond v = built (check_verdict v) v

-- `_check_heartbeat_revision`
abbrev revision_of : Option WorkerRecord → String → Option Rejection
revision_of none reported =
    some (record { reason = unknown_worker; detail = text "unknown worker" })
revision_of (some r) reported =
    let stored = r.capability.capability_revision in
    if not (stored == reported)
    then some (record { reason = reregister_required; detail = revision_mismatch reported stored })
    else none

unfoldable pub check_heartbeat_revision : HeartbeatRequest → Registry → Option Rejection
check_heartbeat_revision q m = revision_of (get q.worker_id m) q.capability_revision

abbrev or_else : Option Rejection → Option Rejection → Option Rejection
or_else (some r) other = some r
or_else none other = other

-- The session gate, then the revision gate.
unfoldable pub heartbeat_gate : HeartbeatRequest → Master → Option Rejection
unfolding check_heartbeat_revision
heartbeat_gate q m =
    or_else (check_heartbeat q.worker_id q.instance_id q.session_id q.sequence_number m.sessions)
      (check_heartbeat_revision q m.registry)

accept_heartbeat : HeartbeatRequest → Clock → Exec Master Verdict
unfolding consume_sequence store_state respond
accept_heartbeat q now = do
  r ← gets (λ m. get_record q.worker_id m.registry)
  r' ← lift r
  lift (check_state_consistency q.state r'.capability)
  consume_sequence q.worker_id q.sequence_number
  store_state q.worker_id q.state now
  lift (respond accept)

abbrev answer_heartbeat : Option Rejection → HeartbeatRequest → Clock → Exec Master Verdict
answer_heartbeat (some r) q now = lift (respond (refuse r))
answer_heartbeat none q now = accept_heartbeat q now

unfoldable pub heartbeat : HeartbeatRequest → Clock → Exec Master Verdict
unfolding heartbeat_gate accept_heartbeat respond
heartbeat q now = do rejection ← gets (heartbeat_gate q); answer_heartbeat rejection q now

module _ (h : Digest) where
  unfoldable pub check_capability_revision : WorkerCapability → Checked
  check_capability_revision c =
      raise_if (not (c.capability_revision == compute_capability_revision h c))
        control_protocol_error

  unfoldable pub register_worker :
      RegisterWorkerRequest → String → Clock → Exec Master RegisterWorkerResponse
  unfolding upsert_record award_session store_state check_state_consistency
      check_capability_revision
  register_worker q fresh now = do
    lift (check_capability_revision q.capability)
    lift (check_state_consistency q.initial_state q.capability)
    let worker_id = q.identity.worker_id
    upsert_record q.identity q.capability q.profiling_endpoint
    award_session worker_id q.instance_id fresh
    store_state worker_id q.initial_state now
    interval ← gets (λ m. m.config.heartbeat_interval_ms)
    let response : RegisterWorkerResponse = record {
      session_id = fresh;
      heartbeat_interval_ms = interval;
      server_protocol_version = control_protocol_version;
    }
    lift (built (check_register_worker_response response) response)

  accept_capability : UpdateCapabilityRequest → Clock → Exec Master Verdict
  unfolding upsert_record store_state respond check_state_consistency check_capability_revision
  accept_capability q now = do
    lift (check_capability_revision q.capability)
    lift (check_state_consistency q.state q.capability)
    r ← gets (λ m. get_record q.worker_id m.registry)
    r' ← lift r
    upsert_record r'.identity q.capability r'.profiling_endpoint
    store_state q.worker_id q.state now
    lift (respond accept)

  abbrev answer_capability :
      Option Rejection → UpdateCapabilityRequest → Clock → Exec Master Verdict
  answer_capability (some r) q now = lift (respond (refuse r))
  answer_capability none q now = accept_capability q now

  unfoldable pub update_capability : UpdateCapabilityRequest → Clock → Exec Master Verdict
  unfolding accept_capability respond
  update_capability q now = do
    rejection ← gets (λ m. check_session q.worker_id q.instance_id q.session_id m.sessions)
    answer_capability rejection q now

-- One tick of the liveness task: the transitions that it logs come back.
unfoldable pub tick : ℕ → Master → Master × List (String × WorkerStatus)
tick now m =
    let (logged, lines) = evaluate m.config now m.states m.last_logged in
    (record m { last_logged = logged }, lines)
