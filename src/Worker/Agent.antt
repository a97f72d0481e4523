-- ===== src/Worker/Agent.antt =====
-- src/edgeshard/control/worker/master_client.py: the Agent that registers with the Master and sends
-- it heartbeats: its calls. Durations are natural numbers, in a unit of the caller's choice.
pub mod Run
pub mod Backoff
pub mod Site
pub mod Known
pub mod Rounds
pub mod Accepted
use edge_shard_v.Shared.{
  ℕ, String, Bool, true, false, ◌==◌, not, Option, none, some, Result, Checked, ok, err, raise_if,
  Exception, StatusCode, invalid_argument, other_status, aio_rpc_error, os_error,
  worker_agent_error, master_unavailable, session_invalid, superseded, if◌then◌else◌,
}
use edge_shard_v.Shared.Exec.{Exec, lift, gets, ◌>>=◌, ◌>>◌}
use edge_shard_v.Cluster.Identity.{WorkerIdentity}
use edge_shard_v.Cluster.Capability.{WorkerCapability}
use edge_shard_v.Cluster.State.{WorkerState}
use edge_shard_v.Cluster.Snapshot.{Datetime}
use edge_shard_v.Master.Requests.{
  control_protocol_version, RejectionReason, unknown_worker, stale_session, instance_mismatch,
  out_of_order, reregister_required, RegisterWorkerRequest, check_register_worker_request,
  RegisterWorkerResponse, HeartbeatRequest, check_heartbeat_request, Verdict,
  UpdateCapabilityRequest, check_update_capability_request,
}
use edge_shard_v.Wire.Fields.{construct}
use edge_shard_v.Worker.Config.{ReconnectConfig}

pub record LocalInspection : Type 0 where
  pub identity : WorkerIdentity
  pub capability : WorkerCapability
  pub state : WorkerState

-- What the Agent is handed: its client, its inspector, its sleeper and its clock, over a state of
-- the world that they change; `is_stopping` reads the flag that `request_stop` sets.
pub record World (S : Type 0) : Type 0 where
  pub register_worker : RegisterWorkerRequest → Exec S RegisterWorkerResponse
  pub heartbeat : HeartbeatRequest → Exec S Verdict
  pub update_capability : UpdateCapabilityRequest → Exec S Verdict
  pub start : Exec S (Unit {0})
  pub inspect : Exec S LocalInspection
  pub close : Exec S (Unit {0})
  pub sleep : ℕ → Exec S (Unit {0})
  pub clock : Exec S Datetime
  pub is_stopping : S → Bool

pub record AgentConfig : Type 0 where
  pub reconnect : ReconnectConfig
  pub instance_id : String
  pub profiling_endpoint : Option String

-- `_Session`
pub record AgentSession : Type 0 where
  pub worker_id : String
  pub session_id : String
  pub heartbeat_interval : ℕ
  pub acknowledged_revision : String

-- `_raise_for_rejection`
unfoldable pub rejection_exception : Option RejectionReason → Exception
rejection_exception (some unknown_worker) = session_invalid
rejection_exception (some reregister_required) = session_invalid
rejection_exception (some stale_session) = superseded
rejection_exception (some instance_mismatch) = worker_agent_error
rejection_exception (some out_of_order) = worker_agent_error
rejection_exception none = worker_agent_error

-- The handlers of `_call`.
unfoldable pub call_exception : Exception → Exception
call_exception (aio_rpc_error invalid_argument) = worker_agent_error
call_exception (aio_rpc_error other_status) = master_unavailable
call_exception os_error = master_unavailable
call_exception x = x

abbrev translated : {A : Type 0} → Result A → Result A
translated (ok a) = ok a
translated (err x) = err (call_exception x)

-- `_call`
unfoldable pub call : {S A : Type 0} → Exec S A → Exec S A
unfolding call_exception
call method s = let (r, s') = method s in (translated r, s')

-- `if not response.accepted: _raise_for_rejection(...)`
unfoldable pub raise_for_rejection : Verdict → Checked
unfolding rejection_exception
raise_for_rejection v = raise_if (not v.accepted) (rejection_exception v.reason)

module _ {S : Type 0} (config : AgentConfig) (w : World S) where
  -- `_register`
  unfoldable pub register : Exec S AgentSession
  unfolding call
  register = do
    inspection ← w.inspect
    let request : RegisterWorkerRequest = record {
      protocol_version = control_protocol_version;
      instance_id = config.instance_id;
      identity = inspection.identity;
      capability = inspection.capability;
      initial_state = inspection.state;
      profiling_endpoint = config.profiling_endpoint;
    }
    request' ← lift (construct (check_register_worker_request request) request)
    response ← call (w.register_worker request')
    let session : AgentSession = record {
      worker_id = inspection.identity.worker_id;
      session_id = response.session_id;
      heartbeat_interval = response.heartbeat_interval_ms;
      acknowledged_revision = inspection.capability.capability_revision;
    }
    lift (ok session)

  -- `_update_capability`
  unfoldable pub update_capability : AgentSession → LocalInspection → Exec S (Unit {0})
  unfolding call raise_for_rejection
  update_capability session inspection = do
    let request : UpdateCapabilityRequest = record {
      worker_id = session.worker_id;
      instance_id = config.instance_id;
      session_id = session.session_id;
      capability = inspection.capability;
      state = inspection.state;
    }
    request' ← lift (construct (check_update_capability_request request) request)
    response ← call (w.update_capability request')
    lift (raise_for_rejection response)

  abbrev update_if_changed : Bool → AgentSession → LocalInspection → Exec S (Unit {0})
  update_if_changed true session inspection = lift (ok tt)
  update_if_changed false session inspection = update_capability session inspection

  -- The round of the heartbeat loop after its sleep.
  unfoldable pub beat : AgentSession → ℕ → Exec S AgentSession
  unfolding call raise_for_rejection update_capability
  beat session sequence = do
    inspection ← w.inspect
    let revision = inspection.capability.capability_revision
    update_if_changed (revision == session.acknowledged_revision) session inspection
    reported_at ← w.clock
    let request : HeartbeatRequest = record {
      worker_id = session.worker_id;
      instance_id = config.instance_id;
      session_id = session.session_id;
      sequence_number = sequence;
      capability_revision = revision;
      state = inspection.state;
      worker_reported_at = some reported_at;
    }
    request' ← lift (construct (check_heartbeat_request request) request)
    response ← call (w.heartbeat request')
    lift (raise_for_rejection response)
    lift (ok (record session { acknowledged_revision = revision }))
