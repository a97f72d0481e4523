-- ===== src/Examples/Master.antt =====
-- Registration, heartbeats and histories of one Worker.
use edge_shard_v.Shared.{
  ◌≡◌, ◌↔◌, refl, none, List, [], ◌∷◌, ok, err, control_protocol_error, if◌then◌else◌, is_ok, arith,
  eq_iff,
}
use edge_shard_v.Shared.Dict.{get, put}
use edge_shard_v.Cluster.Identity.{check_worker_identity}
use edge_shard_v.Cluster.Snapshot.{
  validate_state_against_capability, check_devices, check_pools, check_instances,
}
use edge_shard_v.Cluster.Revision.{compute_capability_revision}
use edge_shard_v.Cluster.Consistency.{IsConsistent, validate-IsConsistent}
use edge_shard_v.Master.Config.{default_config, check_master_config}
use edge_shard_v.Master.Requests.{
  check_register_worker_request, check_register_worker_response, check_heartbeat_request,
  check_update_capability_request, check_verdict, stale_session, text,
}
use edge_shard_v.Master.Registry.{WorkerRecord, check_worker_record, upsert, get_record}
use edge_shard_v.Master.Sessions.{
  Rejection, SessionInfo, new_session, open_session, check_heartbeat, record_accepted_sequence,
}
use edge_shard_v.Master.StateStore.{record_state}
use edge_shard_v.Master.Service.{
  init, register_worker, heartbeat, heartbeat_gate, update_capability, accept, refuse,
}
use edge_shard_v.Master.Service.Atomicity.{
  admits, registered, registration_response, register_worker_outcome,
}
use edge_shard_v.Master.Service.Heartbeats.{
  beaten, IsCurrent, heartbeat_outcome, gate-IsCurrent, updated, update_capability_outcome,
}
use edge_shard_v.Master.Service.Invariant.{Inv}
use edge_shard_v.Master.Traces.{Event, ticks, beats, registers, run, run-init-Inv}
use edge_shard_v.Master.Traces.Replays.{heartbeat_replay, superseded_session}
use edge_shard_v.Examples.Data.{
  digest, identity, capability, state, clock, registration, beat, update, master,
}

abbrev worker_record : WorkerRecord
worker_record = record { identity = identity; capability = capability; profiling_endpoint = none }

abbrev session : SessionInfo
session = new_session "w1" "i1" "s1"

-- A registration, a heartbeat and a tick.
abbrev history : List Event
history = registers registration "s1" (clock 0) ∷ beats (beat "s1" 1) (clock 1) ∷ ticks 2 ∷ []

run-init-Inv_example : Inv digest (run digest (init default_config) history)
unfolding check_master_config check_worker_identity check_register_worker_request
    check_heartbeat_request
run-init-Inv_example =
    run-init-Inv digest default_config history refl
      ((refl, refl, refl, refl), ((refl, refl), (tt, tt)))

heartbeat_replay_example :
    (r : Rejection) × (heartbeat
        (beat "s1" 1)
        (clock 3)
        (run digest (heartbeat (beat "s1" 1) (clock 1) master).1 (ticks 2 ∷ []))
      ≡ (ok (refuse r), run digest (heartbeat (beat "s1" 1) (clock 1) master).1 (ticks 2 ∷ [])))
unfolding check_heartbeat_request heartbeat register_worker get put upsert check_worker_record
    open_session record_state check_heartbeat record_accepted_sequence get_record check_verdict
    check_register_worker_response validate_state_against_capability check_devices check_pools
    check_instances compute_capability_revision
heartbeat_replay_example =
    heartbeat_replay digest master (beat "s1" 1) (clock 1) refl refl refl (ticks 2 ∷ []) (tt, tt)
      (beat "s1" 1) (clock 3) refl refl (omega arith)

superseded_session_example :
    heartbeat (beat "s0" 9) (clock 3) (run digest master (ticks 2 ∷ [])) ≡ (
      ok (refuse (record { reason = stale_session; detail = text "stale session" })),
      run digest master (ticks 2 ∷ []),
    )
unfolding check_heartbeat_request heartbeat register_worker get put upsert check_worker_record
    open_session new_session record_state check_heartbeat record_accepted_sequence get_record
    check_verdict check_register_worker_response validate_state_against_capability check_devices
    check_pools check_instances compute_capability_revision
superseded_session_example =
    superseded_session digest (init default_config) registration "s1" (clock 0)
      (registration_response "s1" (init default_config)) refl "s0"
      (λ e. ground (arith, e, eq_iff "s1" "s0")) (ticks 2 ∷ []) (tt, tt) (beat "s0" 9) (clock 3)
      refl refl

register_worker_outcome_example :
    register_worker digest registration "s1" (clock 0) (init default_config) ≡ (
      if admits digest state capability
      then (
        ok (registration_response "s1" (init default_config)),
        registered registration "s1" (clock 0) (init default_config),
      )
      else (err control_protocol_error, init default_config))
unfolding check_master_config check_worker_identity check_register_worker_request
register_worker_outcome_example =
    register_worker_outcome digest (init default_config) registration "s1" (clock 0) refl refl refl
      refl refl

heartbeat_outcome_example : heartbeat (beat "s1" 1) (clock 1) master ≡ (
    if is_ok (validate_state_against_capability state capability)
    then (ok accept, beaten (beat "s1" 1) (clock 1) session master)
    else (err control_protocol_error, master))
unfolding check_heartbeat_request heartbeat register_worker get put upsert check_worker_record
    open_session new_session record_state check_heartbeat record_accepted_sequence get_record
    check_verdict check_register_worker_response validate_state_against_capability check_devices
    check_pools check_instances compute_capability_revision
heartbeat_outcome_example =
    heartbeat_outcome master (beat "s1" 1) (clock 1) session worker_record refl refl
      (refl, refl, refl, refl, omega arith, refl)

gate-IsCurrent_example :
    (heartbeat_gate (beat "s1" 1) master ≡ none)
    ↔ ((info : SessionInfo) × (r : WorkerRecord) × IsCurrent (beat "s1" 1) info r master)
gate-IsCurrent_example = gate-IsCurrent master (beat "s1" 1)

update_capability_outcome_example : update_capability digest update (clock 2) master ≡ (
    if admits digest state capability
    then (ok accept, updated update (clock 2) worker_record master)
    else (err control_protocol_error, master))
unfolding check_update_capability_request heartbeat register_worker get put upsert
    check_worker_record open_session new_session record_state check_heartbeat
    record_accepted_sequence get_record check_verdict check_register_worker_response
    validate_state_against_capability check_devices check_pools check_instances
    compute_capability_revision
update_capability_outcome_example =
    update_capability_outcome digest master update (clock 2) session worker_record refl refl
      (refl, refl, refl) refl refl

validate-IsConsistent_example :
    (validate_state_against_capability state capability ≡ ok tt) ↔ IsConsistent state capability
validate-IsConsistent_example = validate-IsConsistent state capability
