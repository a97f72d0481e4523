-- ===== src/Master/Service/Heartbeats.antt =====
-- The acceptance rules of heartbeats and capability updates.
use edge_shard_v.Shared.{
  ◌<◌, ◌≡◌, ◌↔◌, true, none, some, ok, err, control_protocol_error, arith, eq_iff, is_ok,
  if◌then◌else◌, Option-cases, inl, inr,
}
use edge_shard_v.Shared.Dict.{get, put}
use edge_shard_v.Cluster.Snapshot.{validate_state_against_capability}
use edge_shard_v.Cluster.Revision.{Digest}
use edge_shard_v.Master.Requests.{
  HeartbeatRequest, check_heartbeat_request, UpdateCapabilityRequest,
  check_update_capability_request, check_verdict,
}
use edge_shard_v.Master.Registry.{WorkerRecord, upsert, check_worker_record, get_record}
use edge_shard_v.Master.Sessions.{
  Rejection, SessionInfo, check_heartbeat, check_session, record_accepted_sequence,
}
use edge_shard_v.Master.StateStore.{record_state}
use edge_shard_v.Master.Service.{
  Master, Clock, heartbeat, heartbeat_gate, check_state_consistency, accept, refuse,
  update_capability, check_capability_revision,
}
use edge_shard_v.Master.Service.Atomicity.{stored, admits}

-- The Master after an accepted heartbeat.
abbrev pub beaten : HeartbeatRequest → Clock → SessionInfo → Master → Master
beaten q now info m = record m {
  sessions =
      put q.worker_id (record info { last_accepted_sequence = q.sequence_number }) m.sessions;
  states = put q.worker_id (stored q.state now) m.states;
}

-- The session is the current one of the Worker and of its Agent process, the number advances, and
-- the reported revision is the stored one.
abbrev pub IsCurrent : HeartbeatRequest → SessionInfo → WorkerRecord → Master → Type 0
IsCurrent q info r m =
    (get q.worker_id m.sessions ≡ some info)
    × (get q.worker_id m.registry ≡ some r)
    × (info.session_id ≡ q.session_id)
    × (info.instance_id ≡ q.instance_id)
    × (info.last_accepted_sequence < q.sequence_number)
    × (r.capability.capability_revision ≡ q.capability_revision)

-- A heartbeat that a gate rejects is answered with the gate's reason and detail, and the Master is as
-- before: neither the number nor the state is taken.
pub heartbeat_refused :
    (m : Master) (q : HeartbeatRequest) (now : Clock) (r : Rejection)
    → heartbeat_gate q m ≡ some r
    → heartbeat q now m ≡ (ok (refuse r), m)
unfolding heartbeat check_verdict
heartbeat_refused m q now r g = ground arith

-- A current heartbeat that its constructor accepted, received at an aware wall clock, is accepted
-- exactly when its state fits the stored capability: then the number and the state of that Worker are
-- replaced, and nothing else. Otherwise a protocol error is raised and the Master is as before, the
-- number not consumed.
pub heartbeat_outcome :
    (m : Master) (q : HeartbeatRequest) (now : Clock) (info : SessionInfo) (r : WorkerRecord)
    → check_heartbeat_request q ≡ ok tt
    → now.wall.aware ≡ true
    → IsCurrent q info r m
    → heartbeat q now m ≡ (
        if is_ok (validate_state_against_capability q.state r.capability)
        then (ok accept, beaten q now info m)
        else (err control_protocol_error, m))
unfolding heartbeat check_heartbeat_request check_heartbeat record_accepted_sequence get_record
    record_state check_verdict check_state_consistency
heartbeat_outcome m q now info r w a c = ground (
  arith,
  eq_iff info.session_id q.session_id,
  eq_iff info.instance_id q.instance_id,
  eq_iff r.capability.capability_revision q.capability_revision,
  eq_iff q.worker_id q.state.worker_id,
  eq_iff q.state.worker_id q.worker_id,
)

-- The gates let a heartbeat pass exactly when it is current.
pub gate-IsCurrent :
    (m : Master) (q : HeartbeatRequest)
    → (heartbeat_gate q m ≡ none)
      ↔ ((info : SessionInfo) × (r : WorkerRecord) × IsCurrent q info r m)
unfolding heartbeat_gate check_heartbeat
gate-IsCurrent m q = (
  λ g. elim (Option-cases (get q.worker_id m.sessions)) [
    | inl e ↦ absurd (ground arith)
    | inr (info, e) ↦ elim (Option-cases (get q.worker_id m.registry)) [
      | inl f ↦ absurd (ground arith)
      | inr (r, f) ↦ (
        info,
        r,
        ground (
          arith,
          eq_iff info.session_id q.session_id,
          eq_iff info.instance_id q.instance_id,
          eq_iff r.capability.capability_revision q.capability_revision,
        ),
      )
    ]
  ],
  λ c.
      let (info, r, e) = c in
      ground (
        arith,
        eq_iff info.session_id q.session_id,
        eq_iff info.instance_id q.instance_id,
        eq_iff r.capability.capability_revision q.capability_revision,
      ),
)

-- The session of a capability update is the current one of the Worker and of its Agent process.
abbrev pub IsSession : UpdateCapabilityRequest → SessionInfo → Master → Type 0
IsSession q info m =
    (get q.worker_id m.sessions ≡ some info)
    × (info.session_id ≡ q.session_id)
    × (info.instance_id ≡ q.instance_id)

-- The Master after an accepted capability update of the Worker whose record is `r`.
abbrev pub updated : UpdateCapabilityRequest → Clock → WorkerRecord → Master → Master
updated q now r m = record m {
  registry = put r.identity.worker_id (record r { capability = q.capability }) m.registry;
  states = put q.worker_id (stored q.state now) m.states;
}

module _ (h : Digest) where
  -- A capability update under a session that is not current is refused and changes nothing.
  pub update_capability_refused :
      (m : Master) (q : UpdateCapabilityRequest) (now : Clock) (r : Rejection)
      → check_session q.worker_id q.instance_id q.session_id m.sessions ≡ some r
      → update_capability h q now m ≡ (ok (refuse r), m)
  unfolding update_capability check_verdict
  update_capability_refused m q now r g = ground arith

  -- A capability update under the current session, for a Worker whose record is well formed, either
  -- replaces the capability and the state together and keeps the profiling endpoint and the session,
  -- or raises a protocol error and changes nothing. It is applied exactly when the new revision
  -- fingerprints the new capability and the new state fits it.
  pub update_capability_outcome :
      (m : Master) (q : UpdateCapabilityRequest) (now : Clock) (info : SessionInfo)
      (r : WorkerRecord)
      → check_update_capability_request q ≡ ok tt
      → now.wall.aware ≡ true
      → IsSession q info m
      → get q.worker_id m.registry ≡ some r
      → check_worker_record r ≡ ok tt
      → update_capability h q now m ≡ (
          if admits h q.state q.capability
          then (ok accept, updated q now r m)
          else (err control_protocol_error, m))
  unfolding update_capability check_update_capability_request check_session get_record record_state
      check_verdict check_state_consistency check_capability_revision upsert check_worker_record
  update_capability_outcome m q now info r w a c g k = ground (
    arith,
    eq_iff info.session_id q.session_id,
    eq_iff info.instance_id q.instance_id,
    eq_iff q.worker_id q.state.worker_id,
    eq_iff q.state.worker_id q.worker_id,
  )
