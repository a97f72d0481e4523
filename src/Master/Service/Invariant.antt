-- ===== src/Master/Service/Invariant.antt =====
-- The Master's invariant: the registry, the sessions and the state store know the same Workers, and
-- what they hold of one Worker fits together. Every handler keeps it, whatever it answers.
use edge_shard_v.Shared.{
  ℕ, String, ◌≡◌, refl, true, false, Option, none, some, ok, arith, eq_iff, is_empty, is_ok,
  Bool-cases, Option-cases, inl, inr,
}
use edge_shard_v.Shared.Dict.{get, keys, get-put, Distinct, put-Distinct}
use edge_shard_v.Cluster.Identity.{check_worker_identity}
use edge_shard_v.Cluster.Snapshot.{validate_state_against_capability}
use edge_shard_v.Cluster.Revision.{Digest, compute_capability_revision}
use edge_shard_v.Master.Config.{MasterConfig, check_master_config}
use edge_shard_v.Master.Requests.{
  RegisterWorkerRequest, check_register_worker_request, HeartbeatRequest, check_heartbeat_request,
  UpdateCapabilityRequest, check_update_capability_request,
}
use edge_shard_v.Master.Registry.{WorkerRecord, check_worker_record}
use edge_shard_v.Master.Sessions.{SessionInfo, new_session, check_session}
use edge_shard_v.Master.StateStore.{StoredState}
use edge_shard_v.Master.Service.{
  Master, Clock, init, register_worker, heartbeat, heartbeat_gate, update_capability, tick,
}
use edge_shard_v.Master.Service.Atomicity.{admits, registered, register_worker_outcome}
use edge_shard_v.Master.Service.Heartbeats.{
  IsCurrent, IsSession, beaten, updated, heartbeat_refused, heartbeat_outcome,
  update_capability_refused, gate-IsCurrent, update_capability_outcome,
}

module _ (h : Digest) where
  -- What the three components hold of the Worker `i`.
  abbrev pub Agree : String → Option WorkerRecord → Option SessionInfo → Option StoredState → Type 0
  Agree i none none none = Unit
  Agree i (some r) (some s) (some e) =
      (r.identity.worker_id ≡ i)
      × (e.state.worker_id ≡ i)
      × (is_empty s.session_id ≡ false)
      × (e.received_wall.aware ≡ true)
      × (check_worker_record r ≡ ok tt)
      × (r.capability.capability_revision ≡ compute_capability_revision h r.capability)
      × (validate_state_against_capability e.state r.capability ≡ ok tt)
  Agree i _ _ _ = ⊥

  pub record Inv (m : Master) : Type 0 where
    pub config_valid : check_master_config m.config ≡ ok tt
    pub agree : (i : String) → Agree i (get i m.registry) (get i m.sessions) (get i m.states)
    pub one_record : Distinct m.registry
    pub one_session : Distinct m.sessions
    pub one_state : Distinct m.states

  pub init-Inv : (c : MasterConfig) → check_master_config c ≡ ok tt → Inv (init c)
  unfolding get keys
  init-Inv c v = record {
    config_valid = v;
    agree = λ i. tt;
    one_record = refl;
    one_session = refl;
    one_state = refl;
  }

  registered-Inv :
      (m : Master) (q : RegisterWorkerRequest) (fresh : String) (now : Clock)
      → Inv m
      → check_worker_identity q.identity ≡ ok tt
      → check_register_worker_request q ≡ ok tt
      → is_empty fresh ≡ false
      → now.wall.aware ≡ true
      → admits h q.initial_state q.capability ≡ true
      → Inv (registered q fresh now m)
  unfolding check_register_worker_request check_worker_record new_session check_worker_identity
  registered-Inv m q fresh now v n w f a k = record {
    config_valid = v.config_valid;
    agree = λ i. simp get-put (
        ground (
          arith,
          v.agree i,
          eq_iff q.identity.worker_id i,
          eq_iff q.identity.worker_id q.initial_state.worker_id,
          eq_iff q.capability.capability_revision (compute_capability_revision h q.capability),
        ));
    one_record = put-Distinct q.identity.worker_id _ m.registry v.one_record;
    one_session = put-Distinct q.identity.worker_id _ m.sessions v.one_session;
    one_state = put-Distinct q.identity.worker_id _ m.states v.one_state;
  }

  beaten-Inv :
      (m : Master) (q : HeartbeatRequest) (now : Clock) (info : SessionInfo) (r : WorkerRecord)
      → Inv m
      → check_heartbeat_request q ≡ ok tt
      → now.wall.aware ≡ true
      → IsCurrent q info r m
      → is_ok (validate_state_against_capability q.state r.capability) ≡ true
      → Inv (beaten q now info m)
  unfolding check_heartbeat_request
  beaten-Inv m q now info r v w a c k = record {
    config_valid = v.config_valid;
    agree = λ i.
        simp get-put
          (ground (arith, v.agree i, eq_iff q.worker_id i, eq_iff q.worker_id q.state.worker_id));
    one_record = v.one_record;
    one_session = put-Distinct q.worker_id _ m.sessions v.one_session;
    one_state = put-Distinct q.worker_id _ m.states v.one_state;
  }

  updated-Inv :
      (m : Master) (q : UpdateCapabilityRequest) (now : Clock) (info : SessionInfo)
      (r : WorkerRecord)
      → Inv m
      → check_update_capability_request q ≡ ok tt
      → now.wall.aware ≡ true
      → IsSession q info m
      → get q.worker_id m.registry ≡ some r
      → admits h q.state q.capability ≡ true
      → Inv (updated q now r m)
  unfolding check_update_capability_request check_worker_record
  updated-Inv m q now info r v w a c g k = record {
    config_valid = v.config_valid;
    agree = λ i. simp get-put (
        ground (
          arith,
          v.agree i,
          v.agree q.worker_id,
          eq_iff r.identity.worker_id i,
          eq_iff q.worker_id i,
          eq_iff q.worker_id q.state.worker_id,
          eq_iff q.capability.capability_revision (compute_capability_revision h q.capability),
        ));
    one_record = put-Distinct r.identity.worker_id _ m.registry v.one_record;
    one_session = v.one_session;
    one_state = put-Distinct q.worker_id _ m.states v.one_state;
  }

  -- Whatever a registration answers, the invariant holds afterwards. The request was accepted by its
  -- constructor, the session factory returns a text that is not empty, and the wall clock carries its
  -- UTC offset.
  pub register_worker-Inv :
      (m : Master) (q : RegisterWorkerRequest) (fresh : String) (now : Clock)
      → Inv m
      → check_worker_identity q.identity ≡ ok tt
      → check_register_worker_request q ≡ ok tt
      → is_empty fresh ≡ false
      → now.wall.aware ≡ true
      → Inv (register_worker h q fresh now m).1
  register_worker-Inv m q fresh now v n w f a =
      rw (register_worker_outcome h m q fresh now v.config_valid n w f a)
        (elim (Bool-cases (admits h q.initial_state q.capability)) [
          | inl e ↦ rw e (registered-Inv m q fresh now v n w f a e)
          | inr e ↦ rw e v
        ])

  -- Whatever a heartbeat answers, the invariant holds afterwards.
  pub heartbeat-Inv :
      (m : Master) (q : HeartbeatRequest) (now : Clock)
      → Inv m
      → check_heartbeat_request q ≡ ok tt
      → now.wall.aware ≡ true
      → Inv (heartbeat q now m).1
  heartbeat-Inv m q now v w a = elim (Option-cases (heartbeat_gate q m)) [
    | inr (r, e) ↦ rw (heartbeat_refused m q now r e) v
    | inl e ↦
        let (info, r, c) = (gate-IsCurrent m q).0 e in
        rw (heartbeat_outcome m q now info r w a c)
          (elim (Bool-cases (is_ok (validate_state_against_capability q.state r.capability))) [
            | inl k ↦ rw k (beaten-Inv m q now info r v w a c k)
            | inr k ↦ rw k v
          ])
  ]

  check_session-IsSession :
      (m : Master) (q : UpdateCapabilityRequest)
      → check_session q.worker_id q.instance_id q.session_id m.sessions ≡ none
      → (info : SessionInfo) × IsSession q info m
  unfolding check_session
  check_session-IsSession m q e = elim (Option-cases (get q.worker_id m.sessions)) [
    | inl f ↦ absurd (ground arith)
    | inr (info, f) ↦ (
      info,
      ground (arith, eq_iff info.session_id q.session_id, eq_iff info.instance_id q.instance_id),
    )
  ]

  record_of_session :
      (m : Master) (q : UpdateCapabilityRequest) (info : SessionInfo)
      → Inv m
      → IsSession q info m
      → (r : WorkerRecord) × (get q.worker_id m.registry ≡ some r) × (check_worker_record r ≡ ok tt)
  record_of_session m q info v c = elim (Option-cases (get q.worker_id m.registry)) [
    | inl f ↦ absurd (ground (arith, v.agree q.worker_id))
    | inr (r, f) ↦ (r, f, ground (arith, v.agree q.worker_id))
  ]

  -- Whatever a capability update answers, the invariant holds afterwards.
  pub update_capability-Inv :
      (m : Master) (q : UpdateCapabilityRequest) (now : Clock)
      → Inv m
      → check_update_capability_request q ≡ ok tt
      → now.wall.aware ≡ true
      → Inv (update_capability h q now m).1
  update_capability-Inv m q now v w a =
      elim (Option-cases (check_session q.worker_id q.instance_id q.session_id m.sessions)) [
        | inr (r, e) ↦ rw (update_capability_refused h m q now r e) v
        | inl e ↦
            let (info, c) = check_session-IsSession m q e in
            let (r, g, k) = record_of_session m q info v c in
            rw (update_capability_outcome h m q now info r w a c g k)
              (elim (Bool-cases (admits h q.state q.capability)) [
                | inl b ↦ rw b (updated-Inv m q now info r v w a c g b)
                | inr b ↦ rw b v
              ])
      ]

  pub tick-Inv : (m : Master) (now : ℕ) → Inv m → Inv (tick now m).0
  unfolding tick
  tick-Inv m now v = record {
    config_valid = v.config_valid;
    agree = v.agree;
    one_record = v.one_record;
    one_session = v.one_session;
    one_state = v.one_state;
  }
