-- ===== src/Master/Traces/Spent.antt =====
-- How far a session of a Worker is used up, which no later request takes back.
use edge_shard_v.Shared.{
  ◌⊎◌, ℕ, ◌≤◌, String, ◌≡◌, ◌≢◌, some, List, [], ◌∷◌, ok, All, arith, eq_iff, Option-cases,
  Bool-cases, inl, inr, ◌==◌,
}
use edge_shard_v.Shared.Dict.{get, get-put}
use edge_shard_v.Cluster.Revision.{Digest}
use edge_shard_v.Master.Requests.{HeartbeatRequest, RegisterWorkerRequest, UpdateCapabilityRequest}
use edge_shard_v.Master.Sessions.{
  SessionInfo, Sessions, new_session, open_session, record_accepted_sequence,
}
use edge_shard_v.Master.Service.{Master, Clock, register_worker, heartbeat, update_capability, tick}
use edge_shard_v.Master.Traces.{Event, registers, beats, updates, ticks, apply, run}

-- No later registration is awarded the session id `s`.
abbrev pub Avoids : String → Event → Type 0
Avoids s (registers q fresh now) = fresh ≢ s
Avoids s _ = Unit

-- The Worker `w` has a session, and if it is `s` then `n` or more has been accepted in it.
abbrev pub Spent : String → String → ℕ → Sessions → Type 0
Spent w s n m =
    (b : SessionInfo) × (get w m ≡ some b) × (b.session_id ≡ s → n ≤ b.last_accepted_sequence)

module _ (w s : String) (n : ℕ) where
  open_session-Spent :
      (i a fresh : String) (m m' : Sessions)
      → fresh ≢ s
      → open_session i a fresh m ≡ ok m'
      → Spent w s n m
      → Spent w s n m'
  unfolding open_session new_session
  open_session-Spent i a fresh m m' ne e (b, g, k) = elim (Bool-cases (i == w)) [
    | inl same ↦ (
      new_session i a fresh,
      ground (arith, get-put i w (new_session i a fresh) m),
      λ x. absurd (ne x),
    )
    | inr other ↦ (b, ground (arith, get-put i w (new_session i a fresh) m), k)
  ]

  record_accepted-Spent :
      (i : String) (sequence : ℕ) (m m' : Sessions)
      → record_accepted_sequence i sequence m ≡ ok m'
      → Spent w s n m
      → Spent w s n m'
  unfolding record_accepted_sequence
  record_accepted-Spent i sequence m m' e (b, g, k) = elim (Option-cases (get i m)) [
    | inl gone ↦ absurd (ground arith)
    | inr (c, f) ↦
        let c' : SessionInfo = record c { last_accepted_sequence = sequence } in
        elim (Bool-cases (i == w)) [
          | inl same ↦ (
            c',
            ground (arith, get-put i w c' m),
            λ x. ground (arith, eq_iff i w, k (ground (arith, eq_iff i w))),
          )
          | inr other ↦ (b, ground (arith, get-put i w c' m), k)
        ]
  ]

register_sessions :
    (h : Digest) (q : RegisterWorkerRequest) (fresh : String) (now : Clock) (m : Master)
    → let m' = (register_worker h q fresh now m).1 in
      (m'.sessions ≡ m.sessions)
      ⊎ (open_session q.identity.worker_id q.instance_id fresh m.sessions ≡ ok m'.sessions)
unfolding register_worker
register_sessions h q fresh now m = ground arith

heartbeat_sessions :
    (q : HeartbeatRequest) (now : Clock) (m : Master)
    → let m' = (heartbeat q now m).1 in
      (m'.sessions ≡ m.sessions)
      ⊎ (record_accepted_sequence q.worker_id q.sequence_number m.sessions ≡ ok m'.sessions)
unfolding heartbeat
heartbeat_sessions q now m = ground arith

update_capability_sessions :
    (h : Digest) (q : UpdateCapabilityRequest) (now : Clock) (m : Master)
    → (update_capability h q now m).1.sessions ≡ m.sessions
unfolding update_capability
update_capability_sessions h q now m = ground arith

module _ (h : Digest) (w s : String) (n : ℕ) where
  apply-Spent :
      (m : Master) (e : Event)
      → Avoids s e
      → Spent w s n m.sessions
      → Spent w s n (apply h m e).sessions
  unfolding apply tick
  apply-Spent m (registers q fresh now) ne p = elim (register_sessions h q fresh now m) [
    | inl same ↦ rw same p
    | inr opened ↦
        open_session-Spent w s n q.identity.worker_id q.instance_id fresh m.sessions _ ne opened p
  ]
  apply-Spent m (beats q now) _ p = elim (heartbeat_sessions q now m) [
    | inl same ↦ rw same p
    | inr moved ↦ record_accepted-Spent w s n q.worker_id q.sequence_number m.sessions _ moved p
  ]
  apply-Spent m (updates q now) _ p = rw (update_capability_sessions h q now m) p
  apply-Spent m (ticks now) _ p = p

  pub run-Spent :
      (m : Master) (es : List Event)
      → All (Avoids s) es
      → Spent w s n m.sessions
      → Spent w s n (run h m es).sessions
  unfolding run
  run-Spent m [] a p = p
  run-Spent m (e ∷ es) a p = run-Spent (apply h m e) es a.1 (apply-Spent m e a.0 p)
