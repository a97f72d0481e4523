-- ===== src/Master/Traces/Replays.antt =====
-- A heartbeat is accepted at most once, and a superseded session never comes back.
use native.Mathlib.Nat.{le_trans}
use edge_shard_v.Shared.{
  ==_refl, ==_of_ne, ◌+◌, ℕ, ◌≤◌, String, ◌≡◌, ◌≢◌, sym, true, List, ok, All, arith, eq_iff,
  Option-cases, inl, inr, ap, ◌∙◌,
}
use edge_shard_v.Shared.Dict.{get-put}
use edge_shard_v.Cluster.Revision.{Digest}
use edge_shard_v.Master.Service.Heartbeats.{heartbeat_refused, heartbeat_outcome, gate-IsCurrent}
use edge_shard_v.Master.Requests.{
  check_heartbeat_request, check_verdict, RegisterWorkerResponse, stale_session, text,
  HeartbeatRequest, RegisterWorkerRequest,
}
use edge_shard_v.Master.Sessions.{
  SessionInfo, Rejection, check_heartbeat, new_session, open_session,
}
use edge_shard_v.Master.Service.{
  Master, Clock, register_worker, heartbeat, heartbeat_gate, refuse, accept,
}
use edge_shard_v.Master.Traces.{Event, run}
use edge_shard_v.Master.Traces.Spent.{Avoids, Spent, run-Spent}

-- Where its session is spent up to its number, a heartbeat is refused and changes nothing.
Spent-refuses :
    (m : Master) (q : HeartbeatRequest) (now : Clock)
    → Spent q.worker_id q.session_id q.sequence_number m.sessions
    → (r : Rejection) × (heartbeat q now m ≡ (ok (refuse r), m))
unfolding heartbeat check_heartbeat check_verdict
Spent-refuses m q now (b, g, k) = elim (Option-cases (heartbeat_gate q m)) [
  | inl e ↦ absurd (ground (arith, eq_iff b.session_id q.session_id))
  | inr (r, e) ↦ (r, ground arith)
]

accepted-Spent :
    (m : Master) (q : HeartbeatRequest) (now : Clock)
    → check_heartbeat_request q ≡ ok tt
    → now.wall.aware ≡ true
    → (heartbeat q now m).0 ≡ ok accept
    → Spent q.worker_id q.session_id q.sequence_number (heartbeat q now m).1.sessions
accepted-Spent m q now w a e = elim (Option-cases (heartbeat_gate q m)) [
  | inr (r, g) ↦ absurd (cc (e, heartbeat_refused m q now r g))
  | inl g ↦
      let (info, r, c) = (gate-IsCurrent m q).0 g in
      let info' : SessionInfo = record info { last_accepted_sequence = q.sequence_number } in
      (
        info',
        ground (
          arith,
          heartbeat_outcome m q now info r w a c,
          get-put q.worker_id q.worker_id info' m.sessions,
          ==_refl q.worker_id,
        ),
        λ _. omega arith,
      )
]

-- A heartbeat is accepted at most once. After an accepted one, whatever happens next, as long as no
-- registration is awarded the same session id again, every heartbeat of that Worker in that session
-- with the same number or a smaller one is refused and changes nothing.
pub heartbeat_replay :
    (h : Digest) (m : Master) (q : HeartbeatRequest) (now : Clock)
    → check_heartbeat_request q ≡ ok tt
    → now.wall.aware ≡ true
    → (heartbeat q now m).0 ≡ ok accept
    → (es : List Event) → All (Avoids q.session_id) es
    → (q' : HeartbeatRequest) (later : Clock) → q'.worker_id ≡ q.worker_id
    → q'.session_id ≡ q.session_id
    → q'.sequence_number ≤ q.sequence_number
    → let m' = run h (heartbeat q now m).1 es in
      (r : Rejection) × (heartbeat q' later m' ≡ (ok (refuse r), m'))
heartbeat_replay h m q now w a e es avoid q' later same_worker same_session le =
    let (b, g, k) =
      run-Spent h q.worker_id q.session_id q.sequence_number (heartbeat q now m).1 es avoid
        (accepted-Spent m q now w a e) in
    Spent-refuses (run h (heartbeat q now m).1 es) q' later
      (b, rw same_worker g, λ x. le_trans le (k (x ∙ same_session)))

-- Where a session is spent up to every number, it is not the current one.
stale_refused :
    (m : Master) (q : HeartbeatRequest) (now : Clock)
    → ((n : ℕ) → Spent q.worker_id q.session_id n m.sessions)
    → heartbeat q now m
      ≡ (ok (refuse (record { reason = stale_session; detail = text "stale session" })), m)
unfolding heartbeat check_heartbeat check_verdict
stale_refused m q now spent =
    let (b, g, k) = spent 0 in
    let (c, g', k') = spent (b.last_accepted_sequence + 1) in
    let same : b ≡ c = cc (g, g') in
    let ne : b.session_id ≢ q.session_id = λ x. absurd (
      omega (
        arith,
        k' (sym (ap (λ (y : SessionInfo). y.session_id) same) ∙ x),
        ap (λ (y : SessionInfo). y.last_accepted_sequence) same,
      )) in
    ground (arith, ==_of_ne b.session_id q.session_id ne)

awarded-Spent :
    (h : Digest) (m : Master) (q : RegisterWorkerRequest) (fresh : String) (now : Clock)
    → (answer : RegisterWorkerResponse) (s : String) (n : ℕ)
    → (register_worker h q fresh now m).0 ≡ ok answer
    → fresh ≢ s
    → Spent q.identity.worker_id s n (register_worker h q fresh now m).1.sessions
unfolding register_worker open_session new_session
awarded-Spent h m q fresh now answer s n e ne =
    let w = q.identity.worker_id in
    let info = new_session w q.instance_id fresh in
    (info, ground (arith, get-put w w info m.sessions, ==_refl w), λ x. absurd (ne x))

-- A registration supersedes every earlier session of its Worker for good. After it succeeds with the
-- id `fresh`, whatever happens next, a heartbeat of that Worker in another session `s` that no later
-- registration is awarded is refused as stale and changes nothing.
pub superseded_session :
    (h : Digest) (m : Master) (q : RegisterWorkerRequest) (fresh : String) (now : Clock)
    → (answer : RegisterWorkerResponse) → (register_worker h q fresh now m).0 ≡ ok answer
    → (s : String) → fresh ≢ s
    → (es : List Event) → All (Avoids s) es
    → (q' : HeartbeatRequest) (later : Clock) → q'.worker_id ≡ q.identity.worker_id
    → q'.session_id ≡ s
    → let m' = run h (register_worker h q fresh now m).1 es in
      heartbeat q' later m'
      ≡ (ok (refuse (record { reason = stale_session; detail = text "stale session" })), m')
superseded_session h m q fresh now answer e s ne es avoid q' later same_worker same_session =
    stale_refused (run h (register_worker h q fresh now m).1 es) q' later (λ n.
      rw (same_worker, same_session)
        (run-Spent h q.identity.worker_id s n _ es avoid
          (awarded-Spent h m q fresh now answer s n e ne)))
