-- ===== src/Worker/Ledger/Status.antt =====
-- Whether a session is known and closed, and what each method does to that.
use edge_shard_v.Shared.{
  String, ◌≡◌, Bool, true, false, ◌==◌, Option, none, some, arith, eq_iff, Option-cases, inl, inr,
  if◌then◌else◌,
}
use edge_shard_v.Shared.Dict.{get, get-put, opt_is_some}
use edge_shard_v.Cluster.Snapshot.{Datetime}
use edge_shard_v.Worker.Ledger.Records.{
  CaseState, CaseOutcome, ModelCleanup, ProfilingSessionRecord, Ledger,
}
use edge_shard_v.Worker.Ledger.{
  create_session, close_session, mark_running, decide_case, cancel_case,
}

abbrev pub shut : Option Bool → Option Bool
shut none = none
shut (some b) = some true

module _ {P R : Type 0} where
  abbrev pub is_shut : Option (ProfilingSessionRecord P R) → Option Bool
  is_shut none = none
  is_shut (some r) = some r.closed

  -- No session, or an open one, or a closed one.
  abbrev pub status : String → Ledger P R → Option Bool
  status i l = is_shut (get i l.sessions)

  pub status-create_session :
      (s : String) (request : P) (handle : Bool) (cleanup : Option ModelCleanup) (l : Ledger P R)
      (i : String)
      → status i (create_session s request handle cleanup l).1 ≡ (
          if s == i
          then (if opt_is_some (status i l) then status i l else some false)
          else status i l)
  unfolding create_session
  status-create_session s request handle cleanup l i = elim (Option-cases (get s l.sessions)) [
    | inl e ↦ grind (arith, e, get-put, eq_iff s i)
    | inr (r, e) ↦ ground (arith, e, eq_iff s i)
  ]

  pub status-close_session :
      (s : String) (l : Ledger P R) (i : String)
      → status i (close_session s l).1 ≡ (if s == i then shut (status i l) else status i l)
  unfolding close_session
  status-close_session s l i = elim (Option-cases (get s l.sessions)) [
    | inl e ↦ ground (arith, e, eq_iff s i)
    | inr (r, e) ↦ grind (arith, e, get-put, eq_iff s i)
  ]

  pub status-mark_running :
      (s c : String) (l : Ledger P R) (i : String) → status i (mark_running s c l).1 ≡ status i l
  unfolding mark_running
  status-mark_running s c l i = elim (Option-cases (get s l.sessions)) [
    | inl e ↦ ground (arith, e)
    | inr (r, e) ↦ grind (arith, e, get-put, eq_iff s i)
  ]

  pub status-decide_case :
      (s c : String) (state : CaseState) (outcome : CaseOutcome R) (now : Datetime) (l : Ledger P R)
      (i : String)
      → status i (decide_case s c state outcome now l).1 ≡ status i l
  unfolding decide_case
  status-decide_case s c state outcome now l i = elim (Option-cases (get s l.sessions)) [
    | inl e ↦ ground (arith, e)
    | inr (r, e) ↦ grind (arith, e, get-put, eq_iff s i)
  ]

  pub status-cancel_case :
      (s c : String) (now : Datetime) (l : Ledger P R) (i : String)
      → status i (cancel_case s c now l).1 ≡ status i l
  unfolding cancel_case
  status-cancel_case s c now l i = elim (Option-cases (get s l.sessions)) [
    | inl e ↦ ground (arith, e)
    | inr (r, e) ↦ grind (arith, e, get-put, eq_iff s i)
  ]
