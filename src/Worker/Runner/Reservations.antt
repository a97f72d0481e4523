-- ===== src/Worker/Runner/Reservations.antt =====
-- Where the reserved devices stand: behind an open session, a close that is under way, or the one
-- preparation under way.
use edge_shard_v.Shared.{
  Bool, String, ◌≡◌, ◌∙◌, true, false, ◌==◌, ◌||◌, Option, none, some, List, [], ◌∷◌, Result, ok,
  err, value_error, session_refused, arith, eq_iff, contains, Option-cases, Bool-cases, inl, inr,
  ◌⊎◌,
}
use edge_shard_v.Shared.Dict.{get}
use edge_shard_v.Cluster.Snapshot.{Datetime}
use edge_shard_v.Worker.Ledger.Records.{
  is_terminal, CaseOutcome, CaseLedgerEntry, RegistrationTokens, ProfilingSessionRecord, Ledger,
}
use edge_shard_v.Worker.Ledger.Status.{
  status, status-mark_running, status-decide_case, status-cancel_case,
}
use edge_shard_v.Worker.Leases.{Leases, held_by, release_session}
use edge_shard_v.Worker.Leases.Rollback.{get-roll_back}
use edge_shard_v.Worker.Runner.Requests.{
  is_network, kind_mismatch, ProfilingCase, Tokens, Prepared, RunRequest, Execution, Suspended,
  idle, inspecting, executing, Runner, Closer, closing, shutting, stopping,
}
use edge_shard_v.Worker.Runner.Cases.{
  holds_all, marked, dispatch, start_case, decided_run, cancelled_with, cancel_under, start_run,
  finish_run, cancel_profiling_case,
}

-- The session that the suspended preparation will open, and the one that it holds devices for.
abbrev pub pending : Suspended → Option String
pending idle = none
pending (inspecting q) = some q.profiling_session_id
pending (executing q) = some q.profiling_session_id

abbrev pub holding : Suspended → Option String
holding (executing q) = some q.profiling_session_id
holding _ = none

held_by-contains :
    (session : String) (m : Leases) (d : String)
    → get d m ≡ some session
    → contains (held_by session m) d ≡ true
unfolding held_by get
held_by-contains session [] d e = ground (arith, e)
held_by-contains session ((c, holder) ∷ m) d e = ground (
  arith,
  e,
  held_by-contains session m d,
  eq_iff c d,
  eq_iff holder session,
  eq_iff session session,
)

pub get-release_session :
    (session i d : String) (m : Leases)
    → get d (release_session session m).1 ≡ some i
    → (get d m ≡ some i) × ((session == i) ≡ false)
unfolding release_session
get-release_session session i d m e = ground (
  arith,
  e,
  get-roll_back (held_by session m) m d,
  held_by-contains session m d,
  eq_iff session i,
)

-- A coroutine has still to release this session's devices.
abbrev pub is_closing : String → List Closer → Bool
is_closing i [] = false
is_closing i (closing session r ∷ cs) = session == i || is_closing i cs
is_closing i (shutting session ids error r ∷ cs) = session == i || is_closing i cs
is_closing i (stopping error ∷ cs) = is_closing i cs

module _ {F R : Type 0} where
  -- The session is open, or a close of it is under way.
  abbrev pub IsBacked : Ledger (Prepared F) R → List Closer → String → Type 0
  IsBacked l cs i =
      (status i l ≡ some false) ⊎ ((status i l ≡ some true) × (is_closing i cs ≡ true))

  pub IsBacked-along :
      (l l' : Ledger (Prepared F) R) (cs cs' : List Closer) (i : String)
      → status i l' ≡ status i l
      → (is_closing i cs ≡ true → is_closing i cs' ≡ true)
      → IsBacked l cs i
      → IsBacked l' cs' i
  IsBacked-along l l' cs cs' i same f (inl o) = inl (same ∙ o)
  IsBacked-along l l' cs cs' i same f (inr (c, u)) = inr (same ∙ c, f u)

  -- Every reserved device belongs to an open session, to one whose close is under way, or to the one
  -- that is being prepared; and that one is not in the ledger yet.
  pub record Inv (runner : Runner F R) : Type 0 where
    pub backed :
        (d i : String)
        → get d runner.leases ≡ some i
        → IsBacked runner.ledger runner.closers i ⊎ (holding runner.preparing ≡ some i)
    pub fresh : (i : String) → pending runner.preparing ≡ some i → status i runner.ledger ≡ none

  -- A ledger in which every session stands as before.
  pub kept :
      (runner : Runner F R) (l : Ledger (Prepared F) R)
      → ((i : String) → status i l ≡ status i runner.ledger)
      → Inv runner
      → Inv (record runner { ledger = l })
  kept runner l same v = record {
    backed = λ d i e. elim (v.backed d i e) [
      | inl o ↦
          inl (IsBacked-along runner.ledger l runner.closers runner.closers i (same i) (λ u. u) o)
      | inr p ↦ inr p
    ];
    fresh = λ i e. same i ∙ v.fresh i e;
  }

  decided_run-Inv :
      (q : RunRequest) (outcome : CaseOutcome R)
      (o : Result (CaseLedgerEntry R) × Ledger (Prepared F) R) (runner : Runner F R)
      → ((i : String) → status i o.1 ≡ status i runner.ledger)
      → Inv runner
      → Inv (decided_run q outcome o runner).1
  unfolding decided_run
  decided_run-Inv q outcome (ok entry, l) runner same v = kept runner l same v
  decided_run-Inv q outcome (err value_error, l) runner same v = kept runner l same v
  decided_run-Inv q outcome (err x, l) runner same v = kept runner l same v

  pub finish_run-Inv :
      (q : RunRequest) (execution : Execution R) (now : Datetime) (runner : Runner F R)
      → Inv runner
      → Inv (finish_run q execution now runner).1
  unfolding finish_run
  finish_run-Inv q execution now runner v =
      decided_run-Inv q _ _ runner
        (status-decide_case q.profiling_session_id q.profiling_case.case_id _ _ now runner.ledger) v

  marked-Inv :
      (o : Result (Unit {0}) × Ledger (Prepared F) R) (runner : Runner F R)
      → ((i : String) → status i o.1 ≡ status i runner.ledger)
      → Inv runner
      → Inv (marked o runner).1
  unfolding marked
  marked-Inv (ok u, l) runner same v = kept runner l same v
  marked-Inv (err x, l) runner same v = kept runner l same v

  dispatch-Inv :
      (entry : Option (CaseLedgerEntry R)) (r : ProfilingSessionRecord (Prepared F) R)
      (session : String) (c : ProfilingCase) (runner : Runner F R)
      → Inv runner
      → Inv (dispatch entry r session c runner).1
  unfolding dispatch
  dispatch-Inv none r session c runner v =
      elim (Bool-cases
        (is_network r.request.kind || holds_all (held_by session runner.leases) c.spec)) [
          | inl e ↦
              rw e (marked-Inv _ runner (status-mark_running session c.case_id runner.ledger) v)
          | inr e ↦ rw e v
        ]
  dispatch-Inv (some entry) r session c runner v = elim (Bool-cases (is_terminal entry.state)) [
    | inl e ↦ elim (Option-cases entry.outcome) [ inl f ↦ rw (e, f) v | inr (o, f) ↦ rw (e, f) v ]
    | inr e ↦ rw e v
  ]

  start_case-Inv :
      (r : Result (ProfilingSessionRecord (Prepared F) R)) (q : RunRequest) (runner : Runner F R)
      → Inv runner
      → Inv (start_case r q runner).1
  unfolding start_case
  start_case-Inv (err (session_refused reason)) q runner v = v
  start_case-Inv (err x) q runner v = v
  start_case-Inv (ok r) q runner v =
      elim (Bool-cases (q.profiling_case.worker_id == q.tokens.worker_id)) [
        | inr e ↦ rw e v
        | inl e ↦ elim (Bool-cases (kind_mismatch r.request.kind q.profiling_case.spec)) [
          | inl f ↦ rw (e, f) v
          | inr f ↦ rw (e, f) (dispatch-Inv _ r q.profiling_session_id q.profiling_case runner v)
        ]
      ]

  pub start_run-Inv :
      (current : Option RegistrationTokens) (q : RunRequest) (runner : Runner F R)
      → Inv runner
      → Inv (start_run current q runner).1
  unfolding start_run
  start_run-Inv current q runner v = start_case-Inv _ q runner v

  cancelled_with-Inv :
      (o : Result (CaseLedgerEntry R) × Ledger (Prepared F) R) (runner : Runner F R)
      → ((i : String) → status i o.1 ≡ status i runner.ledger)
      → Inv runner
      → Inv (cancelled_with o runner).1
  unfolding cancelled_with
  cancelled_with-Inv (ok entry, l) runner same v = kept runner l same v
  cancelled_with-Inv (err x, l) runner same v = kept runner l same v

  cancel_under-Inv :
      (r : Result (ProfilingSessionRecord (Prepared F) R)) (session case_id : String)
      (now : Datetime) (runner : Runner F R)
      → Inv runner
      → Inv (cancel_under r session case_id now runner).1
  unfolding cancel_under
  cancel_under-Inv (err x) session case_id now runner v = v
  cancel_under-Inv (ok r) session case_id now runner v =
      cancelled_with-Inv _ runner (status-cancel_case session case_id now runner.ledger) v

  pub cancel_profiling_case-Inv :
      (current : Option RegistrationTokens) (tokens : Tokens) (session case_id : String)
      (now : Datetime) (runner : Runner F R)
      → Inv runner
      → Inv (cancel_profiling_case current tokens session case_id now runner).1
  unfolding cancel_profiling_case
  cancel_profiling_case-Inv current tokens session case_id now runner v =
      cancel_under-Inv _ session case_id now runner v
