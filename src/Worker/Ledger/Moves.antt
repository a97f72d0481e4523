-- ===== src/Worker/Ledger/Moves.antt =====
-- The abstract machine of the session manager: four moves, and every method makes at most one for
-- each session that it touches.
use edge_shard_v.Worker.Ledger.History.{
  Call, creates, closes, closes_all, starts, decides, cancels, apply, run,
}
use mathlib.Core.Path.{subst, sym}
use edge_shard_v.Shared.{
  String, ◌≡◌, refl, Bool, true, false, Option, none, some, List, [], ◌∷◌, Result, ok, err, arith,
  Option-cases, Bool-cases, inl, inr, Result-cases,
}
use edge_shard_v.Shared.Dict.{get, put, opt_is_some}
use edge_shard_v.Cluster.Snapshot.{Datetime}
use edge_shard_v.Worker.Ledger.Records.{
  CaseState, CaseOutcome, CaseLedgerEntry, ModelCleanup, ProfilingSessionRecord, Ledger,
  is_terminal, decided, cancellation, running,
}
use edge_shard_v.Worker.Ledger.{
  create_session, close_session, close_each, open_ids, answered, close_all, mark_running,
  decide_case, cancel_case,
}

-- A decided entry carries its outcome and its time, and an entry that is not decided carries neither.
abbrev pub Carries : {R : Type 0} → CaseLedgerEntry R → Type 0
Carries e =
    (opt_is_some e.outcome ≡ is_terminal e.state) × (opt_is_some e.decided_at ≡ is_terminal e.state)

-- The log after the cleanup of `s`, if there is one to call.
abbrev pub logged : Option ModelCleanup → String → List String → List String
logged none s log = log
logged (some _) s log = s ∷ log

-- A new session is open and has no case; an open session closes, which calls its cleanup and drops
-- it; an open session writes an entry over none, or over one that is not decided.
pub data Move (P R : Type 0) (l : Ledger P R) : Ledger P R → Type 0 where
  stay : {l' : Ledger P R} → l' ≡ l → Move P R l l'
  opened :
      {l' : Ledger P R} (s : String) (r : ProfilingSessionRecord P R)
      → get s l.sessions ≡ none
      → r.cases ≡ []
      → r.closed ≡ false
      → l' ≡ record l { sessions = put s r l.sessions }
      → Move P R l l'
  shut :
      {l' : Ledger P R} (s : String) (r : ProfilingSessionRecord P R)
      → get s l.sessions ≡ some r
      → r.closed ≡ false
      → l' ≡ record l {
        sessions =
            put s
              (record r { closed = true; model_cleanup = none; model_handle = false })
              l.sessions;
        cleaned = logged r.model_cleanup s l.cleaned;
      }
      → Move P R l l'
  wrote :
      {l' : Ledger P R} (s c : String) (r : ProfilingSessionRecord P R) (e : CaseLedgerEntry R)
      → get s l.sessions ≡ some r
      → r.closed ≡ false
      → decided (get c r.cases) ≡ false
      → Carries e
      → l' ≡ record l { sessions = put s (record r { cases = put c e r.cases }) l.sessions }
      → Move P R l l'

pub data Moves (P R : Type 0) (l : Ledger P R) : Ledger P R → Type 0 where
  here : {l' : Ledger P R} → l' ≡ l → Moves P R l l'
  then_move : {l' l'' : Ledger P R} → Moves P R l l' → Move P R l' l'' → Moves P R l l''

module _ {P R : Type 0} where
  create-Move :
      (s : String) (request : P) (handle : Bool) (cleanup : Option ModelCleanup) (l : Ledger P R)
      → Move P R l (create_session s request handle cleanup l).1
  unfolding create_session
  create-Move s request handle cleanup l = elim (Option-cases (get s l.sessions)) [
    | inr (r, e) ↦ stay (rw (e, create_session))
    | inl e ↦ opened s new e refl refl (rw (e, create_session))
  ]
    where
      new : ProfilingSessionRecord P R
      new = record {
        session_id = s;
        request = request;
        model_handle = handle;
        model_cleanup = cleanup;
        cases = [];
        closed = false;
      }

  pub close-Move : (s : String) (l : Ledger P R) → Move P R l (close_session s l).1
  unfolding close_session
  close-Move s l = elim (Option-cases (get s l.sessions)) [
    | inl e ↦ stay (rw (e, close_session))
    | inr (r, e) ↦ elim (Bool-cases r.closed) [
      | inl c ↦ stay (ground arith)
      | inr o ↦ shut s r e o (ground arith)
    ]
  ]

  mark-Move : (s c : String) (l : Ledger P R) → Move P R l (mark_running s c l).1
  unfolding mark_running
  mark-Move s c l = elim (Option-cases (get s l.sessions)) [
    | inl e ↦ stay (ground arith)
    | inr (r, e) ↦ elim (Bool-cases r.closed) [
      | inl gone ↦ stay (ground arith)
      | inr o ↦ elim (Bool-cases (decided (get c r.cases))) [
        | inl d ↦ stay (ground arith)
        | inr u ↦
            wrote s c r (record { state = running; outcome = none; decided_at = none }) e o u
              (refl, refl) (ground arith)
      ]
    ]
  ]

  decide-Move :
      (s c : String) (state : CaseState) (outcome : CaseOutcome R) (now : Datetime) (l : Ledger P R)
      → Move P R l (decide_case s c state outcome now l).1
  unfolding decide_case
  decide-Move s c state outcome now l = elim (Option-cases (get s l.sessions)) [
    | inl e ↦ stay (ground arith)
    | inr (r, e) ↦ elim (Bool-cases r.closed) [
      | inl gone ↦ stay (ground arith)
      | inr o ↦ elim (Bool-cases (decided (get c r.cases))) [
        | inl d ↦ stay (ground arith)
        | inr u ↦ elim (Bool-cases (is_terminal state)) [
          | inr n ↦ stay (ground arith)
          | inl t ↦
              wrote s c r (record { state = state; outcome = some outcome; decided_at = some now })
                e o u (rw t refl, rw t refl) (ground arith)
        ]
      ]
    ]
  ]

  cancel-Move :
      (s c : String) (now : Datetime) (l : Ledger P R) → Move P R l (cancel_case s c now l).1
  unfolding cancel_case cancellation
  cancel-Move s c now l = elim (Option-cases (get s l.sessions)) [
    | inl e ↦ stay (ground arith)
    | inr (r, e) ↦ elim (Bool-cases r.closed) [
      | inl gone ↦ stay (ground arith)
      | inr o ↦ elim (Bool-cases (decided (get c r.cases))) [
        | inl d ↦ stay (ground arith)
        | inr u ↦ wrote s c r (cancellation s c now) e o u (refl, refl) (ground arith)
      ]
    ]
  ]

  close_each-Moves :
      (ids : List String) (l l' : Ledger P R) → Moves P R l l' → Moves P R l (close_each ids l').1
  unfolding close_each
  close_each-Moves [] l l' h = h
  close_each-Moves (i ∷ ids) l l' h =
      let step = close-Move i l' in
      elim (Result-cases (close_session i l').0) [
        | inl (b, e) ↦
            rw (e, close_each) (close_each-Moves ids l (close_session i l').1 (then_move h step))
        | inr (x, e) ↦ rw (e, close_each) (then_move h step)
      ]

  close_all-Moves : (l l' : Ledger P R) → Moves P R l l' → Moves P R l (close_all l').1
  unfolding close_all
  close_all-Moves l l' h =
      subst (Moves P R l)
        (answered_state (open_ids l'.sessions) (close_each (open_ids l'.sessions) l'))
        (close_each-Moves (open_ids l'.sessions) l l' h)
    where
      answered_state :
          (ids : List String) (o : Result (Unit {0}) × Ledger P R) → o.1 ≡ (answered ids o).1
      answered_state ids (ok u, k) = refl
      answered_state ids (err e, k) = refl

  -- Every call of the session manager makes moves, and only these.
  pub apply-Moves : (l l' : Ledger P R) (x : Call P R) → Moves P R l l' → Moves P R l (apply l' x)
  unfolding apply
  apply-Moves l l' (creates s request handle cleanup) h =
      then_move h (create-Move s request handle cleanup l')
  apply-Moves l l' (closes s) h = then_move h (close-Move s l')
  apply-Moves l l' closes_all h = close_all-Moves l l' h
  apply-Moves l l' (starts s c) h = then_move h (mark-Move s c l')
  apply-Moves l l' (decides s c state outcome now) h =
      then_move h (decide-Move s c state outcome now l')
  apply-Moves l l' (cancels s c now) h = then_move h (cancel-Move s c now l')

  run-Moves_from :
      (l l' : Ledger P R) (xs : List (Call P R)) → Moves P R l l' → Moves P R l (run l' xs)
  unfolding run
  run-Moves_from l l' [] h = h
  run-Moves_from l l' (x ∷ xs) h = run-Moves_from l (apply l' x) xs (apply-Moves l l' x h)

  -- Any sequence of calls, whatever each of them answers or raises, is a path of the abstract machine:
  -- a session is opened under a new id, an open session closes, and an open session writes an entry
  -- over none or over an undecided one.
  pub run-Moves : (l : Ledger P R) (xs : List (Call P R)) → Moves P R l (run l xs)
  run-Moves l xs = run-Moves_from l l xs (here refl)

  -- What every move keeps, every path keeps.
  pub Moves_keep :
      (Q : Ledger P R → Type 0)
      → ((l l' : Ledger P R) → Move P R l l' → Q l → Q l')
      → {l l' : Ledger P R} → Moves P R l l'
      → Q l
      → Q l'
  Moves_keep Q keep (here e) q = subst Q (sym e) q
  Moves_keep Q keep (then_move {l' = k} {l'' = k'} h m) q = keep k k' m (Moves_keep Q keep h q)
