-- ===== src/Worker/Ledger.antt =====
-- src/edgeshard/control/worker/profiling_sessions.py: the prepared profiling sessions of a Worker,
-- each with the ledger of its cases. What a session carries for its cases (request, capability,
-- telemetry sources, facts) is opaque to this module: a type `P`. So is a measurement: a type `R`.
pub mod Records
pub mod History
pub mod Moves
pub mod Status
pub mod Forward
pub mod Cleanup
use edge_shard_v.Shared.{
  ℕ, String, Bool, true, false, ◌==◌, not, ◌||◌, Option, none, some, List, [], ◌∷◌, ◌++◌, Result,
  Checked, ok, err, value_error, callback_error, session_refused, ProfilingRejection,
  unknown_session, stale_session, session_closed, raise_if, ◌>>=◌, ◌>>◌, length, if◌then◌else◌,
}
use edge_shard_v.Shared.Dict.{Dict, get, put, keys, opt_is_some}
use edge_shard_v.Cluster.Snapshot.{Datetime}
use Records.{
  RegistrationTokens, CaseState, is_terminal, running, CaseOutcome, CaseLedgerEntry, ModelCleanup,
  returns, raises, ProfilingSessionRecord, Ledger, decided, cancellation,
}

module _ {P R : Type 0} where
  abbrev pub empty : Ledger P R
  empty = record { sessions = []; cleaned = [] }

  unfoldable pub session_ids : Ledger P R → List String
  session_ids l = keys l.sessions

  abbrev count_open : Dict (ProfilingSessionRecord P R) → ℕ
  count_open [] = 0
  count_open ((_, r) ∷ m) =
      let rest = count_open m in if r.closed then rest else Prim.Native.Nat.suc rest

  unfoldable pub open_session_count : Ledger P R → ℕ
  open_session_count l = count_open l.sessions

  unfoldable pub create_session :
      String → P → Bool → Option ModelCleanup → Ledger P R → Result (Unit {0}) × Ledger P R
  create_session session request handle cleanup l =
      if opt_is_some (get session l.sessions) then (err value_error, l) else (
        ok tt,
        record l {
          sessions =
              put session
                (record {
                  session_id = session;
                  request = request;
                  model_handle = handle;
                  model_cleanup = cleanup;
                  cases = [];
                  closed = false;
                })
                l.sessions;
        },
      )

  abbrev open_or_refused : Option (ProfilingSessionRecord P R) → Result (ProfilingSessionRecord P R)
  open_or_refused none = err (session_refused unknown_session)
  open_or_refused (some r) = if r.closed then err (session_refused session_closed) else ok r

  unfoldable pub require_open_session : String → Ledger P R → Result (ProfilingSessionRecord P R)
  require_open_session session l = open_or_refused (get session l.sessions)

  abbrev run_cleanup : Option ModelCleanup → String → Ledger P R → Result Bool × Ledger P R
  run_cleanup none session l = (ok true, l)
  run_cleanup (some returns) session l = (ok true, record l { cleaned = session ∷ l.cleaned })
  run_cleanup (some raises) session l =
      (err callback_error, record l { cleaned = session ∷ l.cleaned })

  abbrev close_record :
      String → Option (ProfilingSessionRecord P R) → Ledger P R → Result Bool × Ledger P R
  close_record session none l = (ok false, l)
  close_record session (some r) l =
      if r.closed
      then (ok false, l)
      else run_cleanup r.model_cleanup session (record l {
        sessions =
            put session (record r { closed = true; model_cleanup = none; model_handle = false })
              l.sessions;
      })

  unfoldable pub close_session : String → Ledger P R → Result Bool × Ledger P R
  close_session session l = close_record session (get session l.sessions) l

  abbrev pub open_ids : Dict (ProfilingSessionRecord P R) → List String
  open_ids [] = []
  open_ids ((i, r) ∷ m) = let rest = open_ids m in if r.closed then rest else i ∷ rest

  -- An exception of a cleanup ends the loop.
  unfoldable pub close_each : List String → Ledger P R → Result (Unit {0}) × Ledger P R
  unfolding close_session
  close_each [] l = (ok tt, l)
  close_each (i ∷ ids) l = elim (close_session i l).0 [
    | ok _ ↦ close_each ids (close_session i l).1
    | err e ↦ (err e, (close_session i l).1)
  ]

  abbrev pub answered :
      List String → Result (Unit {0}) × Ledger P R → Result (List String) × Ledger P R
  answered ids (ok u, l) = (ok ids, l)
  answered ids (err e, l) = (err e, l)

  unfoldable pub close_all : Ledger P R → Result (List String) × Ledger P R
  unfolding close_each
  close_all l = let ids = open_ids l.sessions in answered ids (close_each ids l)

  abbrev pub entry_of : Option (ProfilingSessionRecord P R) → String → Option (CaseLedgerEntry R)
  entry_of none case_id = none
  entry_of (some r) case_id = get case_id r.cases

  unfoldable pub case_entry : String → String → Ledger P R → Option (CaseLedgerEntry R)
  case_entry session case_id l = entry_of (get session l.sessions) case_id

  -- `record.cases[case_id] = entry` on the session's record.
  write_entry :
      String → ProfilingSessionRecord P R → String → CaseLedgerEntry R → Ledger P R → Ledger P R
  write_entry session r case_id e l = record l {
    sessions = put session (record r { cases = put case_id e r.cases }) l.sessions;
  }

  abbrev start_in :
      Result (ProfilingSessionRecord P R)
      → String
      → String
      → Ledger P R
      → Result (Unit {0}) × Ledger P R
  start_in (err e) session case_id l = (err e, l)
  start_in (ok r) session case_id l =
      if decided (get case_id r.cases) then (err value_error, l) else (
        ok tt,
        write_entry session r case_id
            (record { state = running; outcome = none; decided_at = none }) l,
      )

  unfoldable pub mark_running : String → String → Ledger P R → Result (Unit {0}) × Ledger P R
  unfolding require_open_session write_entry
  mark_running session case_id l = start_in (require_open_session session l) session case_id l

  abbrev decide_in :
      Result (ProfilingSessionRecord P R)
      → String
      → String
      → CaseLedgerEntry R
      → Ledger P R
      → Result (CaseLedgerEntry R) × Ledger P R
  decide_in (err x) session case_id e l = (err x, l)
  decide_in (ok r) session case_id e l =
      if decided (get case_id r.cases)
      then (err value_error, l)
      else (ok e, write_entry session r case_id e l)

  unfoldable pub decide_case :
      String
      → String
      → CaseState
      → CaseOutcome R
      → Datetime
      → Ledger P R
      → Result (CaseLedgerEntry R) × Ledger P R
  unfolding require_open_session write_entry
  decide_case session case_id state outcome now l =
      if not (is_terminal state)
      then (err value_error, l)
      else decide_in (require_open_session session l) session case_id
          (record { state = state; outcome = some outcome; decided_at = some now }) l

  abbrev cancel_entry :
      Option (CaseLedgerEntry R)
      → String
      → ProfilingSessionRecord P R
      → String
      → CaseLedgerEntry R
      → Ledger P R
      → Result (CaseLedgerEntry R) × Ledger P R
  cancel_entry none session r case_id c l = (ok c, write_entry session r case_id c l)
  cancel_entry (some e) session r case_id c l =
      if is_terminal e.state then (ok e, l) else (ok c, write_entry session r case_id c l)

  abbrev cancel_in :
      Result (ProfilingSessionRecord P R)
      → String
      → String
      → CaseLedgerEntry R
      → Ledger P R
      → Result (CaseLedgerEntry R) × Ledger P R
  cancel_in (err x) session case_id c l = (err x, l)
  cancel_in (ok r) session case_id c l = cancel_entry (get case_id r.cases) session r case_id c l

  unfoldable pub cancel_case :
      String → String → Datetime → Ledger P R → Result (CaseLedgerEntry R) × Ledger P R
  unfolding require_open_session write_entry cancellation
  cancel_case session case_id now l =
      cancel_in (require_open_session session l) session case_id (cancellation session case_id now)
        l
