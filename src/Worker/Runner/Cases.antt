-- ===== src/Worker/Runner/Cases.antt =====
-- src/edgeshard/control/worker/profiling_runner.py: running, reading and cancelling a case. A run is cut
-- where it awaits the execution: other RPCs can run in between.
use edge_shard_v.Shared.{
  String, Bool, true, false, ◌==◌, not, ◌||◌, Option, none, some, List, [], ◌∷◌, Result, ok, err,
  value_error, other_error, session_refused, session_kind_mismatch, device_busy, unknown_case,
  contains, if◌then◌else◌,
}
use edge_shard_v.Shared.Dict.{get}
use edge_shard_v.Cluster.Snapshot.{Datetime}
use edge_shard_v.Worker.Ledger.Records.{
  RegistrationTokens, CaseState, CaseOutcome, CaseLedgerEntry, ProfilingSessionRecord, Ledger,
  is_terminal,
}
use edge_shard_v.Worker.Ledger.{
  require_open_session, mark_running, decide_case, cancel_case, case_entry,
}
use edge_shard_v.Worker.Leases.{held_by}
use edge_shard_v.Worker.Runner.{validate}
use edge_shard_v.Worker.Runner.Requests.{
  Tokens, Prepared, is_network, ProfilingCase, CaseSpec, model_case, network_case, RunRequest,
  RunResponse, ran, run_refused, Execution, outcome_of, state_of, kind_mismatch, Runner,
}

-- Every device of the case is leased to the session.
unfoldable pub holds_all : List String → CaseSpec → Bool
holds_all leased (network_case destination) = true
holds_all leased (model_case granularity []) = true
holds_all leased (model_case granularity (d ∷ ds)) =
    let rest = holds_all leased (model_case granularity ds) in
    if contains leased d then rest else false

-- `except ValueError`: the decision that a concurrent cancel recorded.
abbrev recorded : {R : Type 0} → Option (CaseLedgerEntry R) → Result (RunResponse R)
recorded none = err value_error
recorded (some entry) = elim entry.outcome [
  | none ↦ err value_error
  | some outcome ↦ ok (ran outcome)
]

abbrev read_entry : {R : Type 0} → Option (CaseLedgerEntry R) → Result (CaseLedgerEntry R)
read_entry none = err (session_refused unknown_case)
read_entry (some entry) = ok entry

module _ {F R : Type 0} where
  -- `self._validate(request)`, then `require_open_session`.
  abbrev open_under :
      Result RegistrationTokens
      → String
      → Ledger (Prepared F) R
      → Result (ProfilingSessionRecord (Prepared F) R)
  open_under (err x) session l = err x
  open_under (ok tokens) session l = require_open_session session l

  unfoldable pub authorized :
      Option RegistrationTokens
      → Tokens
      → String
      → Runner F R
      → Result (ProfilingSessionRecord (Prepared F) R)
  unfolding validate require_open_session
  authorized current tokens session runner =
      open_under (validate current tokens) session runner.ledger

  -- A run either answers at once, or goes on to execute its case.
  unfoldable pub marked :
      Result (Unit {0}) × Ledger (Prepared F) R
      → Runner F R
      → Result (Option (RunResponse R)) × Runner F R
  marked (ok u, l) runner = (ok none, record runner { ledger = l })
  marked (err x, l) runner = (err x, record runner { ledger = l })

  abbrev answer : RunResponse R → Runner F R → Result (Option (RunResponse R)) × Runner F R
  answer response runner = (ok (some response), runner)

  -- `assert entry.outcome is not None`
  abbrev replay : Option (CaseOutcome R) → Runner F R → Result (Option (RunResponse R)) × Runner F R
  replay none runner = (err other_error, runner)
  replay (some outcome) runner = answer (ran outcome) runner

  unfoldable pub dispatch :
      Option (CaseLedgerEntry R)
      → ProfilingSessionRecord (Prepared F) R
      → String
      → ProfilingCase
      → Runner F R
      → Result (Option (RunResponse R)) × Runner F R
  unfolding marked holds_all mark_running
  dispatch (some entry) r session c runner =
      if is_terminal entry.state
      then replay entry.outcome runner
      else answer (run_refused device_busy) runner
  dispatch none r session c runner =
      if is_network r.request.kind || holds_all (held_by session runner.leases) c.spec
      then marked (mark_running session c.case_id runner.ledger) runner
      else answer (run_refused device_busy) runner

  unfoldable pub start_case :
      Result (ProfilingSessionRecord (Prepared F) R)
      → RunRequest
      → Runner F R
      → Result (Option (RunResponse R)) × Runner F R
  unfolding dispatch kind_mismatch
  start_case (err (session_refused reason)) q runner = answer (run_refused reason) runner
  start_case (err x) q runner = (err x, runner)
  start_case (ok r) q runner =
      let c = q.profiling_case in
      if not (c.worker_id == q.tokens.worker_id)
      then (err value_error, runner)
      else if kind_mismatch r.request.kind c.spec
      then answer (run_refused session_kind_mismatch) runner
      else dispatch (get c.case_id r.cases) r q.profiling_session_id c runner

  -- `run_profiling_case` up to `_execute`.
  unfoldable pub start_run :
      Option RegistrationTokens
      → RunRequest
      → Runner F R
      → Result (Option (RunResponse R)) × Runner F R
  unfolding authorized start_case
  start_run current q runner =
      start_case (authorized current q.tokens q.profiling_session_id runner) q runner

  unfoldable pub decided_run :
      RunRequest
      → CaseOutcome R
      → Result (CaseLedgerEntry R) × Ledger (Prepared F) R
      → Runner F R
      → Result (RunResponse R) × Runner F R
  unfolding case_entry
  decided_run q outcome (ok entry, l) runner = (ok (ran outcome), record runner { ledger = l })
  decided_run q outcome (err value_error, l) runner = (
    recorded (case_entry q.profiling_session_id q.profiling_case.case_id l),
    record runner { ledger = l },
  )
  decided_run q outcome (err x, l) runner = (err x, record runner { ledger = l })

  -- `run_profiling_case` from the end of `_execute`.
  unfoldable pub finish_run :
      RunRequest → Execution R → Datetime → Runner F R → Result (RunResponse R) × Runner F R
  unfolding outcome_of state_of decide_case decided_run
  finish_run q execution now runner =
      decided_run q (outcome_of execution)
        (decide_case q.profiling_session_id q.profiling_case.case_id (state_of execution)
          (outcome_of execution) now runner.ledger)
        runner

  -- `get_profiling_case`; a refusal is an error with its reason.
  abbrev read_case :
      Result (ProfilingSessionRecord (Prepared F) R) → String → Result (CaseLedgerEntry R)
  read_case (err x) case_id = err x
  read_case (ok r) case_id = read_entry (get case_id r.cases)

  unfoldable pub get_profiling_case :
      Option RegistrationTokens → Tokens → String → String → Runner F R → Result (CaseLedgerEntry R)
  unfolding authorized
  get_profiling_case current tokens session case_id runner =
      read_case (authorized current tokens session runner) case_id

  unfoldable pub cancelled_with :
      Result (CaseLedgerEntry R) × Ledger (Prepared F) R
      → Runner F R
      → Result CaseState × Runner F R
  cancelled_with (ok entry, l) runner = (ok entry.state, record runner { ledger = l })
  cancelled_with (err x, l) runner = (err x, record runner { ledger = l })

  unfoldable pub cancel_under :
      Result (ProfilingSessionRecord (Prepared F) R)
      → String
      → String
      → Datetime
      → Runner F R
      → Result CaseState × Runner F R
  unfolding cancelled_with cancel_case
  cancel_under (err x) session case_id now runner = (err x, runner)
  cancel_under (ok r) session case_id now runner =
      cancelled_with (cancel_case session case_id now runner.ledger) runner

  -- `cancel_profiling_case`; a refusal is an error with its reason.
  unfoldable pub cancel_profiling_case :
      Option RegistrationTokens
      → Tokens
      → String
      → String
      → Datetime
      → Runner F R
      → Result CaseState × Runner F R
  unfolding authorized cancel_under
  cancel_profiling_case current tokens session case_id now runner =
      cancel_under (authorized current tokens session runner) session case_id now runner
