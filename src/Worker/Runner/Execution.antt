-- ===== src/Worker/Runner/Execution.antt =====
-- What becomes of what an executed case measured.
use edge_shard_v.Shared.{◌≡◌, refl, true, false, ==_refl, Option, some, ok}
use edge_shard_v.Shared.Dict.{get, put, get-put}
use edge_shard_v.Cluster.Snapshot.{Datetime}
use edge_shard_v.Worker.Ledger.Records.{
  is_terminal, decided, CaseOutcome, CaseLedgerEntry, ProfilingSessionRecord,
}
use edge_shard_v.Worker.Ledger.{require_open_session, decide_case, case_entry}
use edge_shard_v.Worker.Runner.Requests.{
  Prepared, RunRequest, ran, Execution, measures, execution_raised, outcome_of, state_of, Runner,
}
use edge_shard_v.Worker.Runner.Cases.{decided_run, finish_run}

-- The entry of a case that was executed to its end.
abbrev pub decision : {R : Type 0} → Execution R → Datetime → CaseLedgerEntry R
decision execution now = record {
  state = state_of execution;
  outcome = some (outcome_of execution);
  decided_at = some now;
}

module _ {F R : Type 0} where
  -- The case's entry in the ledger, of an open session.
  abbrev pub Stands : RunRequest → Option (CaseLedgerEntry R) → Runner F R → Type 0
  Stands q entry runner =
      (r : ProfilingSessionRecord (Prepared F) R) × (get q.profiling_session_id
          runner.ledger.sessions
        ≡ some r)
      × (r.closed ≡ false)
      × (get q.profiling_case.case_id r.cases ≡ entry)

  standing_entry :
      (q : RunRequest) (entry : Option (CaseLedgerEntry R)) (runner : Runner F R)
      → Stands q entry runner
      → case_entry q.profiling_session_id q.profiling_case.case_id runner.ledger ≡ entry
  unfolding case_entry
  standing_entry q entry runner (s, f, o, c) = rw f c

  decide_undecided :
      (q : RunRequest) (execution : Execution R) (now : Datetime) (runner : Runner F R)
      (r : ProfilingSessionRecord (Prepared F) R)
      → get q.profiling_session_id runner.ledger.sessions ≡ some r
      → r.closed ≡ false
      → decided (get q.profiling_case.case_id r.cases) ≡ false
      → decide_case q.profiling_session_id q.profiling_case.case_id
          (state_of execution)
          (outcome_of execution)
          now
          runner.ledger
        ≡ (
          ok (decision execution now),
          record runner.ledger {
            sessions =
                put q.profiling_session_id
                  (record r {
                    cases = put q.profiling_case.case_id (decision execution now) r.cases;
                  })
                  runner.ledger.sessions;
          },
        )
  unfolding decide_case require_open_session state_of
  decide_undecided q (measures m) now runner r f o d = rw (f, o, d) refl
  decide_undecided q (execution_raised x) now runner r f o d = rw (f, o, d) refl

  -- Where a case was decided while it ran, as a concurrent cancel does, the end of the run answers with
  -- that decision and changes nothing: what the run measured is discarded.
  pub finish_run_decided :
      (q : RunRequest) (execution : Execution R) (now : Datetime) (runner : Runner F R)
      (entry : CaseLedgerEntry R) (outcome : CaseOutcome R)
      → Stands q (some entry) runner
      → is_terminal entry.state ≡ true
      → entry.outcome ≡ some outcome
      → finish_run q execution now runner ≡ (ok (ran outcome), runner)
  unfolding finish_run decide_case require_open_session decided_run case_entry state_of
  finish_run_decided q (measures r) now runner entry outcome (s, f, o, c) t e =
      rw (f, o, c, t, standing_entry q (some entry) runner (s, f, o, c), e) refl
  finish_run_decided q (execution_raised x) now runner entry outcome (s, f, o, c) t e =
      rw (f, o, c, t, standing_entry q (some entry) runner (s, f, o, c), e) refl

  -- Otherwise the outcome of the run is answered and recorded, and the leases are untouched.
  pub finish_run_published :
      (q : RunRequest) (execution : Execution R) (now : Datetime) (runner : Runner F R)
      (entry : Option (CaseLedgerEntry R))
      → Stands q entry runner
      → decided entry ≡ false
      → let (answer, next) = finish_run q execution now runner in
        (answer ≡ ok (ran (outcome_of execution)))
        × Stands q (some (decision execution now)) next
        × (next.leases ≡ runner.leases)
  unfolding finish_run decided_run
  finish_run_published q execution now runner entry (r, f, o, c) d =
      let step = decide_undecided q execution now runner r f o (rw c d) in
      let e = decision execution now in
      (
        rw step refl,
        (
          record r { cases = put q.profiling_case.case_id e r.cases },
          rw
              (
                step,
                get-put q.profiling_session_id q.profiling_session_id _ runner.ledger.sessions,
                ==_refl q.profiling_session_id,
              )
              refl,
          o,
          rw
              (
                get-put q.profiling_case.case_id q.profiling_case.case_id e r.cases,
                ==_refl q.profiling_case.case_id,
              )
              refl,
        ),
        rw step refl,
      )
