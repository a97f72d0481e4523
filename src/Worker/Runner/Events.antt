-- ===== src/Worker/Runner/Events.antt =====
-- The RPCs of a profiling runner one after the other, each cut at its awaits. `_prepare_lock` admits
-- one preparation at a time, so a second one waits while a coroutine is suspended.
use edge_shard_v.Shared.{ℕ, zero, suc, String, Option, none, some, List, [], ◌∷◌, Result}
use edge_shard_v.Cluster.State.{WorkerState}
use edge_shard_v.Cluster.Snapshot.{Datetime}
use edge_shard_v.Worker.Ledger.Records.{RegistrationTokens}
use edge_shard_v.Worker.Leases.{LeasePolicy}
use edge_shard_v.Worker.Runner.Requests.{
  Tokens, PrepareRequest, Preparation, RunRequest, Execution, Suspended, idle, inspecting,
  executing, Runner, Closer,
}
use edge_shard_v.Worker.Runner.{
  begin_prepare, inspected, finish_prepare, close_profiling_session, shutdown, close_in_thread,
  resume_closer,
}
use edge_shard_v.Worker.Runner.Cases.{start_run, finish_run, cancel_profiling_case}

pub data Event (F R : Type 0) : Type 0 where
  prepares : Option RegistrationTokens → PrepareRequest → Event F R
  inspects : Result WorkerState → Event F R
  executes : Preparation F → Event F R
  starts : Option RegistrationTokens → RunRequest → Event F R
  finishes : RunRequest → Execution R → Datetime → Event F R
  cancels : Option RegistrationTokens → Tokens → String → String → Datetime → Event F R
  closes : Option RegistrationTokens → Tokens → String → Event F R
  shuts_down : Event F R
  -- The thread of one of the waiting coroutines closes its session; that coroutine goes on.
  thread_closes : ℕ → Event F R
  closer_resumes : ℕ → Event F R

abbrev pub new_runner : {F R : Type 0} → Runner F R
new_runner = record {
  ledger = record { sessions = []; cleaned = [] };
  leases = [];
  preparing = idle;
  closers = [];
}

-- One of the waiting coroutines, and the others.
unfoldable pub take_closer : ℕ → List Closer → Option (Closer × List Closer)
take_closer n [] = none
take_closer zero (c ∷ cs) = some (c, cs)
take_closer (suc n) (c ∷ cs) =
    let rest = take_closer n cs in elim rest [ none ↦ none | some (d, ds) ↦ some (d, c ∷ ds) ]

module _ {F R : Type 0} where
  abbrev pub with_closer :
      Option (Closer × List Closer) → (Closer → Runner F R → Runner F R) → Runner F R → Runner F R
  with_closer none piece runner = runner
  with_closer (some (c, cs)) piece runner = piece c (record runner { closers = cs })

module _ {F R : Type 0} (policy : LeasePolicy) where
  -- A piece of a preparation runs only where the coroutine stands at that await.
  abbrev pub prepare_at :
      Suspended → Option RegistrationTokens → PrepareRequest → Runner F R → Runner F R
  prepare_at idle current q runner = (begin_prepare current q runner).1
  prepare_at _ current q runner = runner

  abbrev pub inspect_at : Suspended → Result WorkerState → Runner F R → Runner F R
  inspect_at (inspecting q) state runner = (inspected policy q state runner).1
  inspect_at _ state runner = runner

  abbrev pub execute_at : Suspended → Preparation F → Runner F R → Runner F R
  execute_at (executing q) preparation runner = (finish_prepare q preparation runner).1
  execute_at _ preparation runner = runner

  unfoldable pub apply : Runner F R → Event F R → Runner F R
  unfolding begin_prepare inspected finish_prepare start_run finish_run cancel_profiling_case
      close_profiling_session shutdown take_closer close_in_thread resume_closer
  apply runner (prepares current q) = prepare_at runner.preparing current q runner
  apply runner (inspects state) = inspect_at runner.preparing state runner
  apply runner (executes preparation) = execute_at runner.preparing preparation runner
  apply runner (starts current q) = (start_run current q runner).1
  apply runner (finishes q execution now) = (finish_run q execution now runner).1
  apply runner (cancels current tokens session case_id now) =
      (cancel_profiling_case current tokens session case_id now runner).1
  apply runner (closes current tokens session) =
      (close_profiling_session current tokens session runner).1
  apply runner shuts_down = shutdown runner
  apply runner (thread_closes n) = with_closer (take_closer n runner.closers) close_in_thread runner
  apply runner (closer_resumes n) =
      with_closer (take_closer n runner.closers) (λ c r. (resume_closer c r).1) runner

  unfoldable pub run : Runner F R → List (Event F R) → Runner F R
  unfolding apply
  run runner [] = runner
  run runner (x ∷ xs) = run (apply runner x) xs
