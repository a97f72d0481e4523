-- ===== src/Examples/Runner.antt =====
-- A profiling runner that prepares one session on one device, and runs a case in it.
use edge_shard_v.Shared.{String, ◌≡◌, refl, ◌⊎◌, Option, none, some, List, [], ◌∷◌, ok, true, false}
use edge_shard_v.Shared.Int.{pos, ltb_ℤ}
use edge_shard_v.Shared.Dict.{get, put, keys, remove}
use edge_shard_v.Cluster.Snapshot.{Datetime}
use edge_shard_v.Worker.Ledger.{require_open_session}
use edge_shard_v.Worker.Ledger.Records.{
  RegistrationTokens, returns, cancellation, CaseOutcome, from_failure, ProfilingErrorCategory,
}
use edge_shard_v.Worker.Ledger.Status.{status}
use edge_shard_v.Worker.Leases.{
  LeasePolicy, acquire, dedupe, acquire_loop, held_by, release_session, check_device, check_memory,
}
use edge_shard_v.Worker.Runner.Requests.{
  Tokens, PrepareRequest, operator, handle, RunRequest, model_case, operator_level, Runner,
  measures, ran,
}
use edge_shard_v.Worker.Runner.Events.{
  Event, new_runner, prepares, inspects, executes, starts, closes, thread_closes, closer_resumes,
  cancels, apply, run,
}
use edge_shard_v.Worker.Runner.Cases.{start_run, finish_run}
use edge_shard_v.Worker.Runner.Reservations.{holding, is_closing}
use edge_shard_v.Worker.Runner.Histories.{no_stranded_device}
use edge_shard_v.Worker.Runner.Authority.{IsAuthorized, start_run-IsAuthorized}
use edge_shard_v.Worker.Runner.Execution.{finish_run_decided}
use edge_shard_v.Examples.Data.{state}

abbrev policy : LeasePolicy
policy = record {
  utilization_floor = pos 5_000;
  min_available_bytes = none;
  memory_pool_resolver = none;
}

abbrev current : Option RegistrationTokens
current = some (record { worker_id = "w1"; instance_id = "i1"; registration_session_id = "s1" })

abbrev tokens : Tokens
tokens = record { worker_id = "w1"; instance_id = "i1"; registration_session_id = "s1" }

abbrev preparation : PrepareRequest
preparation = record {
  tokens = tokens;
  profiling_session_id = "p1";
  kind = operator;
  device_ids = "g0" ∷ [];
  network_facts = [];
}

abbrev request : RunRequest
request = record {
  tokens = tokens;
  profiling_session_id = "p1";
  profiling_case = record {
    case_id = "c1";
    worker_id = "w1";
    spec = model_case operator_level ("g0" ∷ []);
  };
}

abbrev events : List (Event String String)
events =
    prepares current preparation
    ∷ inspects (ok state)
    ∷ executes (handle none returns (ok "facts"))
    ∷ []

abbrev ready : Runner String String
ready = run policy new_runner events

-- The session is being closed: its thread has returned, and the coroutine has not gone on.
abbrev in_close : List (Event String String)
in_close =
    prepares current preparation
    ∷ inspects (ok state)
    ∷ executes (handle none returns (ok "facts"))
    ∷ closes current tokens "p1"
    ∷ thread_closes 0
    ∷ []

no_stranded_device_example :
    ((status "p1" (run policy new_runner in_close).ledger ≡ some false)
      ⊎ ((status "p1" (run policy new_runner in_close).ledger ≡ some true)
          × (is_closing "p1" (run policy new_runner in_close).closers ≡ true)))
    ⊎ (holding (run policy new_runner in_close).preparing ≡ some "p1")
unfolding run apply get put ltb_ℤ acquire dedupe acquire_loop check_device check_memory
no_stranded_device_example = no_stranded_device policy in_close "g0" "p1" refl

-- The coroutine goes on, and the device is free.
freed : (run policy (run policy new_runner in_close) (closer_resumes 0 ∷ [])).leases ≡ []
unfolding run apply get put ltb_ℤ acquire dedupe acquire_loop check_device check_memory held_by
    release_session remove
freed = refl

start_run-IsAuthorized_example :
    IsAuthorized current request ready (start_run current request ready).1
unfolding run apply get keys acquire dedupe acquire_loop check_device check_memory start_run
    require_open_session put ltb_ℤ held_by
start_run-IsAuthorized_example = start_run-IsAuthorized current request ready refl refl

abbrev later : Datetime
later = record { instant = 9; aware = true }

-- The case was cancelled while it ran.
abbrev cancelled_runner : Runner String String
cancelled_runner =
    run policy ready (starts current request ∷ cancels current tokens "p1" "c1" later ∷ [])

abbrev cancelled_outcome : String → String → CaseOutcome String
cancelled_outcome session case_id = from_failure (record {
  category = ProfilingErrorCategory.cancelled;
  message = "case cancelled before execution";
  details = ("case_id", case_id) ∷ ("session_id", session) ∷ [];
})

finish_run_decided_example :
    finish_run request (measures "time") later cancelled_runner
    ≡ (ok (ran (cancelled_outcome "p1" "c1")), cancelled_runner)
unfolding run apply get put keys ltb_ℤ acquire dedupe acquire_loop check_device check_memory
    require_open_session cancellation held_by
finish_run_decided_example =
    finish_run_decided request (measures "time") later cancelled_runner
      (cancellation "p1" "c1" later) _ (_, refl, refl, refl) refl refl
