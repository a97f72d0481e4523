-- ===== src/Examples/Worker.antt =====
-- Leases on two devices, and the ledger of one profiling session.
use edge_shard_v.Shared.{
  ℕ, ◌≡◌, ◌⊎◌, refl, true, false, none, some, List, [], ◌∷◌, err, contains, has_duplicate,
  if◌then◌else◌, arith, eq_iff, device_busy_error,
}
use edge_shard_v.Shared.Int.{pos, ltb_ℤ}
use edge_shard_v.Shared.Dict.{get, put, remove, keys}
use edge_shard_v.Worker.Leases.{
  LeasePolicy, Leases, acquire, acquire_loop, check_device, check_memory, dedupe, roll_back,
  release_session, held_by_other, index_devices,
}
use edge_shard_v.Worker.Leases.Acquire.{
  IsIdle, acquire_grants, acquire_refusal_restores, reacquire_drops,
}
use edge_shard_v.Worker.Leases.Release.{release_exact, holds}
use edge_shard_v.Worker.Ledger.{
  empty, mark_running, create_session, decide_case, case_entry, require_open_session,
}
use edge_shard_v.Worker.Ledger.Records.{
  Ledger, completed, CaseLedgerEntry, ProfilingSessionRecord, returns,
}
use edge_shard_v.Worker.Ledger.History.{Call, creates, closes, starts, decides, cancels, apply, run}
use edge_shard_v.Worker.Ledger.Moves.{Moves, Carries, run-Moves}
use edge_shard_v.Worker.Ledger.Forward.{decided_stays, closed_stays, run-Carries}
use edge_shard_v.Worker.Ledger.Cleanup.{is_closed, cleanup_once}
use edge_shard_v.Examples.Data.{state, clock}

abbrev free : Leases
free = []

abbrev others : Leases
others = ("g0", "s2") ∷ []

abbrev mine : Leases
mine = ("g0", "s1") ∷ []

abbrev policy : LeasePolicy
policy = record {
  utilization_floor = pos 5_000;
  min_available_bytes = none;
  memory_pool_resolver = none;
}

acquire_grants_example :
    (get "g0" mine ≡ some "s1")
    × (held_by_other "s1" (get "g0" free) ≡ false)
    × IsIdle policy (index_devices state.device_states []) "g0"
unfolding acquire acquire_loop check_device check_memory dedupe get put ltb_ℤ
acquire_grants_example =
    acquire_grants policy "s1" state free mine ("g0" ∷ [])
      (record { session_id = "s1"; device_id = "g0" } ∷ []) refl "g0" refl

acquire_refusal_restores_example : others ≡ others
unfolding acquire acquire_loop check_device check_memory dedupe get put ltb_ℤ roll_back
acquire_refusal_restores_example =
    acquire_refusal_restores policy "s1" state others others ("g0" ∷ []) (device_busy_error "g0")
      (λ d c e. ground (arith, e, c, eq_iff "s2" "s1", eq_iff "g0" d)) refl

reacquire_drops_example :
    (acquire policy "s1" ("g0" ∷ "g9" ∷ []) state mine
      ≡ (err (device_busy_error "g9"), remove "g0" mine))
    × (get "g0" (acquire policy "s1" ("g0" ∷ "g9" ∷ []) state mine).1 ≡ none)
unfolding check_device check_memory get put ltb_ℤ
reacquire_drops_example =
    reacquire_drops policy "s1" "g0" "g9" [] state mine (device_busy_error "g9") refl
      (λ e. ground (arith, e, eq_iff "g0" "g9")) refl refl refl

release_exact_example :
    (contains (release_session "s1" (("g0", "s1") ∷ ("g1", "s2") ∷ [])).0 "g0"
      ≡ holds "s1" (get "g0" (("g0", "s1") ∷ ("g1", "s2") ∷ [])))
    × (get "g0" (release_session "s1" (("g0", "s1") ∷ ("g1", "s2") ∷ [])).1 ≡ (
        if holds "s1" (get "g0" (("g0", "s1") ∷ ("g1", "s2") ∷ []))
        then none
        else get "g0" (("g0", "s1") ∷ ("g1", "s2") ∷ [])))
unfolding keys
release_exact_example = release_exact "s1" (("g0", "s1") ∷ ("g1", "s2") ∷ []) "g0" refl

abbrev Book : Type 0
Book = Ledger ℕ ℕ

-- A session with one completed case.
abbrev calls : List (Call ℕ ℕ)
calls =
    creates "s1" 7 true (some returns)
    ∷ starts "s1" "c1"
    ∷ decides "s1" "c1" completed (record { measured = some 42; failure = none }) (clock 3).wall
    ∷ []

abbrev done : CaseLedgerEntry ℕ
done = record {
  state = completed;
  outcome = some (record { measured = some 42; failure = none });
  decided_at = some (clock 3).wall;
}

abbrev open_record : ProfilingSessionRecord ℕ ℕ
open_record = record {
  session_id = "s1";
  request = 7;
  model_handle = true;
  model_cleanup = some returns;
  cases = ("c1", done) ∷ [];
  closed = false;
}

abbrev closed_record : ProfilingSessionRecord ℕ ℕ
closed_record = record open_record { closed = true; model_cleanup = none; model_handle = false }

abbrev book : Book
book = record { sessions = ("s1", open_record) ∷ []; cleaned = [] }

abbrev closed_book : Book
closed_book = record { sessions = ("s1", closed_record) ∷ []; cleaned = "s1" ∷ [] }

abbrev later_calls : List (Call ℕ ℕ)
later_calls = cancels "s1" "c1" (clock 9).wall ∷ closes "s1" ∷ creates "s1" 8 false none ∷ []

decided_stays_example : case_entry "s1" "c1" (run book later_calls) ≡ some done
unfolding case_entry get
decided_stays_example = decided_stays "s1" "c1" done book later_calls refl refl

closed_stays_example : get "s1" (run closed_book later_calls).sessions ≡ some closed_record
unfolding get
closed_stays_example = closed_stays "s1" closed_record closed_book later_calls refl refl

run-Carries_example : Carries done
unfolding run apply mark_running create_session decide_case case_entry require_open_session get put
run-Carries_example = run-Carries "s1" "c1" calls done refl

cleanup_once_example :
    (has_duplicate (run empty calls).cleaned ≡ false)
    × ((contains (run empty calls).cleaned "s1" ≡ false)
        ⊎ (is_closed (get "s1" (run empty calls).sessions) ≡ true))
cleanup_once_example = cleanup_once calls "s1"

run-Moves_example : Moves ℕ ℕ book (run book later_calls)
run-Moves_example = run-Moves book later_calls
