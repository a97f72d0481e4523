-- ===== src/Profiling/Benchmark/Harness.antt =====
-- src/edgeshard/profiling/benchmark/harness.py: the warmup and the measuring loop of a benchmark over the
-- operations of its workload and its instruments, which may raise. The loops recur on fuel.
use edge_shard_v.Shared.{
  ℕ, zero, suc, ◌+◌, Bool, true, false, Option, none, some, List, [], ◌∷◌, ◌++◌, Result, ok, err,
  Exception, profiling_error, cancelled_error, if◌then◌else◌,
}
use edge_shard_v.Shared.Exec.{Exec, lift, ◌>>=◌, ◌>>◌}
use edge_shard_v.Profiling.Benchmark.{
  SamplingState, DurationSamplingPolicy, should_continue, should_continue_warmup,
}

-- `_guard`: an exception that is not a `ProfilingError` becomes one.
unfoldable pub guard_exception : Exception → Exception
guard_exception (profiling_error category) = profiling_error category
guard_exception cancelled_error = cancelled_error
guard_exception x = profiling_error "benchmark_failed"

abbrev guarded : {A : Type 0} → Result A → Result A
guarded (ok a) = ok a
guarded (err x) = err (guard_exception x)

-- A loop has ended with a result, or its fuel has.
pub data Loop (A : Type 0) : Type 0 where
  ended : A → Loop A
  unfinished : Loop A

-- A workload with its instruments; `stop` reads the timer. `is_valid` is the test of an elapsed time
-- for a finite number that is not negative.
pub record Bench (S : Type 0) : Type 0 where
  pub prepare : Exec S (Unit {0})
  pub reset : Exec S (Unit {0})
  pub cleanup : Exec S (Unit {0})
  pub run_once : Exec S (Unit {0})
  pub start : Exec S (Unit {0})
  pub stop : Exec S ℕ
  pub is_valid : ℕ → Bool
  pub poll_physical : Option (Exec S (Unit {0}))
  pub environment_check : Option (Exec S (Unit {0}))
  pub capture_initial : Option (Exec S (Unit {0}))
  pub capture_final : Option (Exec S (Unit {0}))
  pub open_memory : Option (Exec S (Unit {0}))
  pub close_memory : Option (Exec S (Unit {0}))
  pub open_physical : Option (Exec S (Unit {0}))
  pub close_physical : Option (Exec S (Unit {0}))
  pub stationarity_reliable : Bool

abbrev pub new_state : DurationSamplingPolicy → SamplingState
new_state c = record { warmup_runs = c.min_warmups; measured_runs = 0; accumulated_measurement = 0 }

module _ {S : Type 0} where
  unfoldable pub guard : {A : Type 0} → Exec S A → Exec S A
  unfolding guard_exception
  guard action s = let (r, s') = action s in (guarded r, s')

  -- `if instrument is not None: self._guard(...)`
  unfoldable pub guard_optional : Option (Exec S (Unit {0})) → Exec S (Unit {0})
  unfolding guard
  guard_optional none s = (ok tt, s)
  guard_optional (some action) s = guard action s

module _ {S : Type 0} (b : Bench S) where
  unfoldable pub timed_iteration : Exec S ℕ
  unfolding guard
  timed_iteration = do
    guard b.start
    guard b.run_once
    elapsed ← guard b.stop
    lift (if b.is_valid elapsed then ok elapsed else err (profiling_error "benchmark_failed"))

  -- One measured run with the poll after it.
  unfoldable pub measured_run : Exec S ℕ
  unfolding timed_iteration guard_optional
  measured_run = do elapsed ← timed_iteration; guard_optional b.poll_physical; lift (ok elapsed)

  abbrev pub counted : SamplingState → ℕ → SamplingState
  counted state elapsed = record {
    warmup_runs = state.warmup_runs;
    measured_runs = state.measured_runs + 1;
    accumulated_measurement = state.accumulated_measurement + elapsed;
  }

  -- `_measure`; `samples` are the ones measured so far.
  unfoldable pub measure :
      ℕ → DurationSamplingPolicy → SamplingState → List ℕ → S → Loop (Result (List ℕ) × S)
  unfolding measured_run should_continue
  measure zero c state samples s = unfinished
  measure (suc fuel) c state samples s = elim (should_continue c state) [
    | false ↦ ended (ok samples, s)
    | true ↦ elim (measured_run s).0 [
      | ok elapsed ↦
          measure fuel c (counted state elapsed) (samples ++ elapsed ∷ []) (measured_run s).1
      | err x ↦ ended (err x, (measured_run s).1)
    ]
  ]

  module _ (exceeds : List ℕ → List ℕ → Bool) where
    -- The loop of `_warmup` with a policy that adapts.
    unfoldable pub adaptive_warmup :
        ℕ → DurationSamplingPolicy → List ℕ → S → Loop (Result (List ℕ) × S)
    unfolding timed_iteration should_continue_warmup
    adaptive_warmup zero c samples s = unfinished
    adaptive_warmup (suc fuel) c samples s = elim (should_continue_warmup exceeds c samples) [
      | false ↦ ended (ok samples, s)
      | true ↦ elim (timed_iteration s).0 [
        | ok elapsed ↦ adaptive_warmup fuel c (samples ++ elapsed ∷ []) (timed_iteration s).1
        | err x ↦ ended (err x, (timed_iteration s).1)
      ]
    ]

  -- `for _ in range(policy.warmup_runs): self._guard(workload.run_once, ...)`
  unfoldable pub fixed_warmup : ℕ → Exec S (Unit {0})
  unfolding guard
  fixed_warmup zero s = (ok tt, s)
  fixed_warmup (suc n) s = elim (guard b.run_once s).0 [
    | ok u ↦ fixed_warmup n (guard b.run_once s).1
    | err x ↦ (err x, (guard b.run_once s).1)
  ]
