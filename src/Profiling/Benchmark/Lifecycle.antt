-- ===== src/Profiling/Benchmark/Lifecycle.antt =====
-- src/edgeshard/profiling/benchmark/harness.py: one benchmark from its preparation to its cleanup. Of the
-- result, the model has the runs and the judgement of their stationarity; its summary, its
-- timestamps and what the instruments returned are not modelled.
use edge_shard_v.Shared.{
  ℕ, suc, Bool, true, false, not, Option, none, some, List, [], ◌∷◌, length, Result, ok, err,
  profiling_error, cancelled_error, raise_if, ◌&&◌, if◌then◌else◌,
}
use edge_shard_v.Shared.Exec.{Exec, lift, ◌>>◌}
use edge_shard_v.Profiling.Benchmark.{DurationSamplingPolicy, warmup_converged}
use edge_shard_v.Profiling.Benchmark.Harness.{
  Bench, Loop, ended, unfinished, guard, guard_optional, new_state, measure, adaptive_warmup,
  fixed_warmup,
}

-- `BenchmarkResult`
pub record Report : Type 0 where
  pub warmup_runs : ℕ
  pub requested_min_warmup_runs : ℕ
  pub warmup_converged : Bool
  pub samples : List ℕ
  pub stationary : Option Bool

abbrev pub then_run :
    {S A B : Type 0} → Loop (Result A × S) → (A → S → Loop (Result B × S)) → Loop (Result B × S)
then_run unfinished f = unfinished
then_run (ended (ok a, s)) f = f a s
then_run (ended (err x, s)) f = ended (err x, s)

-- `len(warmup_samples) if warmup_samples else sampling_policy.warmup_runs`
abbrev actual_warmup_runs : List ℕ → ℕ → ℕ
actual_warmup_runs [] n = n
actual_warmup_runs (x ∷ xs) n = suc (length xs)

abbrev pub finished : Result Report → Result (Unit {0}) → Result Report
finished (ok report) (ok u) = elim report.samples [
  | [] ↦ err (profiling_error "benchmark_failed")
  | x ∷ xs ↦ ok report
]
finished (ok report) (err cancelled_error) = err cancelled_error
finished (ok report) (err y) = err (profiling_error "benchmark_failed")
finished (err x) (ok u) = err x
finished (err x) (err cancelled_error) = err cancelled_error
finished (err x) (err y) = err x

-- `exceeds` compares two windows of the warmup; `stationary` is `_quality(samples).stationary`.
module _ (exceeds : List ℕ → List ℕ → Bool) (stationary : List ℕ → Bool) where
  abbrev judged_quality : Bool → List ℕ → Option Bool
  judged_quality reliable [] = none
  judged_quality reliable (x ∷ xs) = if reliable then some (stationary (x ∷ xs)) else none

  abbrev is_refused : DurationSamplingPolicy → Option Bool → Bool
  is_refused c (some false) = c.enforce_stationarity
  is_refused c _ = false

  unfoldable pub judged : DurationSamplingPolicy → Bool → List ℕ × Bool → List ℕ → Result Report
  judged c reliable (warm, converged) samples =
      let quality = judged_quality reliable samples in
      if is_refused c quality
      then err (profiling_error "unstable_performance_state")
      else ok (record {
        warmup_runs = actual_warmup_runs warm c.min_warmups;
        requested_min_warmup_runs = c.min_warmups;
        warmup_converged = converged;
        samples = samples;
        stationary = quality;
      })

  module _ {S : Type 0} (b : Bench S) (c : DurationSamplingPolicy) where
    unfoldable pub validate_environment : Exec S (Unit {0})
    unfolding guard_optional
    validate_environment = do guard_optional b.environment_check; guard_optional b.capture_initial

    -- The samples of the warmup, and whether it converged.
    unfoldable pub warmup : S → Loop (Result (List ℕ × Bool) × S)
    unfolding adaptive_warmup fixed_warmup warmup_converged
    warmup s =
        if not c.legacy_fixed_warmup && b.stationarity_reliable
        then then_run (adaptive_warmup b exceeds (suc c.max_warmups) c [] s)
            (λ samples s'. ended (ok (samples, warmup_converged exceeds c samples), s'))
        else then_run (ended (fixed_warmup b c.min_warmups s)) (λ u s'. ended (ok ([], true), s'))

    -- What stands between the warmup and the measuring loop, and after it.
    unfoldable pub open_instruments : Bool → Exec S (Unit {0})
    unfolding guard guard_optional
    open_instruments converged = do
      lift (raise_if (not converged) (profiling_error "unstable_performance_state"))
      guard b.reset
      guard_optional b.open_memory
      guard_optional b.open_physical

    unfoldable pub close_instruments : List ℕ × Bool → List ℕ → Exec S Report
    unfolding guard_optional judged
    close_instruments warm samples = do
      guard_optional b.close_memory
      guard_optional b.close_physical
      guard_optional b.capture_final
      lift (judged c b.stationarity_reliable warm samples)

    -- The statements under `try`.
    unfoldable pub body : S → Loop (Result Report × S)
    unfolding validate_environment warmup open_instruments measure close_instruments
    body s = then_run (ended (validate_environment s)) (λ u s₁. then_run (warmup s₁) (λ warm s₂.
        then_run (ended (open_instruments warm.1 s₂)) (λ u' s₃.
          then_run (measure b (suc c.max_runs) c (new_state c) [] s₃)
            (λ samples s₄. ended (close_instruments warm samples s₄)))))

    -- The statement under `finally`, and what follows it.
    abbrev pub cleaned : Loop (Result Report × S) → Loop (Result Report × S)
    cleaned unfinished = unfinished
    cleaned (ended (r, s)) = ended (finished r (b.cleanup s).0, (b.cleanup s).1)

    unfoldable pub run : S → Loop (Result Report × S)
    unfolding body guard
    run s = then_run (ended (guard b.prepare s)) (λ u s'. cleaned (body s'))
