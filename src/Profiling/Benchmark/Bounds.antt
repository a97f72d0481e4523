-- ===== src/Profiling/Benchmark/Bounds.antt =====
-- The loops of a benchmark end, with as many runs as the policy allows.
use edge_shard_v.Shared.{
  ℕ, zero, suc, ◌+◌, ◌≤◌, ◌<◌, ◌≡◌, refl, Bool, true, false, List, [], ◌∷◌, ◌++◌, Result, ok, err,
  arith, length, length-append, Bool-cases, Result-cases, inl, inr, ◌⊎◌, leb,
}
use edge_shard_v.Profiling.Benchmark.{
  SamplingState, DurationSamplingPolicy, check_sampling_policy, should_continue,
  should_continue_warmup, warmup_converged,
}
use edge_shard_v.Profiling.Benchmark.Harness.{
  Bench, Loop, new_state, ended, unfinished, measured_run, counted, measure, timed_iteration,
  adaptive_warmup,
}

abbrev pub total : List ℕ → ℕ
total [] = 0
total (x ∷ xs) = x + total xs

total-append : (xs : List ℕ) (x : ℕ) → total (xs ++ x ∷ []) ≡ total xs + x
total-append [] x = omega arith
total-append (y ∷ ys) x = omega (arith, total-append ys x)

-- The state counts the samples.
abbrev Counts : SamplingState → List ℕ → Type 0
Counts state samples =
    (state.measured_runs ≡ length samples) × (state.accumulated_measurement ≡ total samples)

-- Enough runs and not too many, and the loop did not stop before its time.
abbrev pub IsComplete : DurationSamplingPolicy → List ℕ → Type 0
IsComplete c samples =
    (c.min_runs ≤ length samples)
    × (length samples ≤ c.max_runs)
    × ((length samples ≡ c.max_runs) ⊎ (c.target_duration ≤ total samples))

-- The loop ended, and what it returned satisfies `P`.
abbrev pub Ends : {S : Type 0} → (List ℕ → Type 0) → Loop (Result (List ℕ) × S) → Type 0
Ends P unfinished = ⊥
Ends P (ended (ok samples, s)) = P samples
Ends P (ended (err x, s)) = Unit

module _ {S : Type 0} (b : Bench S) (c : DurationSamplingPolicy)
    (valid : check_sampling_policy c ≡ ok tt) where
  stopped-IsComplete :
      (state : SamplingState) (samples : List ℕ)
      → Counts state samples
      → state.measured_runs ≤ c.max_runs
      → should_continue c state ≡ false
      → IsComplete c samples
  unfolding should_continue check_sampling_policy
  stopped-IsComplete state samples n small e =
      elim (Bool-cases (leb c.max_runs state.measured_runs)) [
        | inl full ↦
            let whole : length samples ≡ c.max_runs = ground (arith, full, small, n.0) in
            (ground (arith, whole, valid), omega (arith, whole), inl whole)
        | inr room ↦ (
          ground (arith, e, room, n.0),
          ground (arith, small, n.0),
          inr (ground (arith, e, room, n.0, n.1)),
        )
      ]

  not_full :
      (state : SamplingState)
      → should_continue c state ≡ true
      → state.measured_runs + 1 ≤ c.max_runs
  unfolding should_continue
  not_full state e = ground (arith, e)

  measure-Ends :
      (fuel : ℕ) (state : SamplingState) (samples : List ℕ) (s : S)
      → Counts state samples
      → state.measured_runs ≤ c.max_runs
      → c.max_runs < fuel + state.measured_runs
      → Ends (IsComplete c) (measure b fuel c state samples s)
  unfolding measure
  measure-Ends zero state samples s n small enough = absurd (omega (arith, small, enough))
  measure-Ends (suc fuel) state samples s n small enough =
      elim (Bool-cases (should_continue c state)) [
        | inr e ↦ rw (e, measure) (stopped-IsComplete state samples n small e)
        | inl e ↦ elim (Result-cases (measured_run b s).0) [
          | inr (x, f) ↦ rw (e, measure, f) tt
          | inl (elapsed, f) ↦
              rw (e, measure, f)
                (measure-Ends fuel (counted b state elapsed) (samples ++ elapsed ∷ [])
                  (measured_run b s).1
                  (
                    omega (arith, n.0, length-append samples (elapsed ∷ [])),
                    omega (arith, n.1, total-append samples elapsed),
                  )
                  (not_full state e) (omega (arith, enough)))
        ]
      ]

  -- With a policy that its constructor accepts, the measuring loop ends within `max_runs + 1` rounds of
  -- fuel. Where no run raises, it made at least `min_runs` and at most `max_runs` runs, and fewer than
  -- the maximum only where their durations add up to the target.
  pub measure_completes :
      (s : S) → Ends (IsComplete c) (measure b (suc c.max_runs) c (new_state c) [] s)
  measure_completes s =
      measure-Ends (suc c.max_runs) (new_state c) [] s (refl, refl) (omega arith) (omega arith)

  module _ (exceeds : List ℕ → List ℕ → Bool) where
    -- Between the two limits, and fewer than the upper one only where the samples have converged.
    abbrev pub IsWarm : List ℕ → Type 0
    IsWarm samples =
        (c.min_warmups ≤ length samples)
        × (length samples ≤ c.max_warmups)
        × ((length samples ≡ c.max_warmups) ⊎ (warmup_converged exceeds c samples ≡ true))

    settled-IsWarm :
        (samples : List ℕ)
        → length samples ≤ c.max_warmups
        → should_continue_warmup exceeds c samples ≡ false
        → IsWarm samples
    unfolding should_continue_warmup
    settled-IsWarm samples small e = elim (Bool-cases (warmup_converged exceeds c samples)) [
      | inl w ↦ (ground (arith, e), small, inr w)
      | inr w ↦ (ground (arith, e), small, inl (ground (arith, e, w, small)))
    ]

    unsettled :
        (samples : List ℕ) (elapsed : ℕ)
        → should_continue_warmup exceeds c samples ≡ true
        → length (samples ++ elapsed ∷ []) ≤ c.max_warmups
    unfolding should_continue_warmup check_sampling_policy
    unsettled samples elapsed e = ground (arith, e, valid, length-append samples (elapsed ∷ []))

    warmup-Ends :
        (fuel : ℕ) (samples : List ℕ) (s : S)
        → length samples ≤ c.max_warmups
        → c.max_warmups < fuel + length samples
        → Ends IsWarm (adaptive_warmup b exceeds fuel c samples s)
    unfolding adaptive_warmup
    warmup-Ends zero samples s small enough = absurd (omega (arith, small, enough))
    warmup-Ends (suc fuel) samples s small enough =
        elim (Bool-cases (should_continue_warmup exceeds c samples)) [
          | inr e ↦ rw (e, adaptive_warmup) (settled-IsWarm samples small e)
          | inl e ↦ elim (Result-cases (timed_iteration b s).0) [
            | inr (x, f) ↦ rw (e, adaptive_warmup, f) tt
            | inl (elapsed, f) ↦
                rw (e, adaptive_warmup, f)
                  (warmup-Ends fuel (samples ++ elapsed ∷ []) (timed_iteration b s).1
                    (unsettled samples elapsed e)
                    (omega (arith, enough, length-append samples (elapsed ∷ []))))
          ]
        ]

    -- The same of the warmup: it ends within `max_warmups + 1` rounds of fuel, with at least the least
    -- and at most the greatest number of runs, and below the greatest only where it has converged.
    pub warmup_completes :
        (s : S) → Ends IsWarm (adaptive_warmup b exceeds (suc c.max_warmups) c [] s)
    warmup_completes s = warmup-Ends (suc c.max_warmups) [] s (omega arith) (omega arith)
