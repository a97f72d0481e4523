-- ===== src/Profiling/Benchmark/Cleanup.antt =====
-- A benchmark ends, frees its workload once, and fails only with a typed error.
use edge_shard_v.Shared.{
  ℕ, String, suc, ◌+◌, ◌≡◌, refl, Bool, true, false, not, List, [], ◌∷◌, Result, ok, err,
  profiling_error, cancelled_error, is_ok, Bool-cases, Result-cases, inl, inr, if◌then◌else◌, ◌&&◌,
  arith,
}
use edge_shard_v.Profiling.Benchmark.{DurationSamplingPolicy, check_sampling_policy}
use edge_shard_v.Profiling.Benchmark.Harness.{
  Bench, Loop, ended, unfinished, guard, guard_optional, new_state, measure, adaptive_warmup,
  fixed_warmup,
}
use edge_shard_v.Profiling.Benchmark.Bounds.{
  IsComplete, measure_completes, IsWarm, warmup_completes,
}
use edge_shard_v.Profiling.Benchmark.Lifecycle.{
  Report, finished, judged, validate_environment, warmup, open_instruments, close_instruments, body,
  cleaned, run,
}
use edge_shard_v.Profiling.Benchmark.Quiet.{
  guard_exception-IsTyped, Returns, Any, counting, IsQuiet, guard-IsQuiet, guard_optional-IsQuiet,
  bind-IsQuiet,
}
use edge_shard_v.Profiling.Benchmark.Settled.{
  Settles, Settles-of-Keeps, then_run-Settles, step-Settles, measure-Keeps, fixed_warmup-Keeps,
  warmup-Keeps,
}

abbrev pub IsSound : DurationSamplingPolicy → Report → Type 0
IsSound c report = IsComplete c report.samples × (report.warmup_converged ≡ true)

sampled-Returns :
    (P : Report → Type 0) (report : Report) (samples : List ℕ)
    → P report
    → Returns P (elim samples as (λ xs. Result Report) [
      | [] ↦ err (profiling_error "benchmark_failed")
      | x ∷ xs ↦ ok report
    ])
sampled-Returns P report [] h = tt
sampled-Returns P report (x ∷ xs) h = h

finished-Returns :
    (P : Report → Type 0) (r : Result Report) (cleanup : Result (Unit {0}))
    → Returns P r
    → Returns P (finished r cleanup)
finished-Returns P (ok report) (ok u) h = sampled-Returns P report report.samples h
finished-Returns P (ok report) (err cancelled_error) h = tt
finished-Returns P (ok report) (err _) h = tt
finished-Returns P (err x) (ok u) h = h
finished-Returns P (err x) (err cancelled_error) h = tt
finished-Returns P (err x) (err _) h = h

Returns-all :
    {A : Type 0} (P : A → Type 0) (r : Result A) → ((a : A) → P a) → Returns Any r → Returns P r
Returns-all P (ok a) f h = f a
Returns-all P (err x) f h = h

refused_or-Returns :
    {A : Type 0} (P : A → Type 0) (t : Bool) (category : String) (a : A)
    → P a
    → Returns P (if t then err (profiling_error category) else ok a)
refused_or-Returns P true category a h = tt
refused_or-Returns P false category a h = h

-- One cleanup follows.
cleaned-Settles :
    {S : Type 0} (exceeds : List ℕ → List ℕ → Bool) (stationary : List ℕ → Bool) (b : Bench S)
    (c : DurationSamplingPolicy) (P : Report → Type 0) (n : ℕ) (l : Loop (Result Report × (S × ℕ)))
    → Settles P n l
    → Settles P (n + 1) (cleaned exceeds stationary (counting b) c l)
cleaned-Settles exceeds stationary b c P n unfinished s = elim s [ ]
cleaned-Settles exceeds stationary b c P n (ended (r, p)) s =
    (omega (arith, s.0), finished-Returns P r (b.cleanup p.0).0 s.1)

module _ {S : Type 0} (b : Bench S) (c : DurationSamplingPolicy)
    (valid : check_sampling_policy c ≡ ok tt) (exceeds : List ℕ → List ℕ → Bool)
    (stationary : List ℕ → Bool) where
  validate_environment-IsQuiet :
      IsQuiet Any (validate_environment exceeds stationary (counting b) c)
  unfolding validate_environment
  validate_environment-IsQuiet =
      bind-IsQuiet Any Any (guard_optional (counting b).environment_check) _
        (guard_optional-IsQuiet b.environment_check)
        (λ u k. guard_optional-IsQuiet b.capture_initial)

  open_instruments-IsQuiet :
      (converged : Bool)
      → IsQuiet
          (λ u. converged ≡ true)
          (open_instruments exceeds stationary (counting b) c converged)
  unfolding open_instruments
  open_instruments-IsQuiet false = λ p. (refl, tt)
  open_instruments-IsQuiet true =
      bind-IsQuiet Any (λ u. true ≡ true) (guard (counting b).reset) _ (guard-IsQuiet b.reset)
        (λ u k.
          bind-IsQuiet Any (λ u'. true ≡ true) (guard_optional (counting b).open_memory) _
            (guard_optional-IsQuiet b.open_memory)
            (λ u' k' p.
              let q = guard_optional-IsQuiet b.open_physical p in
              (
                q.0,
                Returns-all (λ u''. true ≡ true) (guard_optional (counting b).open_physical p).0
                    (λ a. refl) q.1,
              )))

  judged-Returns :
      (reliable : Bool) (warm : List ℕ × Bool) (samples : List ℕ)
      → warm.1 ≡ true
      → IsComplete c samples
      → Returns (IsSound c) (judged exceeds stationary c reliable warm samples)
  unfolding judged
  judged-Returns reliable warm samples e h = refused_or-Returns (IsSound c) _ _ _ (h, e)

  close_instruments-IsQuiet :
      (warm : List ℕ × Bool) (samples : List ℕ)
      → warm.1 ≡ true
      → IsComplete c samples
      → IsQuiet (IsSound c) (close_instruments exceeds stationary (counting b) c warm samples)
  unfolding close_instruments
  close_instruments-IsQuiet warm samples e h =
      bind-IsQuiet Any (IsSound c) (guard_optional (counting b).close_memory) _
        (guard_optional-IsQuiet b.close_memory)
        (λ u k.
          bind-IsQuiet Any (IsSound c) (guard_optional (counting b).close_physical) _
            (guard_optional-IsQuiet b.close_physical)
            (λ u' k'.
              bind-IsQuiet Any (IsSound c) (guard_optional (counting b).capture_final) _
                (guard_optional-IsQuiet b.capture_final)
                (λ u'' k'' p. (refl, judged-Returns b.stationarity_reliable warm samples e h))))

  warmup-Settles :
      (n : ℕ) (p : S × ℕ) → p.1 ≡ n → Settles Any n (warmup exceeds stationary (counting b) c p)
  unfolding warmup
  warmup-Settles n p e = elim (Bool-cases (not c.legacy_fixed_warmup && b.stationarity_reliable)) [
    | inl f ↦ rw (f) (
        then_run-Settles (IsWarm (counting b) c valid exceeds) Any n
          (adaptive_warmup (counting b) exceeds (suc c.max_warmups) c [] p) _
          (Settles-of-Keeps (IsWarm (counting b) c valid exceeds) n
            (adaptive_warmup (counting b) exceeds (suc c.max_warmups) c [] p)
            (warmup-Keeps b c exceeds n (suc c.max_warmups) [] p e)
            (warmup_completes (counting b) c valid exceeds p))
          (λ samples p' e' k. (e', tt)))
    | inr f ↦ rw (f) (
        then_run-Settles Any Any n (ended (fixed_warmup (counting b) c.min_warmups p)) _
          (fixed_warmup-Keeps b c c.min_warmups n p e) (λ u p' e' k. (e', tt)))
  ]

  measure-Settles :
      (n : ℕ) (p : S × ℕ)
      → p.1 ≡ n
      → Settles (IsComplete c) n (measure (counting b) (suc c.max_runs) c (new_state c) [] p)
  measure-Settles n p e =
      Settles-of-Keeps (IsComplete c) n (measure (counting b) (suc c.max_runs) c (new_state c) [] p)
        (measure-Keeps b c n (suc c.max_runs) (new_state c) [] p e)
        (measure_completes (counting b) c valid p)

  body-Settles :
      (n : ℕ) (p : S × ℕ)
      → p.1 ≡ n
      → Settles (IsSound c) n (body exceeds stationary (counting b) c p)
  unfolding body
  body-Settles n p e =
      then_run-Settles Any (IsSound c) n
        (ended (validate_environment exceeds stationary (counting b) c p)) _
        (step-Settles Any n (validate_environment exceeds stationary (counting b) c) p
          validate_environment-IsQuiet e)
        (λ u p₁ e₁ k₁.
          then_run-Settles Any (IsSound c) n (warmup exceeds stationary (counting b) c p₁) _
            (warmup-Settles n p₁ e₁)
            (λ warm p₂ e₂ k₂.
              then_run-Settles (λ u'. warm.1 ≡ true) (IsSound c) n
                (ended (open_instruments exceeds stationary (counting b) c warm.1 p₂)) _
                (step-Settles (λ u'. warm.1 ≡ true) n
                  (open_instruments exceeds stationary (counting b) c warm.1) p₂
                  (open_instruments-IsQuiet warm.1) e₂)
                (λ u' p₃ e₃ converged.
                  then_run-Settles (IsComplete c) (IsSound c) n
                    (measure (counting b) (suc c.max_runs) c (new_state c) [] p₃) _
                    (measure-Settles n p₃ e₃)
                    (λ samples p₄ e₄ complete.
                      step-Settles (IsSound c) n
                        (close_instruments exceeds stationary (counting b) c warm samples) p₄
                        (close_instruments-IsQuiet warm samples converged complete) e₄))))

  -- With a policy that its constructor accepts, a benchmark over any workload and instruments ends within
  -- the fuel that `run` gives its loops. It calls the cleanup of its workload once if the preparation
  -- succeeded, and never otherwise. It ends with a report of at least `min_runs` and at most `max_runs`
  -- runs after a warmup that converged, or with an exception that is a `ProfilingError` or a cancellation.
  pub run_cleans_up :
      (s : S)
      → Settles
          (IsSound c)
          (if is_ok (b.prepare s).0 then 1 else 0)
          (run exceeds stationary (counting b) c (s, 0))
  unfolding run guard
  run_cleans_up s = elim (Result-cases (b.prepare s).0) [
    | inl (u, f) ↦ rw (f) (
        cleaned-Settles exceeds stationary b c (IsSound c) 0
          (body exceeds stationary (counting b) c ((b.prepare s).1, 0))
          (body-Settles 0 ((b.prepare s).1, 0) refl))
    | inr (x, f) ↦ rw (f) (refl, guard_exception-IsTyped x)
  ]
