-- ===== src/Profiling/Benchmark/Settled.antt =====
-- What the loops of a benchmark return, and that they do not clean up.
use mathlib.Core.Path.{subst}
use edge_shard_v.Shared.{
  ℕ, zero, suc, ◌≡◌, ◌∙◌, Bool, List, [], ◌∷◌, ◌++◌, Result, ok, err, Bool-cases, Result-cases, inl,
  inr,
}
use edge_shard_v.Shared.Exec.{Exec}
use edge_shard_v.Profiling.Benchmark.{
  SamplingState, DurationSamplingPolicy, should_continue, should_continue_warmup,
}
use edge_shard_v.Profiling.Benchmark.Harness.{
  Bench, Loop, ended, unfinished, guard, timed_iteration, measured_run, counted, measure,
  adaptive_warmup, fixed_warmup,
}
use edge_shard_v.Profiling.Benchmark.Bounds.{Ends}
use edge_shard_v.Profiling.Benchmark.Lifecycle.{then_run}
use edge_shard_v.Profiling.Benchmark.Quiet.{
  Returns, Any, counting, IsQuiet, guard-IsQuiet, timed_iteration-IsQuiet, measured_run-IsQuiet,
}

-- The loop, if it ended, has cleaned up `n` times, and returned what satisfies `P`.
abbrev Keeps : {S A : Type 0} → (A → Type 0) → ℕ → Loop (Result A × (S × ℕ)) → Type 0
Keeps P n unfinished = Unit
Keeps P n (ended (r, p)) = (p.1 ≡ n) × Returns P r

-- The same, and it has ended.
abbrev pub Settles : {S A : Type 0} → (A → Type 0) → ℕ → Loop (Result A × (S × ℕ)) → Type 0
Settles P n unfinished = ⊥
Settles P n (ended (r, p)) = (p.1 ≡ n) × Returns P r

pub Settles-of-Keeps :
    {S : Type 0} (P : List ℕ → Type 0) (n : ℕ) (l : Loop (Result (List ℕ) × (S × ℕ)))
    → Keeps Any n l
    → Ends P l
    → Settles P n l
Settles-of-Keeps P n unfinished k e = elim e [ ]
Settles-of-Keeps P n (ended (ok samples, p)) k e = (k.0, e)
Settles-of-Keeps P n (ended (err x, p)) k e = k

pub then_run-Settles :
    {S A B : Type 0} (P : A → Type 0) (Q : B → Type 0) (n : ℕ) (l : Loop (Result A × (S × ℕ)))
    (f : A → S × ℕ → Loop (Result B × (S × ℕ)))
    → Settles P n l
    → ((a : A) (p : S × ℕ) → p.1 ≡ n → P a → Settles Q n (f a p))
    → Settles Q n (then_run l f)
then_run-Settles P Q n unfinished f s h = elim s [ ]
then_run-Settles P Q n (ended (ok a, p)) f s h = h a p s.0 s.1
then_run-Settles P Q n (ended (err x, p)) f s h = s

pub step-Settles :
    {S A : Type 0} (P : A → Type 0) (n : ℕ) (m : Exec (S × ℕ) A) (p : S × ℕ)
    → IsQuiet P m
    → p.1 ≡ n
    → Settles P n (ended (m p))
step-Settles P n m p q e = ((q p).0 ∙ e, (q p).1)

module _ {S : Type 0} (b : Bench S) (c : DurationSamplingPolicy) where
  pub measure-Keeps :
      (n fuel : ℕ) (state : SamplingState) (samples : List ℕ) (p : S × ℕ)
      → p.1 ≡ n
      → Keeps Any n (measure (counting b) fuel c state samples p)
  unfolding measure
  measure-Keeps n zero state samples p e = tt
  measure-Keeps n (suc fuel) state samples p e = elim (Bool-cases (should_continue c state)) [
    | inr f ↦ rw (f, measure) (e, tt)
    | inl f ↦ elim (Result-cases (measured_run (counting b) p).0) [
      | inr (x, g) ↦
          rw (f, measure, g)
            (
              (measured_run-IsQuiet b p).0 ∙ e,
              subst (λ r. Returns Any r) g (measured_run-IsQuiet b p).1,
            )
      | inl (elapsed, g) ↦
          rw (f, measure, g)
            (measure-Keeps n fuel (counted b state elapsed) (samples ++ elapsed ∷ [])
              (measured_run (counting b) p).1 ((measured_run-IsQuiet b p).0 ∙ e))
    ]
  ]

  pub fixed_warmup-Keeps :
      (k n : ℕ) (p : S × ℕ) → p.1 ≡ n → Settles Any n (ended (fixed_warmup (counting b) k p))
  unfolding fixed_warmup
  fixed_warmup-Keeps zero n p e = (e, tt)
  fixed_warmup-Keeps (suc k) n p e = elim (Result-cases (guard (counting b).run_once p).0) [
    | inr (x, g) ↦
        rw (fixed_warmup, g)
          (
            (guard-IsQuiet b.run_once p).0 ∙ e,
            subst (λ r. Returns Any r) g (guard-IsQuiet b.run_once p).1,
          )
    | inl (u, g) ↦
        rw (fixed_warmup, g)
          (fixed_warmup-Keeps k n (guard (counting b).run_once p).1
            ((guard-IsQuiet b.run_once p).0 ∙ e))
  ]

  module _ (exceeds : List ℕ → List ℕ → Bool) where
    pub warmup-Keeps :
        (n fuel : ℕ) (samples : List ℕ) (p : S × ℕ)
        → p.1 ≡ n
        → Keeps Any n (adaptive_warmup (counting b) exceeds fuel c samples p)
    unfolding adaptive_warmup
    warmup-Keeps n zero samples p e = tt
    warmup-Keeps n (suc fuel) samples p e =
        elim (Bool-cases (should_continue_warmup exceeds c samples)) [
          | inr f ↦ rw (f, adaptive_warmup) (e, tt)
          | inl f ↦ elim (Result-cases (timed_iteration (counting b) p).0) [
            | inr (x, g) ↦
                rw (f, adaptive_warmup, g)
                  (
                    (timed_iteration-IsQuiet b p).0 ∙ e,
                    subst (λ r. Returns Any r) g (timed_iteration-IsQuiet b p).1,
                  )
            | inl (elapsed, g) ↦
                rw (f, adaptive_warmup, g)
                  (warmup-Keeps n fuel (samples ++ elapsed ∷ []) (timed_iteration (counting b) p).1
                    ((timed_iteration-IsQuiet b p).0 ∙ e))
          ]
        ]
