-- ===== src/Profiling/Benchmark/Quiet.antt =====
-- The steps of a benchmark that do not clean up, and what they raise.
use edge_shard_v.Shared.{
  ℕ, ◌+◌, ◌≡◌, refl, ◌∙◌, Bool, true, false, Option, none, some, Result, ok, err, Exception,
  profiling_error, cancelled_error, if◌then◌else◌,
}
use edge_shard_v.Shared.Exec.{Exec, resume, ◌>>=◌}
use edge_shard_v.Profiling.Benchmark.Harness.{
  Bench, guard_exception, guard, guard_optional, timed_iteration, measured_run,
}

abbrev pub IsTyped : Exception → Type 0
IsTyped (profiling_error category) = Unit
IsTyped cancelled_error = Unit
IsTyped _ = ⊥

-- What a step returns satisfies `P`, and an exception that leaves it is typed.
abbrev pub Returns : {A : Type 0} → (A → Type 0) → Result A → Type 0
Returns P (ok a) = P a
Returns P (err x) = IsTyped x

abbrev pub Any : {A : Type 0} → A → Type 0
Any a = Unit

pub guard_exception-IsTyped : (x : Exception) → IsTyped (guard_exception x)
unfolding guard_exception
guard_exception-IsTyped (profiling_error category) = tt
guard_exception-IsTyped cancelled_error = tt
guard_exception-IsTyped _ = tt

-- The operations over a state that counts the cleanups beside the state of the workload.
module _ {S : Type 0} where
  abbrev tallied : {A : Type 0} → Exec S A → Exec (S × ℕ) A
  tallied m p = ((m p.0).0, ((m p.0).1, p.1))

  abbrev tallied_optional : Option (Exec S (Unit {0})) → Option (Exec (S × ℕ) (Unit {0}))
  tallied_optional none = none
  tallied_optional (some m) = some (tallied m)

  abbrev pub counting : Bench S → Bench (S × ℕ)
  counting b = record {
    prepare = tallied b.prepare;
    reset = tallied b.reset;
    cleanup = λ p. ((b.cleanup p.0).0, ((b.cleanup p.0).1, p.1 + 1));
    run_once = tallied b.run_once;
    start = tallied b.start;
    stop = tallied b.stop;
    is_valid = b.is_valid;
    poll_physical = tallied_optional b.poll_physical;
    environment_check = tallied_optional b.environment_check;
    capture_initial = tallied_optional b.capture_initial;
    capture_final = tallied_optional b.capture_final;
    open_memory = tallied_optional b.open_memory;
    close_memory = tallied_optional b.close_memory;
    open_physical = tallied_optional b.open_physical;
    close_physical = tallied_optional b.close_physical;
    stationarity_reliable = b.stationarity_reliable;
  }

  -- The step cleans nothing up, and raises typed errors only.
  abbrev pub IsQuiet : {A : Type 0} → (A → Type 0) → Exec (S × ℕ) A → Type 0
  IsQuiet P m = (p : S × ℕ) → ((m p).1.1 ≡ p.1) × Returns P (m p).0

  guard-Returns :
      {A : Type 0} (m : Exec S A) (p : S × ℕ) (r : Result A)
      → (m p.0).0 ≡ r
      → Returns Any (guard (tallied m) p).0
  unfolding guard
  guard-Returns m p (ok a) e = rw (e) tt
  guard-Returns m p (err x) e = rw (e) (guard_exception-IsTyped x)

  pub guard-IsQuiet : {A : Type 0} (m : Exec S A) → IsQuiet Any (guard (tallied m))
  unfolding guard
  guard-IsQuiet m p = (refl, guard-Returns m p (m p.0).0 refl)

  pub guard_optional-IsQuiet :
      (o : Option (Exec S (Unit {0}))) → IsQuiet Any (guard_optional (tallied_optional o))
  unfolding guard_optional
  guard_optional-IsQuiet none p = (refl, tt)
  guard_optional-IsQuiet (some m) p = guard-IsQuiet m p

  resume-IsQuiet :
      {A B : Type 0} (P : A → Type 0) (Q : B → Type 0) (r : Result A) (f : A → Exec (S × ℕ) B)
      → Returns P r
      → ((a : A) → P a → IsQuiet Q (f a))
      → IsQuiet Q (resume r f)
  resume-IsQuiet P Q (ok a) f q h p = h a q p
  resume-IsQuiet P Q (err x) f q h p = (refl, q)

  pub bind-IsQuiet :
      {A B : Type 0} (P : A → Type 0) (Q : B → Type 0) (m : Exec (S × ℕ) A) (f : A → Exec (S × ℕ) B)
      → IsQuiet P m
      → ((a : A) → P a → IsQuiet Q (f a))
      → IsQuiet Q (m >>= f)
  bind-IsQuiet P Q m f q h p =
      let next = resume-IsQuiet P Q (m p).0 f (q p).1 h (m p).1 in (next.0 ∙ (q p).0, next.1)

module _ {S : Type 0} (b : Bench S) where
  checked-IsQuiet :
      (t : Bool) (n : ℕ)
      → Returns Any (if t then ok n else err (profiling_error "benchmark_failed"))
  checked-IsQuiet true n = tt
  checked-IsQuiet false n = tt

  pub timed_iteration-IsQuiet : IsQuiet Any (timed_iteration (counting b))
  unfolding timed_iteration
  timed_iteration-IsQuiet =
      bind-IsQuiet Any Any (guard (counting b).start) _ (guard-IsQuiet b.start) (λ u k.
        bind-IsQuiet Any Any (guard (counting b).run_once) _ (guard-IsQuiet b.run_once) (λ u' k'.
          bind-IsQuiet Any Any (guard (counting b).stop) _ (guard-IsQuiet b.stop)
            (λ n k'' p. (refl, checked-IsQuiet (b.is_valid n) n))))

  pub measured_run-IsQuiet : IsQuiet Any (measured_run (counting b))
  unfolding measured_run
  measured_run-IsQuiet =
      bind-IsQuiet Any Any (timed_iteration (counting b)) _ timed_iteration-IsQuiet (λ n k.
        bind-IsQuiet Any Any (guard_optional (counting b).poll_physical) _
          (guard_optional-IsQuiet b.poll_physical) (λ u k' p. (refl, tt)))
