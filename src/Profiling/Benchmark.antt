-- ===== src/Profiling/Benchmark.antt =====
-- src/edgeshard/profiling/benchmark/sampling.py: how many runs a benchmark makes. Durations are natural
-- numbers in one unit; the comparison of the medians of two windows, which are floats, is a parameter.
pub mod Harness
pub mod Bounds
pub mod Lifecycle
pub mod Quiet
pub mod Settled
pub mod Cleanup
use edge_shard_v.Shared.{
  ℕ, zero, suc, ◌+◌, ◌-◌, ◌*◌, Bool, true, false, not, Option, none, some, List, [], ◌∷◌, Checked,
  ok, value_error, raise_if, ◌>>◌, leb, ltb, length, ◌&&◌, if◌then◌else◌,
}

pub record SamplingState : Type 0 where
  pub warmup_runs : ℕ
  pub measured_runs : ℕ
  pub accumulated_measurement : ℕ

-- The arguments of `DurationSamplingPolicy` after the constructor has chosen the defaults.
pub record DurationSamplingPolicy : Type 0 where
  pub min_warmups : ℕ
  pub max_warmups : ℕ
  pub window_size : ℕ
  pub stable_windows_required : ℕ
  pub legacy_fixed_warmup : Bool
  pub enforce_stationarity : Bool
  pub min_runs : ℕ
  pub max_runs : ℕ
  pub target_duration : ℕ

abbrev or_else : {A : Type 0} → Option A → A → A
or_else none a = a
or_else (some a) b = a

-- The choices of the constructor.
abbrev is_legacy_fixed : Option ℕ → Option ℕ → Bool
is_legacy_fixed (some n) none = true
is_legacy_fixed _ _ = false

unfoldable pub warmup_limits : ℕ → Option ℕ → Option ℕ → ℕ × ℕ
warmup_limits min_warmup_runs max_warmup_runs min_warmups =
    let least = or_else min_warmups min_warmup_runs in
    (
      least,
      or_else max_warmup_runs (if is_legacy_fixed min_warmups max_warmup_runs then least else 50),
    )

unfoldable pub check_sampling_policy : DurationSamplingPolicy → Checked
check_sampling_policy c = do
  raise_if (ltb c.max_warmups c.min_warmups) value_error
  raise_if (ltb c.window_size 1) value_error
  raise_if (ltb c.stable_windows_required 1) value_error
  raise_if (ltb c.min_runs 1) value_error
  raise_if (ltb c.max_runs c.min_runs) value_error
  raise_if (leb c.target_duration 0) value_error

abbrev drop : ℕ → List ℕ → List ℕ
drop zero xs = xs
drop (suc n) [] = []
drop (suc n) (x ∷ xs) = drop n xs

abbrev take : ℕ → List ℕ → List ℕ
take zero xs = []
take (suc n) [] = []
take (suc n) (x ∷ xs) = x ∷ take n xs

-- `samples[first:end]`
unfoldable pub slice : ℕ → ℕ → List ℕ → List ℕ
slice first end samples = take (end - first) (drop first samples)

unfoldable pub should_continue : DurationSamplingPolicy → SamplingState → Bool
should_continue c state =
    if leb c.max_runs state.measured_runs
    then false
    else if ltb state.measured_runs c.min_runs
    then true
    else ltb state.accumulated_measurement c.target_duration

-- `exceeds current previous`: the medians differ by more than the tolerance.
module _ (exceeds : List ℕ → List ℕ → Bool) where
  -- The comparison of the two windows that end `offset` samples before the end.
  abbrev is_stable : DurationSamplingPolicy → List ℕ → ℕ → Bool
  is_stable c samples offset =
      let end = length samples - offset in
      not (
        exceeds (slice (end - c.window_size) end samples)
          (slice (end - 2 * c.window_size) (end - c.window_size) samples))

  unfoldable pub all_stable : DurationSamplingPolicy → List ℕ → ℕ → Bool
  unfolding slice
  all_stable c samples zero = true
  all_stable c samples (suc offset) = all_stable c samples offset && is_stable c samples offset

  unfoldable pub warmup_converged : DurationSamplingPolicy → List ℕ → Bool
  unfolding all_stable
  warmup_converged c samples =
      if c.legacy_fixed_warmup
      then leb c.min_warmups (length samples)
      else leb c.min_warmups (length samples)
        && leb (2 * c.window_size + c.stable_windows_required - 1) (length samples)
        && all_stable c samples c.stable_windows_required

  unfoldable pub should_continue_warmup : DurationSamplingPolicy → List ℕ → Bool
  unfolding warmup_converged
  should_continue_warmup c samples =
      if ltb (length samples) c.min_warmups
      then true
      else if warmup_converged c samples
      then false
      else ltb (length samples) c.max_warmups
