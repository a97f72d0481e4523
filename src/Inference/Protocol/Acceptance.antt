-- ===== src/Inference/Protocol/Acceptance.antt =====
-- Which messages a stage runtime accepts.
use edge_shard_v.Shared.{
  ◌≡◌, ◌≢◌, ◌↔◌, refl, true, false, ok, arith, eq_iff, is_empty, Bool-cases, inl, inr,
}
use edge_shard_v.Shared.Int.{ℤ, pos, negsuc, eqb_ℤ, pred_ℤ, ltb_ℤ}
use edge_shard_v.Inference.Protocol.{
  ShardMessageHeader, InferencePhase, prefill, decode, MessageExpectation, protocol_version,
  expected_phase, same_phase, validate_forward_message,
}

eqb_ℤ-exact : (a b : ℤ) → eqb_ℤ a b ≡ true → a ≡ b
unfolding eqb_ℤ
eqb_ℤ-exact (pos a) (pos b) e = ground arith
eqb_ℤ-exact (pos a) (negsuc b) e = ground arith
eqb_ℤ-exact (negsuc a) (pos b) e = ground arith
eqb_ℤ-exact (negsuc a) (negsuc b) e = ground arith

same_phase-exact : (a b : InferencePhase) → same_phase a b ≡ true → a ≡ b
same_phase-exact prefill prefill e = refl
same_phase-exact decode decode e = refl
same_phase-exact prefill decode e = ground arith
same_phase-exact decode prefill e = ground arith

eqb_ℤ_refl : (a : ℤ) → eqb_ℤ a a ≡ true
unfolding eqb_ℤ
eqb_ℤ_refl (pos a) = ground arith
eqb_ℤ_refl (negsuc a) = ground arith

same_phase_refl : (a : InferencePhase) → same_phase a a ≡ true
same_phase_refl prefill = refl
same_phase_refl decode = refl

eqb_ℤ_of_eq : (a b : ℤ) → a ≡ b → eqb_ℤ a b ≡ true
eqb_ℤ_of_eq a b e = rw e (eqb_ℤ_refl b)

same_phase_of_eq : (a b : InferencePhase) → a ≡ b → same_phase a b ≡ true
same_phase_of_eq a b e = rw e (same_phase_refl b)

-- The first step is a prefill, and every other one a decode.
abbrev pub PhaseAt : ℤ → InferencePhase → Type 0
PhaseAt step prefill = step ≡ pos 0
PhaseAt step decode = step ≢ pos 0

PhaseAt-expected : (step : ℤ) (p : InferencePhase) → p ≡ expected_phase step → PhaseAt step p
unfolding expected_phase
PhaseAt-expected step prefill e = elim (Bool-cases (eqb_ℤ step (pos 0))) [
  | inl z ↦ eqb_ℤ-exact step (pos 0) z
  | inr z ↦ absurd (ground (arith, e, z))
]
PhaseAt-expected step decode e = λ z. absurd (ground (arith, e, eqb_ℤ_of_eq step (pos 0) z))

expected-PhaseAt : (step : ℤ) (p : InferencePhase) → PhaseAt step p → p ≡ expected_phase step
unfolding expected_phase
expected-PhaseAt step prefill e = rw (eqb_ℤ_of_eq step (pos 0) e) refl
expected-PhaseAt step decode e = elim (Bool-cases (eqb_ℤ step (pos 0))) [
  | inl z ↦ absurd (e (eqb_ℤ-exact step (pos 0) z))
  | inr z ↦ rw z refl
]

-- What the message must say, read off the expectation alone.
abbrev pub IsExpected : ShardMessageHeader → InferencePhase → MessageExpectation → Type 0
IsExpected h p x =
    (h.protocol_version ≡ protocol_version)
    × (h.execution_id ≡ x.execution_id)
    × (h.target_stage ≡ x.stage_index)
    × (h.source_stage ≡ pred_ℤ x.stage_index)
    × (h.step ≡ x.next_step)
    × PhaseAt x.next_step h.phase
    × (p ≡ h.phase)
    × (x.session_open ≡ true)
    × (ltb_ℤ x.next_step (pos 0) ≡ false)
    × (is_empty h.execution_id ≡ false)
    × (is_empty h.session_id ≡ false)
    × (is_empty h.request_id ≡ false)

abbrev Carries : ShardMessageHeader → InferencePhase → MessageExpectation → Type 0
Carries h p x =
    (h.protocol_version ≡ protocol_version)
    × (h.execution_id ≡ x.execution_id)
    × (h.target_stage ≡ x.stage_index)
    × (h.source_stage ≡ pred_ℤ x.stage_index)
    × (h.step ≡ x.next_step)
    × (h.phase ≡ expected_phase x.next_step)
    × (p ≡ h.phase)
    × (x.session_open ≡ true)
    × (ltb_ℤ x.next_step (pos 0) ≡ false)
    × (is_empty h.execution_id ≡ false)
    × (is_empty h.session_id ≡ false)
    × (is_empty h.request_id ≡ false)

-- The same with the phase of the step as the code computes it.
validate_lem :
    (h : ShardMessageHeader) (p : InferencePhase) (x : MessageExpectation)
    → (validate_forward_message h p x ≡ ok tt) ↔ Carries h p x
unfolding validate_forward_message
validate_lem h p x = (
  λ e. ground (
    arith,
    e,
    eq_iff h.execution_id x.execution_id,
    eqb_ℤ-exact h.protocol_version protocol_version,
    eqb_ℤ-exact h.target_stage x.stage_index,
    eqb_ℤ-exact h.source_stage (pred_ℤ x.stage_index),
    eqb_ℤ-exact h.step x.next_step,
    same_phase-exact h.phase (expected_phase h.step),
    same_phase-exact p h.phase,
  ),
  λ e. ground (
    arith,
    e,
    eq_iff h.execution_id x.execution_id,
    eqb_ℤ_of_eq h.protocol_version protocol_version,
    eqb_ℤ_of_eq h.target_stage x.stage_index,
    eqb_ℤ_of_eq h.source_stage (pred_ℤ x.stage_index),
    eqb_ℤ_of_eq h.step x.next_step,
    same_phase_of_eq h.phase (expected_phase h.step),
    same_phase_of_eq p h.phase,
  ),
)

-- A forward message is accepted exactly where it carries this protocol's version, the expected
-- execution and stage, comes from the stage before, is the very next step of an open session, which
-- is not negative, has the phase of that step (prefill at step 0 and decode at every other one) in its header and in
-- its context, and names its
-- execution, session and request.
pub validate-IsExpected :
    (h : ShardMessageHeader) (p : InferencePhase) (x : MessageExpectation)
    → (validate_forward_message h p x ≡ ok tt) ↔ IsExpected h p x
validate-IsExpected h p x = (
  λ e.
      let (
        version, execution, target, source, step, phase, same, opened, sign, named, session,
        request,
      ) =
        (validate_lem h p x).0 e in
      (
        version,
        execution,
        target,
        source,
        step,
        PhaseAt-expected x.next_step h.phase phase,
        same,
        opened,
        sign,
        named,
        session,
        request,
      ),
  λ e.
      let (
        version, execution, target, source, step, phase, same, opened, sign, named, session,
        request,
      ) =
        e in
      (validate_lem h p x).1 (
        version,
        execution,
        target,
        source,
        step,
        expected-PhaseAt x.next_step h.phase phase,
        same,
        opened,
        sign,
        named,
        session,
        request,
      ),
)
