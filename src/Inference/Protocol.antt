-- ===== src/Inference/Protocol.antt =====
-- src/edgeshard/protocol/domain.py: the message header and the test that a shard runtime puts every
-- inbound forward message to. Payload and tensors do not enter it.
pub mod Acceptance
use edge_shard_v.Shared.{
  ℕ, ◌-◌, String, Bool, true, false, ◌==◌, ◌==ₙ◌, not, Checked, ok, protocol_error,
  sequencing_error, raise_if, ◌>>=◌, ◌>>◌, is_empty, if◌then◌else◌,
}
use edge_shard_v.Shared.Int.{ℤ, pos, negsuc, pred_ℤ, eqb_ℤ, ltb_ℤ}

pub data InferencePhase : Type 0 where
  prefill decode : InferencePhase

pub data LogitsMode : Type 0 where
  full last_token : LogitsMode

-- `a is b`
abbrev pub same_phase : InferencePhase → InferencePhase → Bool
same_phase prefill prefill = true
same_phase decode decode = true
same_phase prefill decode = false
same_phase decode prefill = false

abbrev pub protocol_version : ℤ
protocol_version = pos 1

pub record ShardMessageHeader : Type 0 where
  pub protocol_version : ℤ
  pub execution_id : String
  pub session_id : String
  pub request_id : String
  pub phase : InferencePhase
  pub step : ℤ
  pub source_stage : ℤ
  pub target_stage : ℤ
  pub logits_mode : LogitsMode

pub record MessageExpectation : Type 0 where
  pub execution_id : String
  pub stage_index : ℤ
  pub next_step : ℤ
  pub session_open : Bool

-- `InferencePhase.PREFILL if step == 0 else InferencePhase.DECODE`
unfoldable pub expected_phase : ℤ → InferencePhase
unfolding eqb_ℤ
expected_phase step = if eqb_ℤ step (pos 0) then prefill else decode

-- A message is its header and the phase of its context, `message.context.phase`.
unfoldable pub validate_forward_message :
    ShardMessageHeader → InferencePhase → MessageExpectation → Checked
unfolding expected_phase eqb_ℤ ltb_ℤ pred_ℤ
validate_forward_message header context_phase expectation = do
  raise_if (not (eqb_ℤ header.protocol_version protocol_version)) protocol_error
  raise_if (is_empty header.execution_id) protocol_error
  raise_if (is_empty header.session_id) protocol_error
  raise_if (is_empty header.request_id) protocol_error
  raise_if (not (header.execution_id == expectation.execution_id)) protocol_error
  raise_if (not expectation.session_open) protocol_error
  raise_if (not (eqb_ℤ header.target_stage expectation.stage_index)) protocol_error
  raise_if (not (eqb_ℤ header.source_stage (pred_ℤ expectation.stage_index))) protocol_error
  raise_if (ltb_ℤ header.step (pos 0)) sequencing_error
  raise_if (not (same_phase header.phase (expected_phase header.step))) sequencing_error
  raise_if (not (eqb_ℤ header.step expectation.next_step)) sequencing_error
  raise_if (not (same_phase context_phase header.phase)) protocol_error
