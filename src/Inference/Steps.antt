-- ===== src/Inference/Steps.antt =====
-- `ShardModule.prefill` and `decode` of src/edgeshard/inference/shard.py, with `_enter` and
-- `_advance`. The tensor operations of the adapter are a parameter, the record `Kernel`: hidden
-- states, logits and caches are opaque, and each operation may raise. `.to(device)` is left out.
pub mod History
pub mod Order
use edge_shard_v.Shared.{
  ℕ, ◌+◌, String, Bool, true, false, ◌&&◌, ◌==ₙ◌, not, ltb, Option, none, some, List, [], ◌∷◌,
  Result, ok, err, value_error, session_error, if◌then◌else◌,
}
use edge_shard_v.Shared.Dict.{put}
use edge_shard_v.Inference.Spec.{ShardSpec}
use edge_shard_v.Inference.Protocol.{InferencePhase, prefill, decode, LogitsMode, full, last_token}
use edge_shard_v.Inference.Sessions.{ShardSession, ShardModule, session}

-- What the adapter and the tensors do. `forward_blocks` takes the hidden states, the position of the
-- first of them and the cache, which it changes in place, also where it raises.
pub record Kernel (Cache Hidden Logits : Type 0) : Type 0 where
  pub batch_size : Hidden → ℕ
  pub length : Hidden → ℕ
  pub embed_tokens : List ℕ → Result Hidden
  pub forward_blocks : Hidden → ℕ → Cache → Result Hidden × Cache
  pub last_position : Hidden → Hidden
  pub finalize : Hidden → Result Logits

-- `positions`, which is the range from `past_length` of the length of the step, is left out.
pub record ExecutionContext : Type 0 where
  pub phase : InferencePhase
  pub step : ℕ
  pub batch_size : ℕ
  pub sequence_length : ℕ
  pub past_length : ℕ

pub data ShardResult (Hidden Logits : Type 0) : Type 0 where
  shard_state : Hidden → ExecutionContext → ShardResult Hidden Logits
  logits_output : Logits → ExecutionContext → ShardResult Hidden Logits

abbrev pub wants_last : LogitsMode → Bool
wants_last full = false
wants_last last_token = true

module _ {Cache Hidden Logits : Type 0} (k : Kernel Cache Hidden Logits) where
  abbrev write : String → ShardSession Cache → ShardModule Cache → ShardModule Cache
  write i s m = record m { sessions = put i s m.sessions }

  abbrev with_context : Result Logits → ExecutionContext → Result (ShardResult Hidden Logits)
  with_context (err x) context = err x
  with_context (ok logits) context = ok (logits_output logits context)

  -- The output stage projects the last position only, where that is asked for.
  abbrev emit : Bool → LogitsMode → Hidden → ExecutionContext → Result (ShardResult Hidden Logits)
  emit false mode hidden context = ok (shard_state hidden context)
  emit true mode hidden context =
      with_context
        (k.finalize
          (if wants_last mode && ltb 1 (k.length hidden) then k.last_position hidden else hidden))
        context

  -- The session after the blocks have run over `count` positions.
  abbrev pub advanced : ℕ → Cache → ShardSession Cache → ShardSession Cache
  advanced count cache s = record s {
    kv_cache = cache;
    sequence_length = s.sequence_length + count;
    step = s.step + 1;
  }

  abbrev context_of : InferencePhase → Hidden → ℕ → ShardSession Cache → ExecutionContext
  context_of phase hidden past s = record {
    phase = phase;
    step = s.step;
    batch_size = k.batch_size hidden;
    sequence_length = s.sequence_length;
    past_length = past;
  }

  abbrev after_blocks :
      String
      → ShardSession Cache
      → ℕ
      → InferencePhase
      → LogitsMode
      → Result Hidden × Cache
      → ShardModule Cache
      → Result (ShardResult Hidden Logits) × ShardModule Cache
  after_blocks i s count phase mode (err x, cache) m =
      (err x, write i (record s { kv_cache = cache }) m)
  after_blocks i s count phase mode (ok hidden, cache) m =
      let s' = advanced count cache s in
      (
        emit m.shard_spec.include_output_stage mode hidden
            (context_of phase hidden s.sequence_length s'),
        write i s' m,
      )

  -- `_advance`
  unfoldable pub advance :
      String
      → ShardSession Cache
      → Hidden
      → InferencePhase
      → LogitsMode
      → ShardModule Cache
      → Result (ShardResult Hidden Logits) × ShardModule Cache
  advance i s hidden phase mode m =
      after_blocks i s (k.length hidden) phase mode
        (k.forward_blocks hidden s.sequence_length s.kv_cache) m

  -- `_enter`: an input shard takes token ids, and any other takes hidden states.
  unfoldable pub enter : Bool → Option (List ℕ) → Option Hidden → Result Hidden
  enter true (some ids) none = k.embed_tokens ids
  enter true (some ids) (some hidden) = err value_error
  enter true none hidden_states = err value_error
  enter false none (some hidden) = ok hidden
  enter false none none = err value_error
  enter false (some ids) hidden_states = err value_error

  abbrev entered :
      Result Hidden
      → String
      → ShardSession Cache
      → InferencePhase
      → LogitsMode
      → ShardModule Cache
      → Result (ShardResult Hidden Logits) × ShardModule Cache
  entered (err x) i s phase mode m = (err x, m)
  entered (ok hidden) i s phase mode m = advance i s hidden phase mode m

  abbrev prefill_in :
      Result (ShardSession Cache)
      → String
      → Option (List ℕ)
      → Option Hidden
      → LogitsMode
      → ShardModule Cache
      → Result (ShardResult Hidden Logits) × ShardModule Cache
  prefill_in (err x) i input_ids hidden_states mode m = (err x, m)
  prefill_in (ok s) i input_ids hidden_states mode m =
      if not (s.step ==ₙ 0)
      then (err session_error, m)
      else entered (enter m.shard_spec.include_input_stage input_ids hidden_states) i s prefill mode
          m

  unfoldable pub run_prefill :
      String
      → Option (List ℕ)
      → Option Hidden
      → LogitsMode
      → ShardModule Cache
      → Result (ShardResult Hidden Logits) × ShardModule Cache
  unfolding enter advance session
  run_prefill i input_ids hidden_states mode m =
      prefill_in (session i m) i input_ids hidden_states mode m

  abbrev pub one_token : Option ℕ → Option (List ℕ)
  one_token none = none
  one_token (some token) = some (token ∷ [])

  abbrev decode_in :
      Result (ShardSession Cache)
      → String
      → Option ℕ
      → Option Hidden
      → ShardModule Cache
      → Result (ShardResult Hidden Logits) × ShardModule Cache
  decode_in (err x) i token_id hidden_states m = (err x, m)
  decode_in (ok s) i token_id hidden_states m =
      if s.step ==ₙ 0
      then (err session_error, m)
      else entered (enter m.shard_spec.include_input_stage (one_token token_id) hidden_states) i s
          decode full m

  unfoldable pub run_decode :
      String
      → Option ℕ
      → Option Hidden
      → ShardModule Cache
      → Result (ShardResult Hidden Logits) × ShardModule Cache
  unfolding enter advance session
  run_decode i token_id hidden_states m = decode_in (session i m) i token_id hidden_states m
