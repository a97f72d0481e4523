-- ===== src/Examples/Inference.antt =====
-- A model of four blocks on two stages, and a session on them.
use edge_shard_v.Shared.Dict.{get}
use edge_shard_v.Shared.{
  Option, none, some, ◌+◌, arith, eq_iff, session_error, length, ◌↔◌, ℕ, ◌≡◌, ◌⊎◌, refl, true,
  false, List, [], ◌∷◌, ok, err, All, is_ok, value_error,
}
use edge_shard_v.Shared.Int.{pos, negsuc}
use edge_shard_v.Inference.Spec.{check_block_range}
use edge_shard_v.Inference.Partition.{Stage, validate_partition}
use edge_shard_v.Inference.Partition.Coverage.{executed, blocks_from, partition_covers}
use edge_shard_v.Inference.Protocol.{
  ShardMessageHeader, MessageExpectation, validate_forward_message, prefill, decode, full,
}
use edge_shard_v.Inference.Protocol.Acceptance.{IsExpected, validate-IsExpected}
use edge_shard_v.Inference.Sessions.{ShardSession, session, ShardModule, open_pipeline}
use edge_shard_v.Inference.Steps.{
  Kernel, ExecutionContext, shard_state, run_prefill, enter, advance,
}
use edge_shard_v.Inference.Generation.{Driven, generate}
use edge_shard_v.Inference.Generation.Count.{generate_count}
use edge_shard_v.Inference.Steps.History.{Call, decodes, creates, closes, run}
use edge_shard_v.Inference.Steps.Order.{prefill_once}
use edge_shard_v.Inference.Sessions.Rollback.{IsFresh, open_pipeline_outcome}

abbrev first_stage : Stage
first_stage = record {
  model_type = "qwen2";
  num_blocks = 4;
  shard_spec = record {
    model_id = "m";
    blocks = record { start = 0; end = 1 };
    include_input_stage = true;
    include_output_stage = false;
  };
}

abbrev last_stage : Stage
last_stage = record {
  model_type = "qwen2";
  num_blocks = 4;
  shard_spec = record {
    model_id = "m";
    blocks = record { start = 1; end = 4 };
    include_input_stage = false;
    include_output_stage = true;
  };
}

partition_covers_example : executed (first_stage ∷ last_stage ∷ []) ≡ blocks_from 0 4
unfolding validate_partition check_block_range
partition_covers_example = partition_covers first_stage (last_stage ∷ []) (refl, (refl, tt)) refl

abbrev header : ShardMessageHeader
header = record {
  protocol_version = pos 1;
  execution_id = "e";
  session_id = "s";
  request_id = "r";
  phase = decode;
  step = pos 3;
  source_stage = negsuc 0;
  target_stage = pos 0;
  logits_mode = full;
}

abbrev expectation : MessageExpectation
expectation = record {
  execution_id = "e";
  stage_index = pos 0;
  next_step = pos 3;
  session_open = true;
}

validate-IsExpected_example :
    (validate_forward_message header decode expectation ≡ ok tt)
    ↔ IsExpected header decode expectation
validate-IsExpected_example = validate-IsExpected header decode expectation

-- Two stages, of which the second cannot allocate a cache.
abbrev modules : List (ShardModule ℕ)
modules =
    record { shard_spec = first_stage.shard_spec; new_cache = ok 5; sessions = [] }
    ∷ record { shard_spec = last_stage.shard_spec; new_cache = err value_error; sessions = [] }
    ∷ []

open_pipeline_outcome_example :
    (((open_pipeline "s" modules).0 ≡ ok tt) × All (IsFresh "s") (open_pipeline "s" modules).1)
    ⊎ ((is_ok (open_pipeline "s" modules).0 ≡ false) × ((open_pipeline "s" modules).1 ≡ modules))
open_pipeline_outcome_example = open_pipeline_outcome "s" modules

-- Hidden states that are known by their number of positions only.
abbrev kernel : Kernel ℕ ℕ ℕ
kernel = record {
  batch_size = λ hidden. 1;
  length = λ hidden. hidden;
  embed_tokens = λ ids. ok 3;
  forward_blocks = λ hidden past cache. (ok hidden, cache + hidden);
  last_position = λ hidden. 1;
  finalize = λ hidden. ok hidden;
}

abbrev new_record : ShardSession ℕ
new_record = record { session_id = "s"; kv_cache = 0; sequence_length = 0; step = 0 }

abbrev input_module : ShardModule ℕ
input_module = record {
  shard_spec = first_stage.shard_spec;
  new_cache = ok 0;
  sessions = ("s", new_record) ∷ [];
}

abbrev context : ExecutionContext
context = record { phase = prefill; step = 1; batch_size = 1; sequence_length = 3; past_length = 0 }

abbrev prompt : Option (List ℕ)
prompt = some (7 ∷ 8 ∷ 9 ∷ [])

abbrev between : List (Call ℕ)
between = decodes "s" (some 4) none ∷ creates "t" ∷ closes "t" ∷ []

prefill_once_example :
    run_prefill kernel "s" prompt none full
      (run kernel (run_prefill kernel "s" prompt none full input_module).1 between)
    ≡ (
      err session_error,
      run kernel (run_prefill kernel "s" prompt none full input_module).1 between,
    )
unfolding run_prefill session enter advance get
prefill_once_example =
    prefill_once kernel "s" prompt none full input_module (shard_state 3 context) refl between
      (tt, (tt, (λ e. ground (arith, e, eq_iff "t" "s"), tt))) prompt none full

-- A pipeline whose next token is the number of its step.
abbrev counting : Driven ℕ ℕ
counting = record {
  prefill_prompt = λ steps. (ok steps, steps + 1);
  decode_token = λ token steps. (ok steps, steps + 1);
  argmax = λ logits. logits;
}

generate_count_example : (ts : List ℕ) × ((generate counting (pos 3) 0).0 ≡ ok ts) × (length ts ≡ 3)
generate_count_example = generate_count counting 3 0 (0, refl) (λ token steps. (steps, refl))
