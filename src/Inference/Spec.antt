-- ===== src/Inference/Spec.antt =====
-- src/edgeshard/model/spec.py: half-open ranges of Transformer blocks. A negative start, which the
-- constructor refuses, is outside the type.
use edge_shard_v.Shared.{ℕ, ◌-◌, String, Bool, ◌&&◌, Checked, value_error, raise_if, ltb, leb}

pub record BlockRange : Type 0 where
  pub start : ℕ
  pub end : ℕ

unfoldable pub check_block_range : BlockRange → Checked
check_block_range r = raise_if (leb r.end r.start) value_error

-- `len(range)`
unfoldable pub size : BlockRange → ℕ
size r = r.end - r.start

-- `index in range`
unfoldable pub contains : BlockRange → ℕ → Bool
contains r index = leb r.start index && ltb index r.end

pub record ShardSpec : Type 0 where
  pub model_id : String
  pub blocks : BlockRange
  pub include_input_stage : Bool
  pub include_output_stage : Bool

unfoldable pub validate_bounds : ShardSpec → ℕ → Checked
validate_bounds s num_blocks = raise_if (ltb num_blocks s.blocks.end) value_error
