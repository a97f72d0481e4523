-- ===== src/Inference/Partition.antt =====
-- `_validate_partition` of src/edgeshard/inference/pipeline.py, on what it reads of a stage: the
-- model type and block count of its layout, and its shard specification.
pub mod Coverage
use edge_shard_v.Shared.{
  ℕ, zero, suc, String, ◌==◌, ◌==ₙ◌, Bool, true, false, ◌&&◌, ◌||◌, not, List, [], ◌∷◌, Checked, ok,
  err, pipeline_error, raise_if, ◌>>=◌, ◌>>◌,
}
use edge_shard_v.Inference.Spec.{ShardSpec}

pub record Stage : Type 0 where
  pub model_type : String
  pub num_blocks : ℕ
  pub shard_spec : ShardSpec

-- `stages[-1]` of a list that begins with `s`.
abbrev pub last_of : Stage → List Stage → Stage
last_of s [] = s
last_of s (t ∷ ts) = last_of t ts

abbrev pub is_empty_list : List Stage → Bool
is_empty_list [] = true
is_empty_list (_ ∷ _) = false

-- The body of the loop at one stage; the tests `index == 0` and `index == len(stages) - 1` are the
-- two Booleans.
unfoldable pub check_stage : Stage → Bool → Bool → Stage → Checked
check_stage first is_first is_last s = do
  raise_if (not (s.num_blocks ==ₙ first.num_blocks) || not (s.model_type == first.model_type))
      pipeline_error
  raise_if (is_first && not s.shard_spec.include_input_stage) pipeline_error
  raise_if (is_last && not s.shard_spec.include_output_stage) pipeline_error
  raise_if (not is_first && s.shard_spec.include_input_stage) pipeline_error
  raise_if (not is_last && s.shard_spec.include_output_stage) pipeline_error

unfoldable pub check_stages : Stage → Bool → List Stage → Checked
unfolding check_stage
check_stages first is_first [] = ok tt
check_stages first is_first (s ∷ ss) =
    check_stage first is_first (is_empty_list ss) s >> check_stages first false ss

-- `for previous, current in pairwise(stages)`
unfoldable pub check_gaps : Stage → List Stage → Checked
check_gaps previous [] = ok tt
check_gaps previous (s ∷ ss) =
    raise_if (not (s.shard_spec.blocks.start ==ₙ previous.shard_spec.blocks.end)) pipeline_error
    >> check_gaps s ss

unfoldable pub validate_partition : List Stage → Checked
unfolding check_stages check_gaps
validate_partition [] = err pipeline_error
validate_partition (first ∷ rest) = do
  check_stages first true (first ∷ rest)
  raise_if (not (first.shard_spec.blocks.start ==ₙ 0)) pipeline_error
  raise_if (not ((last_of first rest).shard_spec.blocks.end ==ₙ first.num_blocks)) pipeline_error
  check_gaps first rest
