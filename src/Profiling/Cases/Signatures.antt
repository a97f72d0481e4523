-- ===== src/Profiling/Cases/Signatures.antt =====
-- A specification that is accepted carries the one signature of its granularity.
use edge_shard_v.Shared.{◌≡◌, Bool, true, false, ok, arith}
use edge_shard_v.Profiling.Cases.{
  ProfilingGranularity, transformer_layer, module_level, operator_level, check_signatures,
}

-- Which signatures a granularity wants, and whether it wants a model.
abbrev pub Wants : ProfilingGranularity → Bool → Bool → Bool → Bool → Type 0
Wants transformer_layer model l m o = (l ≡ true) × (m ≡ false) × (o ≡ false) × (model ≡ true)
Wants module_level model l m o = (m ≡ true) × (l ≡ false) × (o ≡ false) × (model ≡ true)
Wants operator_level model l m o = (o ≡ true) × (l ≡ false) × (m ≡ false)

-- The test accepts only what the granularity wants: its own signature, no other, and a model except
-- for an operator.
pub check_signatures-Wants :
    (g : ProfilingGranularity) (model l m o : Bool)
    → check_signatures g model l m o ≡ ok tt
    → Wants g model l m o
unfolding check_signatures
check_signatures-Wants transformer_layer model l m o e =
    (ground (arith, e), ground (arith, e), ground (arith, e), ground (arith, e))
check_signatures-Wants module_level model l m o e =
    (ground (arith, e), ground (arith, e), ground (arith, e), ground (arith, e))
check_signatures-Wants operator_level model l m o e =
    (ground (arith, e), ground (arith, e), ground (arith, e))
