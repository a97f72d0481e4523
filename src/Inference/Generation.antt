-- ===== src/Inference/Generation.antt =====
-- `GenerationDriver` of src/edgeshard/inference/generation.py: greedy generation over a pipeline. The
-- driver uses the pipeline through its two calls on one session, the record `Driven`, and of their
-- logits the index of the greatest value at the last position.
pub mod Count
use edge_shard_v.Shared.{ℕ, zero, suc, ◌-◌, List, [], ◌∷◌, ◌++◌, Result, ok, err, value_error}
use edge_shard_v.Shared.Exec.{Exec, lift, ◌>>=◌}
use edge_shard_v.Shared.Int.{ℤ, pos, negsuc}

-- `prefill` on the prompt with last-token logits, `decode` of one token, and
-- `int(output.logits[0, -1].argmax())`. The state is that of every stage of the pipeline.
pub record Driven (S Logits : Type 0) : Type 0 where
  pub prefill_prompt : S → Result Logits × S
  pub decode_token : ℕ → S → Result Logits × S
  pub argmax : Logits → ℕ

-- `generated[:n]`
abbrev pub take : ℕ → List ℕ → List ℕ
take zero ts = []
take (suc n) [] = []
take (suc n) (t ∷ ts) = t ∷ take n ts

module _ {S Logits : Type 0} (p : Driven S Logits) where
  -- `for _ in range(n)`, from the last token and the tokens so far.
  unfoldable pub decode_loop : ℕ → ℕ → List ℕ → Exec S (List ℕ)
  decode_loop zero token generated = lift (ok generated)
  decode_loop (suc n) token generated = do
    output ← p.decode_token token
    let next = p.argmax output
    decode_loop n next (generated ++ next ∷ [])

  abbrev generate_from : ℕ → Exec S (List ℕ)
  generate_from max_new_tokens = do
    output ← p.prefill_prompt
    let token = p.argmax output
    generated ← decode_loop (max_new_tokens - 1) token (token ∷ [])
    lift (ok (take max_new_tokens generated))

  unfoldable pub generate : ℤ → Exec S (List ℕ)
  unfolding decode_loop
  generate (negsuc n) = lift (err value_error)
  generate (pos max_new_tokens) = generate_from max_new_tokens
