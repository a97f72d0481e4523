-- ===== src/Inference/Generation/Count.antt =====
-- The driver generates the number of tokens that it is asked for.
use edge_shard_v.Shared.{
  ℕ, zero, suc, ◌+◌, ◌≡◌, refl, List, [], ◌∷◌, ◌++◌, Result, ok, length, length-append, arith,
}
use edge_shard_v.Shared.Int.{pos}
use edge_shard_v.Inference.Generation.{Driven, take, decode_loop, generate}

length-take : (n : ℕ) (ts : List ℕ) → n ≡ length ts → length (take n ts) ≡ n
length-take zero ts e = refl
length-take (suc n) [] e = ground arith
length-take (suc n) (t ∷ ts) e = ground (arith, e, length-take n ts)

module _ {S Logits : Type 0} (p : Driven S Logits) where
  -- The call returns.
  abbrev pub Returns {ℓ} : {A : Type ℓ} → Result A × S → Type ℓ
  Returns {A = A} r = (a : A) × (r.0 ≡ ok a)

  decode_loop-Returns :
      ((token : ℕ) (s : S) → Returns (p.decode_token token s))
      → (n token : ℕ) (generated : List ℕ) (s : S)
      → (ts : List ℕ) × ((decode_loop p n token generated s).0 ≡ ok ts)
        × (length ts ≡ length generated + n)
  unfolding decode_loop
  decode_loop-Returns d zero token generated s = (generated, refl, omega arith)
  decode_loop-Returns d (suc n) token generated s =
      let (out, e) = d token s in
      let next = p.argmax out in
      let (ts, q, c) =
        decode_loop-Returns d n next (generated ++ next ∷ []) (p.decode_token token s).1 in
      (ts, rw e q, ground (arith, c, length-append generated (next ∷ [])))

  -- Where the calls of the pipeline return, generation returns, with exactly the number of tokens that
  -- it was asked for, none included.
  pub generate_count :
      (n : ℕ) (s : S)
      → Returns (p.prefill_prompt s)
      → ((token : ℕ) (s' : S) → Returns (p.decode_token token s'))
      → (ts : List ℕ) × ((generate p (pos n) s).0 ≡ ok ts) × (length ts ≡ n)
  unfolding generate
  generate_count zero s (out, e) d = ([], rw e refl, refl)
  generate_count (suc n) s (out, e) d =
      let first = p.argmax out in
      let (ts, q, c) = decode_loop-Returns d n first (first ∷ []) (p.prefill_prompt s).1 in
      (take (suc n) ts, ground (arith, e, q), length-take (suc n) ts (omega (arith, c)))
