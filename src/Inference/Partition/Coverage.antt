-- ===== src/Inference/Partition/Coverage.antt =====
-- An accepted partition runs every block of the model exactly once, in order.
use edge_shard_v.Shared.{
  ℕ, zero, suc, ◌+◌, ◌-◌, ◌≤◌, ◌<◌, ◌≡◌, refl, sym, ap, ◌∙◌, List, [], ◌∷◌, ◌++◌, ok, arith, All,
  true, Checked-cases, inl, inr,
}
use edge_shard_v.Inference.Spec.{size, check_block_range}
use edge_shard_v.Inference.Partition.{Stage, last_of, check_stages, check_gaps, validate_partition}

-- `range(start, start + n)`
abbrev pub blocks_from : ℕ → ℕ → List ℕ
blocks_from start zero = []
blocks_from start (suc n) = start ∷ blocks_from (suc start) n

-- The blocks that the stages run, in the order of the stages.
abbrev pub executed : List Stage → List ℕ
executed [] = []
executed (s ∷ ss) = blocks_from s.shard_spec.blocks.start (size s.shard_spec.blocks) ++ executed ss

-- The stage's range is one that its constructor accepts.
abbrev pub IsRange : Stage → Type 0
IsRange s = check_block_range s.shard_spec.blocks ≡ ok tt

append-nil : (xs : List ℕ) → xs ++ [] ≡ xs
append-nil [] = refl
append-nil (x ∷ xs) = ap (λ ys. x ∷ ys) (append-nil xs)

zero_add : (a : ℕ) → a + 0 ≡ a
zero_add a = omega arith

zero_plus : (k : ℕ) → k ≡ 0 + k
zero_plus k = omega arith

suc_plus : (n k : ℕ) → suc (n + k) ≡ suc n + k
suc_plus n k = omega arith

suc_add : (a n : ℕ) → a + suc n ≡ suc a + n
suc_add a n = omega arith

blocks_from-append : (a n k : ℕ) → blocks_from a n ++ blocks_from (a + n) k ≡ blocks_from a (n + k)
blocks_from-append a zero k =
    ap (λ b. blocks_from b k) (zero_add a) ∙ ap (blocks_from a) (zero_plus k)
blocks_from-append a (suc n) k =
    ap (λ bs. a ∷ bs)
      (ap (λ b. blocks_from (suc a) n ++ blocks_from b k) (suc_add a n)
        ∙ blocks_from-append (suc a) n k)
    ∙ ap (blocks_from a) (suc_plus n k)

joined :
    (a b c : ℕ)
    → a < b
    → b ≤ c
    → blocks_from a (b - a) ++ blocks_from b (c - b) ≡ blocks_from a (c - a)
joined a b c p q =
    ap (λ x. blocks_from a (b - a) ++ blocks_from x (c - b)) (omega arith)
    ∙ blocks_from-append a (b - a) (c - b)
    ∙ ap (blocks_from a) (omega arith)

range-ordered : (s : Stage) → IsRange s → s.shard_spec.blocks.start < s.shard_spec.blocks.end
unfolding check_block_range
range-ordered s v = ground arith

start-joins :
    (s t : Stage) (ts : List Stage)
    → check_gaps s (t ∷ ts) ≡ ok tt
    → (t.shard_spec.blocks.start ≡ s.shard_spec.blocks.end) × (check_gaps t ts ≡ ok tt)
unfolding check_gaps
start-joins s t ts e = ground arith

end-beyond :
    (s : Stage) (ss : List Stage)
    → All IsRange (s ∷ ss)
    → check_gaps s ss ≡ ok tt
    → s.shard_spec.blocks.start < (last_of s ss).shard_spec.blocks.end
end-beyond s [] v e = range-ordered s v.0
end-beyond s (t ∷ ts) v e = omega (
  arith,
  (start-joins s t ts e).0,
  range-ordered s v.0,
  end-beyond t ts v.1 (start-joins s t ts e).1,
)

gaps_step :
    (s t : Stage) (ts : List Stage)
    → All IsRange (s ∷ t ∷ ts)
    → check_gaps s (t ∷ ts) ≡ ok tt
    → t.shard_spec.blocks.start ≡ s.shard_spec.blocks.end
    → executed (t ∷ ts)
      ≡ blocks_from t.shard_spec.blocks.start
          ((last_of t ts).shard_spec.blocks.end - t.shard_spec.blocks.start)
    → executed (s ∷ t ∷ ts)
      ≡ blocks_from s.shard_spec.blocks.start
          ((last_of t ts).shard_spec.blocks.end - s.shard_spec.blocks.start)
unfolding size
gaps_step s t ts v e j ih =
    ap (λ bs. blocks_from s.shard_spec.blocks.start (size s.shard_spec.blocks) ++ bs) ih
    ∙ ap
        (λ b.
          blocks_from s.shard_spec.blocks.start (b - s.shard_spec.blocks.start)
          ++ blocks_from t.shard_spec.blocks.start
              ((last_of t ts).shard_spec.blocks.end - t.shard_spec.blocks.start))
        (sym j)
    ∙ joined s.shard_spec.blocks.start t.shard_spec.blocks.start
        (last_of t ts).shard_spec.blocks.end (omega (arith, j, range-ordered s v.0))
        (omega (arith, end-beyond t ts v.1 (start-joins s t ts e).1))

gaps_cover :
    (s : Stage) (ss : List Stage)
    → All IsRange (s ∷ ss)
    → check_gaps s ss ≡ ok tt
    → executed (s ∷ ss)
      ≡ blocks_from s.shard_spec.blocks.start
          ((last_of s ss).shard_spec.blocks.end - s.shard_spec.blocks.start)
unfolding size
gaps_cover s [] v e = append-nil (blocks_from s.shard_spec.blocks.start (size s.shard_spec.blocks))
gaps_cover s (t ∷ ts) v e =
    gaps_step s t ts v e (start-joins s t ts e).0 (gaps_cover t ts v.1 (start-joins s t ts e).1)

validate-parts :
    (first : Stage) (rest : List Stage)
    → validate_partition (first ∷ rest) ≡ ok tt
    → (first.shard_spec.blocks.start ≡ 0)
      × ((last_of first rest).shard_spec.blocks.end ≡ first.num_blocks)
      × (check_gaps first rest ≡ ok tt)
unfolding validate_partition
validate-parts first rest e = elim (Checked-cases (check_stages first true (first ∷ rest))) [
  | inl p ↦ ground (arith, p)
  | inr (x, q) ↦ ground (arith, q)
]

-- A partition that the pipeline accepts, of stages whose ranges their constructor accepts, runs the
-- blocks 0, 1, ... of the model one after the other, each once and none left out.
pub partition_covers :
    (first : Stage) (rest : List Stage)
    → All IsRange (first ∷ rest)
    → validate_partition (first ∷ rest) ≡ ok tt
    → executed (first ∷ rest) ≡ blocks_from 0 first.num_blocks
partition_covers first rest v e =
    gaps_cover first rest v (validate-parts first rest e).2
    ∙ ap (λ b. blocks_from b ((last_of first rest).shard_spec.blocks.end - b))
        (validate-parts first rest e).0
    ∙ ap (blocks_from 0) (omega (arith, (validate-parts first rest e).1))
