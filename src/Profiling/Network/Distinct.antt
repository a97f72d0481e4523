-- ===== src/Profiling/Network/Distinct.antt =====
-- The selection of bandwidth pairs: no endpoints twice, and every pair that was asked for.
use edge_shard_v.Shared.{
  ℕ, Option, none, some, ◌&&◌, All-map, ==_refl, All, ◌≡◌, refl, sym, ◌∙◌, ◌≤◌, Bool, true, false,
  ◌||◌, List, [], ◌∷◌, ◌++◌, ok, String, ◌==◌, Bool-cases, inl, inr, arith, eq_iff,
}
use edge_shard_v.Shared.Dict.{Dict, get, keys}
use edge_shard_v.Shared.Sorting.{sorted}
use edge_shard_v.Profiling.Network.Pairs.{NetworkPair}
use edge_shard_v.Profiling.Network.Selection.{
  ClassifiedPair, PairKey, id_or_empty, pair_order_key, key_eq, holds_key, Selection, select,
  select_all, select_classes, grouped, sorted_pairs, pairs_under, first_of, select_bandwidth_pairs,
}

-- An absent interface and the empty text, which no accepted pair has, are one.
abbrev pub same_optional : Option String → Option String → Bool
same_optional none none = true
same_optional none (some j) = "" == j
same_optional (some i) none = i == ""
same_optional (some i) (some j) = i == j

-- The two pairs go from one Worker's interface to one other Worker's.
abbrev pub same_endpoints : NetworkPair → NetworkPair → Bool
same_endpoints p q =
    p.source_worker_id == q.source_worker_id
    && p.destination_worker_id == q.destination_worker_id
    && same_optional p.source_interface_id q.source_interface_id
    && same_optional p.destination_interface_id q.destination_interface_id

abbrev pub is_among : NetworkPair → List NetworkPair → Bool
is_among p [] = false
is_among p (q ∷ qs) = same_endpoints q p || is_among p qs

-- Two pairs have the same endpoints.
abbrev pub repeats : List NetworkPair → Bool
repeats [] = false
repeats (p ∷ ps) = is_among p ps || repeats ps

-- The same on the keys that the code compares.
abbrev has_endpoints : PairKey → List NetworkPair → Bool
has_endpoints k [] = false
has_endpoints k (p ∷ ps) = key_eq (pair_order_key p) k || has_endpoints k ps

same_optional-key : (i j : Option String) → same_optional i j ≡ (id_or_empty i == id_or_empty j)
same_optional-key none none = ground (arith, ==_refl "")
same_optional-key none (some j) = refl
same_optional-key (some i) none = refl
same_optional-key (some i) (some j) = refl

same_endpoints-key :
    (p q : NetworkPair) → same_endpoints p q ≡ key_eq (pair_order_key p) (pair_order_key q)
unfolding pair_order_key
same_endpoints-key p q =
    rw
      (
        same_optional-key p.source_interface_id q.source_interface_id,
        same_optional-key p.destination_interface_id q.destination_interface_id,
      )
      refl

is_among-key :
    (p : NetworkPair) (qs : List NetworkPair) → is_among p qs ≡ has_endpoints (pair_order_key p) qs
is_among-key p [] = refl
is_among-key p (q ∷ qs) = ground (arith, same_endpoints-key q p, is_among-key p qs)

==_flip : (s t : String) → (s == t) ≡ (t == s)
==_flip s t = ground (arith, eq_iff s t, eq_iff t s)

key_eq_comm : (k j : PairKey) → key_eq k j ≡ key_eq j k
key_eq_comm (a, b, c, d) (a', b', c', d') =
    rw (==_flip a a', ==_flip b b', ==_flip c c', ==_flip d d') refl

has_endpoints-append :
    (k : PairKey) (ps : List NetworkPair) (p : NetworkPair)
    → has_endpoints k (ps ++ p ∷ []) ≡ (has_endpoints k ps || key_eq (pair_order_key p) k)
has_endpoints-append k [] p = ground arith
has_endpoints-append k (q ∷ qs) p = ground (arith, has_endpoints-append k qs p)

repeats-append :
    (ps : List NetworkPair) (p : NetworkPair)
    → repeats (ps ++ p ∷ []) ≡ (repeats ps || has_endpoints (pair_order_key p) ps)
repeats-append [] p = ground arith
repeats-append (q ∷ qs) p = ground (
  arith,
  repeats-append qs p,
  is_among-key q qs,
  is_among-key q (qs ++ p ∷ []),
  has_endpoints-append (pair_order_key q) qs p,
  key_eq_comm (pair_order_key q) (pair_order_key p),
)

-- `seen` holds the keys of what is selected, and nothing is selected twice.
abbrev IsTracked : Selection → Type 0
IsTracked s =
    ((k : PairKey) → holds_key k s.seen ≡ has_endpoints k s.selected) × (repeats s.selected ≡ false)

select-IsTracked : (s : Selection) (p : NetworkPair) → IsTracked s → IsTracked (select s p)
unfolding select
select-IsTracked s p (h, n) = elim (Bool-cases (holds_key (pair_order_key p) s.seen)) [
  | inl e ↦ rw (e, select) (h, n)
  | inr e ↦
      rw (e, select)
        (
          λ k. ground (arith, h k, has_endpoints-append k s.selected p),
          ground (arith, n, e, h (pair_order_key p), repeats-append s.selected p),
        )
]

select_all-IsTracked :
    (s : Selection) (ps : List NetworkPair) → IsTracked s → IsTracked (select_all s ps)
unfolding select_all
select_all-IsTracked s [] h = h
select_all-IsTracked s (p ∷ ps) h = select_all-IsTracked (select s p) ps (select-IsTracked s p h)

select_classes-IsTracked :
    (n : ℕ) (m : Dict (List NetworkPair)) (s : Selection) (is : List String)
    → IsTracked s
    → IsTracked (select_classes n m s is)
unfolding select_classes
select_classes-IsTracked n m s [] h = h
select_classes-IsTracked n m s (i ∷ is) h =
    select_classes-IsTracked n m (select_all s (first_of n (sorted_pairs (pairs_under (get i m)))))
      is (select_all-IsTracked s (first_of n (sorted_pairs (pairs_under (get i m)))) h)

key_eq_refl : (k : PairKey) → key_eq k k ≡ true
key_eq_refl (a, b, c, d) = rw (==_refl a, ==_refl b, ==_refl c, ==_refl d) refl

abbrev Holds : PairKey → Selection → Type 0
Holds k s = has_endpoints k s.selected ≡ true

-- A selection only grows, and holds the pair that was selected.
select_grows : (s : Selection) (p : NetworkPair) (k : PairKey) → Holds k s → Holds k (select s p)
unfolding select
select_grows s p k h = elim (Bool-cases (holds_key (pair_order_key p) s.seen)) [
  | inl e ↦ rw (e, select) h
  | inr e ↦ rw (e, select) (ground (arith, h, has_endpoints-append k s.selected p))
]

select-Holds :
    (s : Selection) (p : NetworkPair) → IsTracked s → Holds (pair_order_key p) (select s p)
unfolding select
select-Holds s p h = elim (Bool-cases (holds_key (pair_order_key p) s.seen)) [
  | inl e ↦ rw (e, select) (sym (h.0 (pair_order_key p)) ∙ e)
  | inr e ↦
      rw (e, select)
        (ground (
          arith,
          has_endpoints-append (pair_order_key p) s.selected p,
          key_eq_refl (pair_order_key p),
        ))
]

select_all_grows :
    (s : Selection) (ps : List NetworkPair) (k : PairKey) → Holds k s → Holds k (select_all s ps)
unfolding select_all
select_all_grows s [] k h = h
select_all_grows s (p ∷ ps) k h = select_all_grows (select s p) ps k (select_grows s p k h)

select_all-Holds :
    (s : Selection) (ps : List NetworkPair)
    → IsTracked s
    → All (λ p. Holds (pair_order_key p) (select_all s ps)) ps
unfolding select_all
select_all-Holds s [] h = tt
select_all-Holds s (p ∷ ps) h = (
  select_all_grows (select s p) ps (pair_order_key p) (select-Holds s p h),
  select_all-Holds (select s p) ps (select-IsTracked s p h),
)

-- With at least one representative, the selection succeeds whatever the classes are. No two of the
-- selected pairs have the same endpoints, and every pair that the caller asks for is among them.
pub select_bandwidth_pairs_distinct :
    (n : ℕ) (classified : List ClassifiedPair) (extra_pairs : List NetworkPair)
    → 1 ≤ n
    → (pairs : List NetworkPair) × (select_bandwidth_pairs n classified extra_pairs ≡ ok pairs)
      × (repeats pairs ≡ false)
      × All (λ p. is_among p pairs ≡ true) extra_pairs
unfolding select_bandwidth_pairs
select_bandwidth_pairs_distinct n classified extra_pairs positive =
    let m = grouped [] classified in
    let s : Selection =
      select_classes n m (record { selected = []; seen = [] }) (sorted (keys m)) in
    let tracked =
      select_classes-IsTracked n m (record { selected = []; seen = [] }) (sorted (keys m))
        (λ k. refl, refl) in
    (
      (select_all s extra_pairs).selected,
      ground (arith, positive),
      (select_all-IsTracked s extra_pairs tracked).1,
      All-map extra_pairs (λ p k. is_among-key p (select_all s extra_pairs).selected ∙ k)
          (select_all-Holds s extra_pairs tracked),
    )
