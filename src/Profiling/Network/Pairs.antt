-- ===== src/Profiling/Network/Pairs.antt =====
-- src/edgeshard/profiling/network/classifier.py: the directed pairs of Workers that are probed.
use mathlib.Core.Path.{subst}
use edge_shard_v.Shared.{
  ◌≡◌, refl, String, Bool, true, false, not, ◌==◌, ◌||◌, ◌&&◌, Option, none, some, List, [], ◌∷◌,
  ◌++◌, map, All, Result, Checked, ok, value_error, raise_if, ◌>>=◌, ◌>>◌, is_empty, contains,
  has_duplicate, if◌then◌else◌, Bool-cases, inl, inr, arith, eq_iff,
}
use edge_shard_v.Profiling.Network.{WorkerNetworkFacts, check_worker_network_facts}

pub record NetworkPair : Type 0 where
  pub source_worker_id : String
  pub destination_worker_id : String
  pub source_interface_id : Option String
  pub destination_interface_id : Option String

abbrev is_empty_when_present : Option String → Bool
is_empty_when_present none = false
is_empty_when_present (some i) = is_empty i

abbrev pub same_interface : Option String → Option String → Bool
same_interface none none = true
same_interface (some i) (some j) = i == j
same_interface _ _ = false

unfoldable pub check_network_pair : NetworkPair → Checked
check_network_pair p = do
  raise_if (is_empty p.source_worker_id) value_error
  raise_if (is_empty p.destination_worker_id) value_error
  raise_if (is_empty_when_present p.source_interface_id) value_error
  raise_if (is_empty_when_present p.destination_interface_id) value_error
  raise_if
      (p.source_worker_id == p.destination_worker_id
        && same_interface p.source_interface_id p.destination_interface_id)
      value_error

abbrev pub worker_pair : String → String → NetworkPair
worker_pair source destination = record {
  source_worker_id = source;
  destination_worker_id = destination;
  source_interface_id = none;
  destination_interface_id = none;
}

abbrev pub worker_ids : List WorkerNetworkFacts → List String
worker_ids facts = map (λ f. f.worker_id) facts

-- The two loops of the comprehension: the pairs from one source, and from every source.
unfoldable pub pairs_from : String → List WorkerNetworkFacts → Result (List NetworkPair)
unfolding check_network_pair
pairs_from source [] = ok []
pairs_from source (destination ∷ workers) =
    let rest = pairs_from source workers in
    if source == destination.worker_id then rest else do
      check_network_pair (worker_pair source destination.worker_id)
      pairs ← rest
      ok (worker_pair source destination.worker_id ∷ pairs)

unfoldable pub pairs_of :
    List WorkerNetworkFacts → List WorkerNetworkFacts → Result (List NetworkPair)
unfolding pairs_from
pairs_of [] workers = ok []
pairs_of (source ∷ sources) workers = do
  first ← pairs_from source.worker_id workers
  rest ← pairs_of sources workers
  ok (first ++ rest)

unfoldable pub enumerate_pairs : List WorkerNetworkFacts → Result (List NetworkPair)
unfolding pairs_of
enumerate_pairs workers = do
  raise_if (has_duplicate (worker_ids workers)) value_error
  pairs_of workers workers

-- `NetworkPair(a, b) in pairs`
abbrev pub holds_pair : String → String → List NetworkPair → Bool
holds_pair a b [] = false
holds_pair a b (p ∷ pairs) =
    (p.source_worker_id == a
      && p.destination_worker_id == b
      && same_interface p.source_interface_id none
      && same_interface p.destination_interface_id none)
    || holds_pair a b pairs

holds_pair-append :
    (a b : String) (xs ys : List NetworkPair)
    → holds_pair a b (xs ++ ys) ≡ (holds_pair a b xs || holds_pair a b ys)
holds_pair-append a b [] ys = refl
holds_pair-append a b (x ∷ xs) ys = ground (arith, holds_pair-append a b xs ys)

abbrev pub Valid : List WorkerNetworkFacts → Type 0
Valid workers = All (λ f. check_worker_network_facts f ≡ ok tt) workers

==_along : (s d b : String) → (s == d) ≡ true → (d == b) ≡ (s == b)
==_along s d b g = subst (λ x. (x == b) ≡ (s == b)) ((eq_iff s d).0 g) refl

==_apart : (s d b : String) → (s == d) ≡ false → (d == b && s == b) ≡ false
==_apart s d b g = elim (Bool-cases (d == b)) [
  | inl h ↦ ground (arith, h, subst (λ x. (s == x) ≡ false) ((eq_iff d b).0 h) g)
  | inr h ↦ ground (arith, h)
]

-- The pairs that are asked for.
abbrev From : String → List WorkerNetworkFacts → List NetworkPair → Type 0
From source workers pairs =
    (a b : String)
    → holds_pair a b pairs ≡ (source == a && contains (worker_ids workers) b && not (source == b))

named :
    (f : WorkerNetworkFacts) → check_worker_network_facts f ≡ ok tt → is_empty f.worker_id ≡ false
unfolding check_worker_network_facts
named f v = ground (arith, v)

pairs_from_total :
    (source : String) (workers : List WorkerNetworkFacts)
    → is_empty source ≡ false
    → Valid workers
    → (pairs : List NetworkPair) × (pairs_from source workers ≡ ok pairs)
      × From source workers pairs
unfolding pairs_from
pairs_from_total source [] n v = ([], refl, λ a b. ground arith)
pairs_from_total source (d ∷ ws) n (v, vs) =
    let (pairs, e, f) = pairs_from_total source ws n vs in
    elim (Bool-cases (source == d.worker_id)) [
      | inl g ↦ (pairs, rw (g) e, λ a b. ground (arith, f a b, ==_along source d.worker_id b g))
      | inr g ↦ (
        worker_pair source d.worker_id ∷ pairs,
        rw (g, n, named d v, e) refl,
        λ a b. ground (arith, f a b, ==_apart source d.worker_id b g),
      )
    ]

-- The pairs between a source among `sources` and a worker of `workers`.
abbrev pub Among : List WorkerNetworkFacts → List WorkerNetworkFacts → List NetworkPair → Type 0
Among sources workers pairs =
    (a b : String)
    → holds_pair a b pairs
      ≡ (contains (worker_ids sources) a && contains (worker_ids workers) b && not (a == b))

pairs_of_total :
    (sources workers : List WorkerNetworkFacts)
    → Valid sources
    → Valid workers
    → (pairs : List NetworkPair) × (pairs_of sources workers ≡ ok pairs)
      × Among sources workers pairs
unfolding pairs_of
pairs_of_total [] workers v w = ([], refl, λ a b. ground arith)
pairs_of_total (s ∷ ss) workers (v, vs) w =
    let (first, e, f) = pairs_from_total s.worker_id workers (named s v) w in
    let (rest, e', f') = pairs_of_total ss workers vs w in
    (
      first ++ rest,
      rw (e, e') refl,
      λ a b. elim (Bool-cases (s.worker_id == a)) [
        | inl g ↦
            ground (
              arith,
              holds_pair-append a b first rest,
              f a b,
              f' a b,
              g,
              ==_along s.worker_id a b g,
            )
        | inr g ↦ ground (arith, holds_pair-append a b first rest, f a b, f' a b, g)
      ],
    )

-- For Workers whose facts are valid and whose ids differ, the enumeration succeeds, and the pair of
-- two ids is in it exactly when both name a Worker and they differ.
pub enumerate_pairs_complete :
    (workers : List WorkerNetworkFacts)
    → Valid workers
    → has_duplicate (worker_ids workers) ≡ false
    → (pairs : List NetworkPair) × (enumerate_pairs workers ≡ ok pairs)
      × Among workers workers pairs
unfolding enumerate_pairs
enumerate_pairs_complete workers v d =
    let (pairs, e, f) = pairs_of_total workers workers v v in (pairs, rw (d, e) refl, f)
