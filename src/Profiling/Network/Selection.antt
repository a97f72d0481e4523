-- ===== src/Profiling/Network/Selection.antt =====
-- src/edgeshard/profiling/network/classifier.py: the class of every pair, the paths between interfaces, and
-- the pairs whose bandwidth is measured.
use edge_shard_v.Shared.{
  ℕ, zero, suc, String, Bool, false, not, ◌==◌, ◌||◌, ◌&&◌, ltb, Option, none, some, List, [], ◌∷◌,
  ◌++◌, Result, ok, err, value_error, key_error, raise_if, ◌>>=◌, ◌>>◌, has_duplicate,
  if◌then◌else◌,
}
use edge_shard_v.Shared.Dict.{Dict, get, put, keys}
use edge_shard_v.Shared.Sorting.{sorted, before}
use edge_shard_v.Profiling.Network.{
  Python, InterfaceFacts, WorkerNetworkFacts, NetworkPathClass, same_host, wired_lan, wifi_lan,
  overlay_path, cross_subnet, other_path, probeable, classify_path,
}
use edge_shard_v.Profiling.Network.Pairs.{
  NetworkPair, check_network_pair, worker_ids, enumerate_pairs,
}

pub record ClassifiedPair : Type 0 where
  pub pair : NetworkPair
  pub path_class : NetworkPathClass

-- The value of the enumeration's member.
abbrev path_class_value : NetworkPathClass → String
path_class_value same_host = "same_host"
path_class_value wired_lan = "wired_lan"
path_class_value wifi_lan = "wifi_lan"
path_class_value overlay_path = "overlay"
path_class_value cross_subnet = "cross_subnet"
path_class_value other_path = "other"

-- `interface_id or ""`
abbrev pub id_or_empty : Option String → String
id_or_empty none = ""
id_or_empty (some i) = i

abbrev pub PairKey : Type 0
PairKey = String × String × String × String

unfoldable pub pair_order_key : NetworkPair → PairKey
pair_order_key p = (
  p.source_worker_id,
  p.destination_worker_id,
  id_or_empty p.source_interface_id,
  id_or_empty p.destination_interface_id,
)

abbrev pub key_eq : PairKey → PairKey → Bool
key_eq (a, b, c, d) (a', b', c', d') = a == a' && b == b' && c == c' && d == d'

-- Python's `<=` on the keys.
abbrev key_before : PairKey → PairKey → Bool
key_before (a, b, c, d) (a', b', c', d') =
    if not (a == a')
    then before a a'
    else if not (b == b')
    then before b b'
    else if not (c == c')
    then before c c'
    else before d d'

unfoldable pub insert_pair : NetworkPair → List NetworkPair → List NetworkPair
unfolding pair_order_key
insert_pair p [] = p ∷ []
insert_pair p (q ∷ qs) =
    let rest = insert_pair p qs in
    if key_before (pair_order_key p) (pair_order_key q) then p ∷ q ∷ qs else q ∷ rest

unfoldable pub sorted_pairs : List NetworkPair → List NetworkPair
unfolding insert_pair
sorted_pairs [] = []
sorted_pairs (p ∷ ps) = insert_pair p (sorted_pairs ps)

abbrev pub holds_key : PairKey → List PairKey → Bool
holds_key k [] = false
holds_key k (i ∷ is) = key_eq i k || holds_key k is

abbrev pub first_of : ℕ → List NetworkPair → List NetworkPair
first_of zero ps = []
first_of (suc n) [] = []
first_of (suc n) (p ∷ ps) = p ∷ first_of n ps

abbrev pub pairs_under : Option (List NetworkPair) → List NetworkPair
pairs_under none = []
pairs_under (some ps) = ps

-- `by_class.setdefault(entry.path_class, []).append(entry.pair)` for every entry.
unfoldable pub grouped : Dict (List NetworkPair) → List ClassifiedPair → Dict (List NetworkPair)
unfolding get put
grouped m [] = m
grouped m (e ∷ es) =
    let i = path_class_value e.path_class in
    grouped (put i (pairs_under (get i m) ++ e.pair ∷ []) m) es

-- `selected` and `seen`
pub record Selection : Type 0 where
  pub selected : List NetworkPair
  pub seen : List PairKey

unfoldable pub select : Selection → NetworkPair → Selection
unfolding pair_order_key
select s p =
    if holds_key (pair_order_key p) s.seen
    then s
    else record { selected = s.selected ++ p ∷ []; seen = pair_order_key p ∷ s.seen }

unfoldable pub select_all : Selection → List NetworkPair → Selection
unfolding select
select_all s [] = s
select_all s (p ∷ ps) = select_all (select s p) ps

unfoldable pub select_classes : ℕ → Dict (List NetworkPair) → Selection → List String → Selection
unfolding select_all sorted_pairs get
select_classes n m s [] = s
select_classes n m s (i ∷ is) =
    select_classes n m (select_all s (first_of n (sorted_pairs (pairs_under (get i m))))) is

unfoldable pub select_bandwidth_pairs :
    ℕ → List ClassifiedPair → List NetworkPair → Result (List NetworkPair)
unfolding grouped select_classes select_all sorted keys
select_bandwidth_pairs representatives_per_class classified extra_pairs = do
  raise_if (ltb representatives_per_class 1) value_error
  let by_class : Dict (List NetworkPair) = grouped [] classified
  let representatives : Selection =
      select_classes representatives_per_class by_class (record { selected = []; seen = [] })
        (sorted (keys by_class))
  ok (select_all representatives extra_pairs).selected

abbrev find_worker : String → List WorkerNetworkFacts → Option WorkerNetworkFacts
find_worker i [] = none
find_worker i (f ∷ fs) = let rest = find_worker i fs in if f.worker_id == i then some f else rest

-- `NetworkPair(...)` for every interface of the destination.
unfoldable pub paths_to : String → String → String → List InterfaceFacts → Result (List NetworkPair)
unfolding check_network_pair
paths_to source destination i [] = ok []
paths_to source destination i (x ∷ xs) = do
  let path : NetworkPair = record {
    source_worker_id = source;
    destination_worker_id = destination;
    source_interface_id = some i;
    destination_interface_id = some x.interface_id;
  }
  check_network_pair path
  rest ← paths_to source destination i xs
  ok (path ∷ rest)

unfoldable pub paths_between :
    String → String → List InterfaceFacts → List InterfaceFacts → Result (List NetworkPair)
unfolding paths_to
paths_between source destination [] targets = ok []
paths_between source destination (x ∷ xs) targets = do
  first ← paths_to source destination x.interface_id targets
  rest ← paths_between source destination xs targets
  ok (first ++ rest)

module _ (py : Python) where
  unfoldable pub paths_from :
      WorkerNetworkFacts → List WorkerNetworkFacts → Result (List NetworkPair)
  unfolding paths_between
  paths_from source [] = ok []
  paths_from source (destination ∷ workers) =
      let rest = paths_from source workers in
      if source.worker_id == destination.worker_id then rest else do
        first ←
            paths_between source.worker_id destination.worker_id (probeable py source.interfaces)
              (probeable py destination.interfaces)
        others ← rest
        ok (first ++ others)

  unfoldable pub paths_of :
      List WorkerNetworkFacts → List WorkerNetworkFacts → Result (List NetworkPair)
  unfolding paths_from
  paths_of [] workers = ok []
  paths_of (source ∷ sources) workers = do
    first ← paths_from source workers
    rest ← paths_of sources workers
    ok (first ++ rest)

  unfoldable pub enumerate_probe_paths : List WorkerNetworkFacts → Result (List NetworkPair)
  unfolding paths_of
  enumerate_probe_paths workers = do
    raise_if (has_duplicate (worker_ids workers)) value_error
    paths_of workers workers

  abbrev classify_with :
      ℕ
      → NetworkPair
      → Option WorkerNetworkFacts
      → Option WorkerNetworkFacts
      → Result ClassifiedPair
  classify_with prefix_length pair (some source) (some destination) = do
    c ← classify_path py prefix_length source none destination none
    ok (record { pair = pair; path_class = c })
  classify_with prefix_length pair _ _ = err key_error

  unfoldable pub classify_each :
      ℕ → List WorkerNetworkFacts → List NetworkPair → Result (List ClassifiedPair)
  unfolding classify_path
  classify_each prefix_length workers [] = ok []
  classify_each prefix_length workers (p ∷ ps) = do
    c ←
        classify_with prefix_length p (find_worker p.source_worker_id workers)
          (find_worker p.destination_worker_id workers)
    cs ← classify_each prefix_length workers ps
    ok (c ∷ cs)

  unfoldable pub classify_pairs : ℕ → List WorkerNetworkFacts → Result (List ClassifiedPair)
  unfolding classify_each enumerate_pairs
  classify_pairs prefix_length workers = do
    pairs ← enumerate_pairs workers
    classify_each prefix_length workers pairs
