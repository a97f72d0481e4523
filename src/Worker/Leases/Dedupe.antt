-- ===== src/Worker/Leases/Dedupe.antt =====
-- `tuple(dict.fromkeys(device_ids))` keeps every device, once.
use edge_shard_v.Shared.{
  String, ◌≡◌, refl, false, ==_refl, ◌&&◌, not, List, [], ◌∷◌, arith, eq_iff, contains,
  has_duplicate,
}
use edge_shard_v.Worker.Leases.{dedupe, dedupe_from}

contains-dedupe_from :
    (seen ids : List String) (j : String)
    → contains (dedupe_from seen ids) j ≡ (not (contains seen j) && contains ids j)
contains-dedupe_from seen [] j = ground arith
contains-dedupe_from seen (i ∷ ids) j =
    ground (arith, contains-dedupe_from (i ∷ seen) ids j, eq_iff i j)

dedupe_from-distinct : (seen ids : List String) → has_duplicate (dedupe_from seen ids) ≡ false
dedupe_from-distinct seen [] = refl
dedupe_from-distinct seen (i ∷ ids) =
    ground
      (arith, dedupe_from-distinct (i ∷ seen) ids, contains-dedupe_from (i ∷ seen) ids i, ==_refl i)

pub contains-dedupe : (ids : List String) (j : String) → contains (dedupe ids) j ≡ contains ids j
unfolding dedupe
contains-dedupe ids j = ground (arith, contains-dedupe_from [] ids j)

pub dedupe-distinct : (ids : List String) → has_duplicate (dedupe ids) ≡ false
unfolding dedupe
dedupe-distinct ids = dedupe_from-distinct [] ids
