-- ===== src/Shared/Sorting.antt =====
-- Python's `sorted` over texts: insertion by the code points' order.
use Prim.Native.Nat.{Ordering}
use Prim.Native.String.{String, compare}
use mathlib.Core.Path.{◌≡◌, refl}
use mathlib.Core.Bool.{Bool, true, false, ◌||◌}
use mathlib.Core.List.{List, [], ◌∷◌}
use native.Mathlib.Omega.{arith}
use text.Mathlib.TextEquality.{eq_iff}
use edge_shard_v.Shared.Tests.{◌==◌, if◌then◌else◌}
use edge_shard_v.Shared.Lists.{contains, has_duplicate}

abbrev pub before : String → String → Bool
before a b = elim (compare a b) [ Ordering.gt ↦ false | _ ↦ true ]

unfoldable pub insert : String → List String → List String
insert a [] = a ∷ []
insert a (x ∷ xs) = if before a x then a ∷ x ∷ xs else x ∷ insert a xs

unfoldable pub sorted : List String → List String
unfolding insert
sorted [] = []
sorted (x ∷ xs) = insert x (sorted xs)

contains-insert :
    (a b : String) (xs : List String) → contains (insert a xs) b ≡ (a == b || contains xs b)
unfolding insert
contains-insert a b [] = refl
contains-insert a b (x ∷ xs) = ground (arith, contains-insert a b xs)

pub contains-sorted : (b : String) (xs : List String) → contains (sorted xs) b ≡ contains xs b
unfolding sorted
contains-sorted b [] = refl
contains-sorted b (x ∷ xs) = ground (arith, contains-insert x b (sorted xs), contains-sorted b xs)

has_duplicate-insert :
    (a : String) (xs : List String)
    → has_duplicate (insert a xs) ≡ (contains xs a || has_duplicate xs)
unfolding insert
has_duplicate-insert a [] = refl
has_duplicate-insert a (x ∷ xs) =
    ground (arith, has_duplicate-insert a xs, contains-insert a x xs, eq_iff a x, eq_iff x a)

-- Sorting keeps the number of times that a text comes, as far as the test for duplicates sees it.
pub has_duplicate-sorted : (xs : List String) → has_duplicate (sorted xs) ≡ has_duplicate xs
unfolding sorted
has_duplicate-sorted [] = refl
has_duplicate-sorted (x ∷ xs) =
    rw (has_duplicate-insert x (sorted xs), contains-sorted x xs, has_duplicate-sorted xs)
