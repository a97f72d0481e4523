-- ===== src/Shared/Dict.antt =====
-- Python's `dict` with text keys: an association list in insertion order. A write to a key that is
-- there keeps its place.
use edge_shard_v.Shared.Tests.{==_refl, ◌==◌, if◌then◌else◌}
use edge_shard_v.Shared.Lists.{contains, has_duplicate}
use Prim.Native.String.{String}
use mathlib.Core.Path.{◌≡◌, refl}
use mathlib.Core.Bool.{Bool, true, false}
use mathlib.Core.Option.{Option, none, some}
use mathlib.Core.List.{List, [], ◌∷◌}
use native.Mathlib.Omega.{arith}
use text.Mathlib.TextEquality.{eq_iff}

abbrev pub Dict {ℓ} : Type ℓ → Type ℓ
Dict V = List (String × V)

abbrev pub opt_is_some {ℓ} : {A : Type ℓ} → Option A → Bool
opt_is_some none = false
opt_is_some (some _) = true

module _ {ℓ} {V : Type ℓ} where
  unfoldable pub get : String → Dict V → Option V
  get k [] = none
  get k ((j, v) ∷ m) = if j == k then some v else get k m

  unfoldable pub put : String → V → Dict V → Dict V
  put k v [] = (k, v) ∷ []
  put k v ((j, w) ∷ m) = if j == k then (j, v) ∷ m else (j, w) ∷ put k v m

  unfoldable pub remove : String → Dict V → Dict V
  remove k [] = []
  remove k ((j, w) ∷ m) = let rest = remove k m in if j == k then rest else (j, w) ∷ rest

  unfoldable pub keys : Dict V → List String
  keys [] = []
  keys ((j, _) ∷ m) = j ∷ keys m

  -- No key stands twice.
  abbrev pub Distinct : Dict V → Type 0
  Distinct m = has_duplicate (keys m) ≡ false

  pub get-put :
      (k j : String) (v : V) (m : Dict V) → get j (put k v m) ≡ (if k == j then some v else get j m)
  unfolding get put
  get-put k j v [] = refl
  get-put k j v ((i, w) ∷ m) = ground (arith, eq_iff k j, eq_iff i k, eq_iff i j, get-put k j v m)

  pub get-remove :
      (k j : String) (m : Dict V) → get j (remove k m) ≡ (if k == j then none else get j m)
  unfolding get remove
  get-remove k j [] = ground arith
  get-remove k j ((i, w) ∷ m) = ground (arith, eq_iff k j, eq_iff i k, eq_iff i j, get-remove k j m)

  pub contains-keys : (k : String) (m : Dict V) → contains (keys m) k ≡ opt_is_some (get k m)
  unfolding keys get
  contains-keys k [] = refl
  contains-keys k ((i, w) ∷ m) = ground (arith, contains-keys k m)

  pub put-Distinct : (k : String) (v : V) (m : Dict V) → Distinct m → Distinct (put k v m)
  unfolding put keys
  put-Distinct k v [] d = refl
  put-Distinct k v ((i, w) ∷ m) d = ground (
    arith,
    eq_iff k i,
    eq_iff i k,
    get-put k i v m,
    contains-keys i m,
    contains-keys i (put k v m),
    put-Distinct k v m,
  )

  pub remove-Distinct : (k : String) (m : Dict V) → Distinct m → Distinct (remove k m)
  unfolding remove keys
  remove-Distinct k [] d = refl
  remove-Distinct k ((i, w) ∷ m) d = ground (
    arith,
    eq_iff k i,
    eq_iff i k,
    get-remove k i m,
    contains-keys i m,
    contains-keys i (remove k m),
    remove-Distinct k m,
  )

  pub remove-put_self : (k : String) (v : V) (m : Dict V) → remove k (put k v m) ≡ remove k m
  unfolding remove put
  remove-put_self k v [] = ground (arith, ==_refl k)
  remove-put_self k v ((i, w) ∷ m) = ground (arith, eq_iff i k, remove-put_self k v m)

  pub remove-put_comm :
      (k j : String) (v : V) (m : Dict V)
      → (k == j) ≡ false
      → remove j (put k v m) ≡ put k v (remove j m)
  unfolding remove put
  remove-put_comm k j v [] ne = ground arith
  remove-put_comm k j v ((i, w) ∷ m) ne =
      ground (arith, eq_iff i k, eq_iff i j, eq_iff k j, remove-put_comm k j v m ne)

  pub remove_absent : (k : String) (m : Dict V) → get k m ≡ none → remove k m ≡ m
  unfolding remove get
  remove_absent k [] e = refl
  remove_absent k ((i, w) ∷ m) e = ground (arith, remove_absent k m)

pub ruleset dict_laws = (get-put, get-remove)
