-- ===== src/Wire/Fields.antt =====
-- Setting the fields of a message, and translating a list of messages.
use edge_shard_v.Shared.{
  ◌≡◌, refl, ◌<◌, Option, none, some, List, [], ◌∷◌, Result, ok, Checked, ◌>>=◌, ◌>>◌, All, arith,
}
use edge_shard_v.Shared.Int.{ℤ, pos, negsuc}

-- What the protobuf runtime does where a number is assigned to a field of 32 or 64 bits: it stores
-- a number, or raises.
pub record Protobuf : Type 0 where
  pub set_int32 : ℤ → Result ℤ
  pub set_int64 : ℤ → Result ℤ

-- `-2 ** 31 <= n < 2 ** 31`
abbrev pub InInt32 : ℤ → Type 0
InInt32 (pos n) = n < 2_147_483_648
InInt32 (negsuc n) = n < 2_147_483_648

abbrev pub InInt64 : ℤ → Type 0
InInt64 (pos n) = n < 9_223_372_036_854_775_808
InInt64 (negsuc n) = n < 9_223_372_036_854_775_808

-- The documented behaviour of the runtime: a number in the range of its field is stored as it is.
pub record StoresInRange (p : Protobuf) : Type 0 where
  pub int32_kept : (n : ℤ) → InInt32 n → p.set_int32 n ≡ ok n
  pub int64_kept : (n : ℤ) → InInt64 n → p.set_int64 n ≡ ok n

-- `if value is not None: wire.field = value`
unfoldable pub set_optional : (ℤ → Result ℤ) → Option ℤ → Result (Option ℤ)
set_optional set none = ok none
set_optional set (some n) = do m ← set n; ok (some m)

abbrev pub Optional : (ℤ → Type 0) → Option ℤ → Type 0
Optional P none = Unit
Optional P (some n) = P n

pub set_optional_kept :
    (set : ℤ → Result ℤ) (P : ℤ → Type 0) (o : Option ℤ)
    → ((n : ℤ) → P n → set n ≡ ok n)
    → Optional P o
    → set_optional set o ≡ ok o
unfolding set_optional
set_optional_kept set P none k h = refl
set_optional_kept set P (some n) k h = ground (arith, k n h)

-- A constructor: its check, then the value.
abbrev pub construct : {A : Type 0} → Checked → A → Result A
construct checked a = do checked; ok a

-- A list comprehension whose body may raise.
module _ {A B : Type 0} where
  unfoldable pub traverse : (A → Result B) → List A → Result (List B)
  traverse f [] = ok []
  traverse f (x ∷ xs) = do y ← f x; ys ← traverse f xs; ok (y ∷ ys)

  -- The value is written to a message, from which it is read back.
  abbrev pub Trips : (A → Result B) → (B → Result A) → A → Type 0
  Trips to from x = (y : B) × (to x ≡ ok y) × (from y ≡ ok x)

module _ {A B : Type 0} (to : A → Result B) (from : B → Result A) where
  pub traverse-Trips :
      (xs : List A) → All (Trips to from) xs → Trips (traverse to) (traverse from) xs
  unfolding traverse
  traverse-Trips [] h = ([], refl, refl)
  traverse-Trips (x ∷ xs) ((y, e, f), h) =
      let (ys, es, fs) = traverse-Trips xs h in
      (y ∷ ys, ground (arith, e, es), ground (arith, f, fs))
