-- ===== src/Profiling/Network/Symmetry.antt =====
-- The class of a path does not depend on its direction.
use edge_shard_v.Shared.{
  ℕ, String, ◌≡◌, refl, Bool, ◌==◌, ◌==ₙ◌, ◌||◌, Option, none, some, arith, eq_iff,
}
use edge_shard_v.Profiling.Network.{
  Python, InterfaceFacts, WorkerNetworkFacts, same_subnet, interface_of, target_of, path_between,
  path_over, classify_path,
}

||_comm : (a b : Bool) → (a || b) ≡ (b || a)
||_comm a b = ground arith

==_comm : (s t : String) → (s == t) ≡ (t == s)
==_comm s t = ground (arith, eq_iff s t, eq_iff t s)

==ₙ_comm : (a b : ℕ) → (a ==ₙ b) ≡ (b ==ₙ a)
==ₙ_comm a b = ground arith

module _ (py : Python) where
  path_between_swap :
      (p : ℕ) (x y : InterfaceFacts) (a b : Option ℕ)
      → path_between py p x y a b ≡ path_between py p y x b a
  unfolding path_between same_subnet
  path_between_swap p x y none none = refl
  path_between_swap p x y none (some b) = refl
  path_between_swap p x y (some a) none = refl
  path_between_swap p x y (some a) (some b) = ground arith

  path_over_swap :
      (p : ℕ) (x y : Option InterfaceFacts) (a b : Option ℕ)
      → path_over py p x y a b ≡ path_over py p y x b a
  unfolding path_over
  path_over_swap p none none a b = refl
  path_over_swap p none (some y) a b = refl
  path_over_swap p (some x) none a b = refl
  path_over_swap p (some x) (some y) a b = ground (arith, path_between_swap p x y a b)

  -- The two directions between two Workers have the same class, whichever interfaces are named, and
  -- raise the same exception.
  pub classify_path_symmetric :
      (p : ℕ) (f : WorkerNetworkFacts) (i : Option String) (g : WorkerNetworkFacts)
      (j : Option String)
      → classify_path py p f i g j ≡ classify_path py p g j f i
  unfolding classify_path
  classify_path_symmetric p f i g j =
      rw
        (
          path_over_swap p (interface_of py f i) (interface_of py g j) (target_of py f i)
              (target_of py g j),
          ==_comm f.worker_id g.worker_id,
          ==_comm f.hostname g.hostname,
        )
        refl
