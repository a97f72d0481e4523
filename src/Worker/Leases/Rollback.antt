-- ===== src/Worker/Leases/Rollback.antt =====
-- What `for device_id in acquired: self._leased_by.pop(device_id, None)` leaves.
use edge_shard_v.Shared.{
  String, ◌≡◌, refl, false, ◌==◌, ◌||◌, none, List, [], ◌∷◌, ◌++◌, arith, eq_iff, contains,
  if◌then◌else◌,
}
use edge_shard_v.Shared.Dict.{get, put, remove, get-remove, remove-put_comm}
use edge_shard_v.Worker.Leases.{Leases, roll_back}

pub roll_back_snoc :
    (acquired : List String) (d : String) (m : Leases)
    → roll_back (acquired ++ d ∷ []) m ≡ remove d (roll_back acquired m)
unfolding roll_back
roll_back_snoc [] d m = refl
roll_back_snoc (a ∷ acquired) d m = roll_back_snoc acquired d (remove a m)

pub roll_back-put :
    (session : String) (acquired : List String) (d : String) (m : Leases)
    → contains acquired d ≡ false
    → roll_back acquired (put d session m) ≡ put d session (roll_back acquired m)
unfolding roll_back
roll_back-put session [] d m c = refl
roll_back-put session (a ∷ acquired) d m c =
    rw (remove-put_comm d a session m (ground (arith, eq_iff a d, eq_iff d a)))
      (roll_back-put session acquired d (remove a m) (ground arith))

pub contains_snoc :
    (xs : List String) (d j : String) → contains (xs ++ d ∷ []) j ≡ (contains xs j || d == j)
contains_snoc [] d j = ground arith
contains_snoc (x ∷ xs) d j = ground (arith, contains_snoc xs d j)

pub get-roll_back :
    (ds : List String) (m : Leases) (j : String)
    → get j (roll_back ds m) ≡ (if contains ds j then none else get j m)
unfolding roll_back
get-roll_back [] m j = refl
get-roll_back (d ∷ ds) m j = ground (arith, get-roll_back ds (remove d m) j, get-remove d j m)
