-- ===== src/Worker/Leases/Release.antt =====
-- Releasing a session's devices.
use edge_shard_v.Shared.{
  String, ◌≡◌, refl, Bool, false, ◌==◌, Option, none, some, [], ◌∷◌, arith, eq_iff, contains,
  if◌then◌else◌,
}
use edge_shard_v.Shared.Dict.{get, keys, Distinct, contains-keys}
use edge_shard_v.Worker.Leases.Rollback.{get-roll_back}
use edge_shard_v.Worker.Leases.{Leases, held_by, release_session}

abbrev pub holds : String → Option String → Bool
holds session none = false
holds session (some holder) = holder == session

pub contains-held_by :
    (session : String) (m : Leases) (j : String)
    → Distinct m
    → contains (held_by session m) j ≡ holds session (get j m)
unfolding held_by get keys
contains-held_by session [] j u = refl
contains-held_by session ((d, holder) ∷ m) j u =
    ground (arith, contains-held_by session m j, contains-keys d m, eq_iff d j)

-- Releasing a session frees exactly the devices that it held, names exactly those, and leaves every
-- other session's devices alone.
pub release_exact :
    (session : String) (m : Leases) (j : String)
    → Distinct m
    → let (released, m') = release_session session m in
      (contains released j ≡ holds session (get j m))
      × (get j m' ≡ (if holds session (get j m) then none else get j m))
unfolding release_session
release_exact session m j u = (
  contains-held_by session m j u,
  ground (arith, contains-held_by session m j u, get-roll_back (held_by session m) m j),
)
