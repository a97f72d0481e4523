-- ===== src/Examples/Revision.antt =====
-- Two devices of one Worker, enumerated in either order.
use edge_shard_v.Shared.{String, ◌≡◌, [], ◌∷◌, eq_iff, arith}
use edge_shard_v.Cluster.Capability.{DeviceCapability}
use edge_shard_v.Cluster.Revision.{
  Digest, Json, mapping, entry, j_string, compute_capability_revision, canonical_value,
}
use edge_shard_v.Cluster.Revision.Order.{with_devices, revision_swap}
use edge_shard_v.Examples.Data.{capability, device}

-- A digest that prints the id of a device, and every other data alike.
abbrev printed : Json → String
printed (mapping (entry a (mapping (entry b (j_string name) m)) n)) = name
printed _ = "json"

abbrev naming : Digest
naming = record { dumps = printed; sha256 = λ text. text }

abbrev second_device : DeviceCapability
second_device = record device {
  identity = record { device_id = "g1"; kind = device.identity.kind; local_locator = "1" };
}

revision_swap_example :
    compute_capability_revision naming (with_devices capability (device ∷ second_device ∷ []))
    ≡ compute_capability_revision naming (with_devices capability (second_device ∷ device ∷ []))
unfolding canonical_value
revision_swap_example =
    revision_swap naming capability [] device second_device []
      (λ e. absurd (ground (arith, e, eq_iff "g0" "g1")))
