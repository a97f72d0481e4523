-- ===== src/Cluster/Revision/Order.antt =====
-- The revision does not depend on the order in which a Worker enumerates its devices.
use edge_shard_v.Shared.{
  String, ◌≡◌, refl, ap, true, false, List, [], ◌∷◌, ◌++◌, ◌||◌, Bool-cases, arith, ◌⊎◌, inl, inr,
}
use Prim.Native.String.{compare, [] as empty_text, ◌∷◌ as ◌∷ₜ◌}
use Prim.Native.Nat.{Ordering}
use text.Mathlib.TextEquality.{path_by_compare}
use Prim.Native.String.compare as compare_text
use edge_shard_v.Cluster.Capability.{DeviceCapability, WorkerCapability}
use edge_shard_v.Cluster.Revision.{
  Digest, Json, Array, mapping, entry, j_string, array, done, tuple, os_value, optional,
  container_value, interface_value, pool_value, platform_value, item, empty, key_le, insert_item,
  sort_array, sort_if_array, canonical_value, canonical_values, tuple_of, device_value,
  compute_capability_revision, without_revision,
}

key_le_trans : (a b c : String) → key_le a b ≡ true → key_le b c ≡ true → key_le a c ≡ true
key_le_trans empty_text empty_text c p q = q
key_le_trans empty_text (y ∷ₜ b) empty_text p q = refl
key_le_trans empty_text (y ∷ₜ b) (z ∷ₜ c) p q = ground (arith, compare_text.nil-cons z c)
key_le_trans (x ∷ₜ a) empty_text c p q = absurd (ground (arith, p, compare_text.cons-nil x a))
key_le_trans (x ∷ₜ a) (y ∷ₜ b) empty_text p q =
    absurd (ground (arith, q, compare_text.cons-nil y b))
key_le_trans (x ∷ₜ a) (y ∷ₜ b) (z ∷ₜ c) p q = ground (
  arith,
  p,
  q,
  compare_text.cons-cons x y a b,
  compare_text.cons-cons y z b c,
  compare_text.cons-cons x z a c,
  key_le_trans a b c,
)

key_le_total : (a b : String) → (key_le a b || key_le b a) ≡ true
key_le_total empty_text empty_text = refl
key_le_total empty_text (y ∷ₜ b) = ground (arith, compare_text.nil-cons y b)
key_le_total (x ∷ₜ a) empty_text = ground (arith, compare_text.nil-cons x a)
key_le_total (x ∷ₜ a) (y ∷ₜ b) =
    ground (arith, compare_text.cons-cons x y a b, compare_text.cons-cons y x b a, key_le_total a b)

compare_both : (a b : String) → key_le a b ≡ true → key_le b a ≡ true → compare a b ≡ Ordering.eq
compare_both empty_text empty_text p q = refl
compare_both empty_text (y ∷ₜ b) p q = absurd (ground (arith, q, compare_text.cons-nil y b))
compare_both (x ∷ₜ a) empty_text p q = absurd (ground (arith, p, compare_text.cons-nil x a))
compare_both (x ∷ₜ a) (y ∷ₜ b) p q =
    ground (
      arith,
      p,
      q,
      compare_text.cons-cons x y a b,
      compare_text.cons-cons y x b a,
      compare_both a b,
    )

key_le_antisym : (a b : String) → key_le a b ≡ true → key_le b a ≡ true → a ≡ b
key_le_antisym a b p q = path_by_compare a b (compare_both a b p q)

abbrev pub with_devices : WorkerCapability → List DeviceCapability → WorkerCapability
with_devices c ds = record c { devices = ds }

module _ (h : Digest) where
  open h use {dumps}

  -- Where two items have one key they are one item.
  abbrev pub KeyIsItem : Json → Json → Type 0
  KeyIsItem j k = dumps j ≡ dumps k → j ≡ k

  keys_apart :
      (j k : Json)
      → KeyIsItem j k
      → (j ≡ k)
        ⊎ (((key_le (dumps j) (dumps k) ≡ true) × (key_le (dumps k) (dumps j) ≡ false))
            ⊎ ((key_le (dumps j) (dumps k) ≡ false) × (key_le (dumps k) (dumps j) ≡ true)))
  keys_apart j k e = elim (Bool-cases (key_le (dumps j) (dumps k))) [
    | inr p ↦ inr (inr (p, ground (arith, p, key_le_total (dumps j) (dumps k))))
    | inl p ↦ elim (Bool-cases (key_le (dumps k) (dumps j))) [
      | inl q ↦ inl (e (key_le_antisym (dumps j) (dumps k) p q))
      | inr q ↦ inr (inl (p, q))
    ]
  ]

  insert_same :
      (j k : Json) (xs : Array)
      → j ≡ k
      → insert_item h j (insert_item h k xs) ≡ insert_item h k (insert_item h j xs)
  insert_same j k xs same = rw same refl

  insert_item_comm :
      (j k : Json) (xs : Array)
      → KeyIsItem j k
      → insert_item h j (insert_item h k xs) ≡ insert_item h k (insert_item h j xs)
  unfolding insert_item
  insert_item_comm j k empty e = elim (keys_apart j k e) [
    | inl same ↦ insert_same j k empty same
    | inr (inl p) ↦ ground (arith, p)
    | inr (inr p) ↦ ground (arith, p)
  ]
  insert_item_comm j k (item x xs) e = elim (keys_apart j k e) [
    | inl same ↦ insert_same j k (item x xs) same
    | inr (inl p) ↦
        ground (arith, p, key_le_trans (dumps j) (dumps k) (dumps x), insert_item_comm j k xs e)
    | inr (inr p) ↦
        ground (arith, p, key_le_trans (dumps k) (dumps j) (dumps x), insert_item_comm j k xs e)
  ]

  abbrev json_of : DeviceCapability → Json
  json_of d = canonical_value h (device_value d)

  abbrev sorted_devices : List DeviceCapability → Array
  sorted_devices ds = sort_array h (canonical_values h (tuple_of device_value ds))

  sorted_devices_swap :
      (xs : List DeviceCapability) (d e : DeviceCapability) (ys : List DeviceCapability)
      → KeyIsItem (json_of d) (json_of e)
      → sorted_devices (xs ++ d ∷ e ∷ ys) ≡ sorted_devices (xs ++ e ∷ d ∷ ys)
  unfolding sort_array canonical_values
  sorted_devices_swap [] d e ys k = insert_item_comm (json_of d) (json_of e) _ k
  sorted_devices_swap (x ∷ xs) d e ys k =
      ap (insert_item h (json_of x)) (sorted_devices_swap xs d e ys k)

  revision_of_sorted :
      (c : WorkerCapability) (ds es : List DeviceCapability)
      → sorted_devices ds ≡ sorted_devices es
      → compute_capability_revision h (with_devices c ds)
        ≡ compute_capability_revision h (with_devices c es)
  unfolding compute_capability_revision canonical_value without_revision sort_if_array
  revision_of_sorted c ds es p =
      ap
        (λ a. h.sha256 (
          h.dumps (
            without_revision (
              mapping (
                entry "architecture" (j_string c.architecture) (
                  entry "os" (canonical_value h (os_value c.os)) (
                    entry "container_runtime"
                      (canonical_value h (optional container_value c.container_runtime))
                      (entry "network_interfaces"
                        (sort_if_array h (
                          canonical_value h
                            (tuple (tuple_of interface_value c.network_interfaces))))
                        (entry "devices" (array a) (
                          entry "memory_pools"
                            (sort_if_array h
                              (canonical_value h (tuple (tuple_of pool_value c.memory_pools))))
                            (entry "runtime_platforms"
                              (sort_if_array h (
                                canonical_value h
                                  (tuple (tuple_of platform_value c.runtime_platforms))))
                              (entry "capability_revision" (j_string c.capability_revision)
                                done))))))))))))
        p

  -- Two devices that a Worker enumerates one after the other may change places: if the two print as
  -- the same JSON only where they are the same data, the revision stays the same.
  pub revision_swap :
      (c : WorkerCapability) (xs : List DeviceCapability) (d e : DeviceCapability)
      (ys : List DeviceCapability)
      → KeyIsItem (json_of d) (json_of e)
      → compute_capability_revision h (with_devices c (xs ++ d ∷ e ∷ ys))
        ≡ compute_capability_revision h (with_devices c (xs ++ e ∷ d ∷ ys))
  revision_swap c xs d e ys k =
      revision_of_sorted c (xs ++ d ∷ e ∷ ys) (xs ++ e ∷ d ∷ ys) (sorted_devices_swap xs d e ys k)
