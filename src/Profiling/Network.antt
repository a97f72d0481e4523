-- ===== src/Profiling/Network.antt =====
-- src/edgeshard/profiling/network/classifier.py: the interfaces of the Workers, the class of the path
-- between two of them, and the pairs to probe. Lower case, prefixes and the parsing of an address
-- are Python's, parameters; an IPv4 address is its number.
pub mod Pairs
pub mod Selection
pub mod Distinct
pub mod Symmetry
use edge_shard_v.Shared.{
  ℕ, suc, ◌-◌, String, Bool, true, false, not, ◌==◌, ◌==ₙ◌, ◌||◌, Option, none, some, List, [], ◌∷◌,
  ◌++◌, map, Result, Checked, ok, err, value_error, other_error, raise_if, ◌>>=◌, ◌>>◌, is_empty,
  ltb, leb, if◌then◌else◌,
}
use edge_shard_v.Shared.Int.{ℤ}
use edge_shard_v.Cluster.Identity.{WorkerIdentity}
use edge_shard_v.Cluster.Capability.{NetworkInterfaceCapability}
use edge_shard_v.Cluster.Snapshot.{WorkerSnapshot}

pub data InterfaceKind : Type 0 where
  wired wireless overlay unobserved : InterfaceKind

-- `parse` is `ipaddress.ip_address` where that gives an IPv4 address.
pub record Python : Type 0 where
  pub lower : String → String
  pub starts_with : String → String → Bool
  pub parse : String → Option ℕ
  pub shift_right : ℕ → ℕ → ℕ

-- `_OVERLAY_PREFIXES`, sorted by the length of the prefix, the longest first.
unfoldable pub overlay_prefixes : List (String × String)
overlay_prefixes =
    ("tailscale", "tailscale")
    ∷ ("vxlan", "vxlan")
    ∷ ("utun", "tunnel")
    ∷ ("tun", "tunnel")
    ∷ ("tap", "tunnel")
    ∷ ("zt", "zerotier")
    ∷ ("wg", "wireguard")
    ∷ []

pub record InterfaceFacts : Type 0 where
  pub interface_id : String
  pub name : String
  pub kind : InterfaceKind
  pub overlay_type : Option String
  pub addresses : List String
  pub mtu : Option ℤ

pub record WorkerNetworkFacts : Type 0 where
  pub worker_id : String
  pub hostname : String
  pub interfaces : List InterfaceFacts

unfoldable pub check_worker_network_facts : WorkerNetworkFacts → Checked
check_worker_network_facts f = do
  raise_if (is_empty f.worker_id) value_error
  raise_if (is_empty f.hostname) value_error

pub data NetworkPathClass : Type 0 where
  same_host wired_lan wifi_lan overlay_path cross_subnet other_path : NetworkPathClass

abbrev pub is_overlay : InterfaceKind → Bool
is_overlay overlay = true
is_overlay _ = false

abbrev pub is_unobserved : InterfaceKind → Bool
is_unobserved unobserved = true
is_unobserved _ = false

abbrev pub is_wireless : InterfaceKind → Bool
is_wireless wireless = true
is_wireless _ = false

-- `min(candidates) if candidates else None`
unfoldable pub smallest : List ℕ → Option ℕ
smallest [] = none
smallest (a ∷ rest_of) = elim (smallest rest_of) [
  | none ↦ some a
  | some b ↦ if leb a b then some a else some b
]

unfoldable pub find_interface : String → List InterfaceFacts → Option InterfaceFacts
find_interface i [] = none
find_interface i (x ∷ xs) =
    let rest = find_interface i xs in if x.interface_id == i then some x else rest

-- `candidates[0] if len(candidates) == 1 else None`
abbrev pub sole : {A : Type 0} → List A → Option A
sole (x ∷ []) = some x
sole _ = none

abbrev pub first_address : List ℕ → Option ℕ
first_address [] = none
first_address (a ∷ rest_of) = some a

abbrev pub has_any : {A : Type 0} → List A → Bool
has_any [] = false
has_any (x ∷ xs) = true

abbrev pub holds_number : ℕ → List ℕ → Bool
holds_number a [] = false
holds_number a (x ∷ xs) = x ==ₙ a || holds_number a xs

module _ (py : Python) where
  open py use {lower, starts_with, parse, shift_right}

  abbrev overlay_of : String → List (String × String) → Option String
  overlay_of lowered [] = none
  overlay_of lowered ((prefix, kind) ∷ table) =
      let rest = overlay_of lowered table in if starts_with lowered prefix then some kind else rest

  abbrev classified_as : Option String → String → InterfaceKind × Option String
  classified_as (some kind) lowered = (overlay, some kind)
  classified_as none lowered =
      if starts_with lowered "wl" || starts_with lowered "wifi"
      then (wireless, none)
      else if starts_with lowered "eth" || starts_with lowered "en"
      then (wired, none)
      else (unobserved, none)

  unfoldable pub classify_interface : String → InterfaceKind × Option String
  unfolding overlay_prefixes
  classify_interface name =
      let lowered = lower name in classified_as (overlay_of lowered overlay_prefixes) lowered

  abbrev interface_facts : NetworkInterfaceCapability → InterfaceFacts
  interface_facts c =
      let (kind, overlay_type) = classify_interface c.name in
      record {
        interface_id = c.interface_id;
        name = c.name;
        kind = kind;
        overlay_type = overlay_type;
        addresses = c.addresses;
        mtu = c.mtu;
      }

  unfoldable pub worker_network_facts : WorkerSnapshot → Result WorkerNetworkFacts
  unfolding classify_interface
  worker_network_facts w = do
    let facts : WorkerNetworkFacts = record {
      worker_id = w.identity.worker_id;
      hostname = w.identity.hostname;
      interfaces = map interface_facts w.capability.network_interfaces;
    }
    check_worker_network_facts facts
    ok facts

  unfoldable pub ipv4_addresses : List String → List ℕ
  ipv4_addresses [] = []
  ipv4_addresses (a ∷ rest_of) =
      let rest = ipv4_addresses rest_of in elim (parse a) [ none ↦ rest | some n ↦ n ∷ rest ]

  abbrev pub all_addresses : List InterfaceFacts → List ℕ
  all_addresses [] = []
  all_addresses (x ∷ xs) = ipv4_addresses x.addresses ++ all_addresses xs

  unfoldable pub primary_ipv4_address : WorkerNetworkFacts → Option ℕ
  unfolding ipv4_addresses smallest
  primary_ipv4_address f = smallest (all_addresses f.interfaces)

  abbrev pub probeable : List InterfaceFacts → List InterfaceFacts
  probeable [] = []
  probeable (x ∷ xs) =
      let rest = probeable xs in if has_any (ipv4_addresses x.addresses) then x ∷ rest else rest

  unfoldable pub selected_interface : WorkerNetworkFacts → Option String → Option InterfaceFacts
  unfolding find_interface ipv4_addresses
  selected_interface f none = sole (probeable f.interfaces)
  selected_interface f (some i) = find_interface i f.interfaces

  abbrev address_of : Option InterfaceFacts → Option ℕ
  address_of none = none
  address_of (some x) = first_address (ipv4_addresses x.addresses)

  unfoldable pub selected_ipv4_address : WorkerNetworkFacts → Option String → Option ℕ
  unfolding selected_interface
  selected_ipv4_address f i = address_of (selected_interface f i)

  abbrev owner_of : ℕ → List InterfaceFacts → Option InterfaceFacts
  owner_of primary [] = none
  owner_of primary (x ∷ xs) =
      let rest = owner_of primary xs in
      if holds_number primary (ipv4_addresses x.addresses) then some x else rest

  abbrev probed : Option ℕ → List InterfaceFacts → Option InterfaceFacts
  probed none xs = none
  probed (some primary) xs = owner_of primary xs

  unfoldable pub probed_interface : WorkerNetworkFacts → Option InterfaceFacts
  unfolding primary_ipv4_address
  probed_interface f = probed (primary_ipv4_address f) f.interfaces

  unfoldable pub same_subnet : ℕ → ℕ → ℕ → Bool
  same_subnet left right prefix_length =
      shift_right left (32 - prefix_length) ==ₙ shift_right right (32 - prefix_length)

  abbrev pub interface_of : WorkerNetworkFacts → Option String → Option InterfaceFacts
  interface_of f none = probed_interface f
  interface_of f (some i) = selected_interface f (some i)

  abbrev pub target_of : WorkerNetworkFacts → Option String → Option ℕ
  target_of f none = primary_ipv4_address f
  target_of f (some i) = selected_ipv4_address f (some i)

  -- The class of two probed interfaces with their addresses; a missing address fails an assertion.
  unfoldable pub path_between :
      ℕ → InterfaceFacts → InterfaceFacts → Option ℕ → Option ℕ → Result NetworkPathClass
  unfolding same_subnet
  path_between prefix_length source destination (some a) (some b) =
      if not (same_subnet a b prefix_length)
      then ok cross_subnet
      else if is_unobserved source.kind || is_unobserved destination.kind
      then ok other_path
      else if is_wireless source.kind || is_wireless destination.kind
      then ok wifi_lan
      else ok wired_lan
  path_between prefix_length source destination _ _ = err other_error

  unfoldable pub path_over :
      ℕ
      → Option InterfaceFacts
      → Option InterfaceFacts
      → Option ℕ
      → Option ℕ
      → Result NetworkPathClass
  unfolding path_between
  path_over prefix_length (some source) (some destination) a b =
      if is_overlay source.kind || is_overlay destination.kind
      then ok overlay_path
      else path_between prefix_length source destination a b
  path_over prefix_length _ _ a b = ok other_path

  unfoldable pub classify_path :
      ℕ
      → WorkerNetworkFacts
      → Option String
      → WorkerNetworkFacts
      → Option String
      → Result NetworkPathClass
  unfolding path_over probed_interface selected_interface primary_ipv4_address selected_ipv4_address
  classify_path prefix_length source i destination j =
      let over =
        path_over prefix_length (interface_of source i) (interface_of destination j)
          (target_of source i) (target_of destination j) in
      if ltb prefix_length 1 || ltb 32 prefix_length
      then err value_error
      else if source.worker_id == destination.worker_id || source.hostname == destination.hostname
      then ok same_host
      else over
