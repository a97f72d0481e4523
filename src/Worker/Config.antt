-- ===== src/Worker/Config.antt =====
-- src/edgeshard/control/worker/config.py: the checks of the Worker's configuration. `strip` removes the
-- white space around a text.
use edge_shard_v.Shared.{
  ℕ, String, Bool, false, ◌==◌, ◌&&◌, ◌||◌, Option, none, some, List, [], ◌∷◌, Checked, ok,
  value_error, raise_if, ◌>>◌, is_empty, leb, ltb,
}

pub record ReconnectConfig : Type 0 where
  pub initial_delay : ℕ
  pub max_delay : ℕ

unfoldable pub check_reconnect_config : ReconnectConfig → Checked
check_reconnect_config c = do
  raise_if (leb c.initial_delay 0 || leb c.max_delay 0) value_error
  raise_if (ltb c.max_delay c.initial_delay) value_error

unfoldable pub check_endpoint : String → Checked
check_endpoint endpoint = raise_if (is_empty endpoint) value_error

-- The positive intervals of the Worker section, in one unit.
pub record WorkerSection : Type 0 where
  pub heartbeat_interval : ℕ
  pub capability_refresh_interval : ℕ

unfoldable pub check_worker_section : WorkerSection → Checked
check_worker_section c = do
  raise_if (leb c.heartbeat_interval 0) value_error
  raise_if (leb c.capability_refresh_interval 0) value_error

unfoldable pub check_model_store_section : ℕ → Checked
check_model_store_section inventory_refresh_interval =
    raise_if (leb inventory_refresh_interval 0) value_error

pub record RuntimePlatformConfig : Type 0 where
  pub backend : String
  pub platform : String
  pub image : Option String

abbrev holds : String → String → List (String × String) → Bool
holds backend platform [] = false
holds backend platform ((b, p) ∷ seen) =
    (b == backend && p == platform) || holds backend platform seen

-- `seen` holds the pairs of the entries before.
unfoldable pub check_platforms : List (String × String) → List RuntimePlatformConfig → Checked
check_platforms seen [] = ok tt
check_platforms seen (entry ∷ rest) = do
  raise_if (holds entry.backend entry.platform seen) value_error
  check_platforms ((entry.backend, entry.platform) ∷ seen) rest

pub record ProfilingSection : Type 0 where
  pub enabled : Bool
  pub host : String
  pub port : ℕ
  pub advertise_host : Option String

-- `WILDCARD_PROFILING_HOSTS`
unfoldable pub is_wildcard : String → Bool
is_wildcard host = host == "0.0.0.0" || host == "::"

module _ (strip : String → String) where
  abbrev is_blank : String → Bool
  is_blank text = is_empty (strip text)

  abbrev present_and_blank : Option String → Bool
  present_and_blank none = false
  present_and_blank (some text) = is_blank text

  unfoldable pub check_runtime_platform_config : RuntimePlatformConfig → Checked
  check_runtime_platform_config c = do
    raise_if (is_blank c.backend) value_error
    raise_if (is_blank c.platform) value_error
    raise_if (present_and_blank c.image) value_error

  abbrev check_advertise_host : Option String → Bool → Checked
  check_advertise_host none needed = raise_if needed value_error
  check_advertise_host (some host) needed = do
    raise_if (is_blank host) value_error
    raise_if (is_wildcard host) value_error

  unfoldable pub check_profiling_section : ProfilingSection → Checked
  unfolding is_wildcard
  check_profiling_section c = do
    raise_if (is_empty c.host) value_error
    raise_if (ltb 65_535 c.port) value_error
    check_advertise_host c.advertise_host (c.enabled && is_wildcard c.host)
