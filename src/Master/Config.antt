-- ===== src/Master/Config.antt =====
-- src/edgeshard/control/master/config.py: the timing of the control plane, in milliseconds. Each
-- value is an `int` that is compared with 0 and with others, so a negative one and 0 fare alike.
use edge_shard_v.Shared.{ℕ, Checked, value_error, raise_if, ◌>>◌, leb, ltb}

pub record MasterConfig : Type 0 where
  pub heartbeat_interval_ms : ℕ
  pub suspect_after_ms : ℕ
  pub offline_after_ms : ℕ
  pub liveness_tick_ms : ℕ

unfoldable pub check_master_config : MasterConfig → Checked
check_master_config c = do
  raise_if (leb c.heartbeat_interval_ms 0) value_error
  raise_if (leb c.suspect_after_ms 0) value_error
  raise_if (leb c.offline_after_ms c.suspect_after_ms) value_error
  raise_if (leb c.liveness_tick_ms 0) value_error
  raise_if (ltb c.suspect_after_ms c.heartbeat_interval_ms) value_error

abbrev pub default_config : MasterConfig
default_config = record {
  heartbeat_interval_ms = 5_000;
  suspect_after_ms = 10_000;
  offline_after_ms = 20_000;
  liveness_tick_ms = 1_000;
}
