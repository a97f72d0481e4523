-- ===== src/Master/Liveness/Thresholds.antt =====
-- The thresholds of `_classify`, and what a valid configuration makes of a missed heartbeat.
use edge_shard_v.Shared.{ℕ, ◌-◌, ◌*◌, ◌≤◌, ◌<◌, String, ◌≡◌, ◌↔◌, ok, some, arith}
use edge_shard_v.Shared.Dict.{get}
use edge_shard_v.Cluster.State.{WorkerStatus, online, suspect, offline}
use edge_shard_v.Master.Config.{MasterConfig, check_master_config}
use edge_shard_v.Master.StateStore.{States, StoredState}
use edge_shard_v.Master.Liveness.{classify, status_at, ns_per_ms}

-- The degree to which a Worker has degraded.
abbrev pub rank : WorkerStatus → ℕ
rank online = 0
rank suspect = 1
rank offline = 2

pub classify_mono : (c : MasterConfig) (a b : ℕ) → a ≤ b → rank (classify c a) ≤ rank (classify c b)
unfolding classify
classify_mono c a b h = ground arith

-- Under a configuration that its constructor accepts, the age of the last accepted state decides the
-- status exactly: ONLINE up to the suspect threshold, SUSPECT beyond it and up to the offline
-- threshold, OFFLINE beyond that, and each of the three is the status at some age.
pub classify_exact :
    (c : MasterConfig) (age : ℕ)
    → check_master_config c ≡ ok tt
    → ((classify c age ≡ online) ↔ (age ≤ c.suspect_after_ms * ns_per_ms))
      × ((classify c age ≡ offline) ↔ (c.offline_after_ms * ns_per_ms < age))
      × (classify c (c.offline_after_ms * ns_per_ms) ≡ suspect)
unfolding classify check_master_config
classify_exact c age v = ground arith

module _ (c : MasterConfig) (i : String) (states : States) (e : StoredState) (t : ℕ) where
  -- Under a valid configuration a Worker whose state was received no longer than one heartbeat
  -- interval ago is ONLINE.
  pub status_at_fresh :
      check_master_config c ≡ ok tt
      → get i states ≡ some e
      → t - e.received_monotonic ≤ c.heartbeat_interval_ms * ns_per_ms
      → status_at c i t states ≡ ok online
  unfolding status_at check_master_config
  status_at_fresh v h fresh = ground arith

  -- As long as no newer state of a Worker is stored, its status only gets worse with time.
  pub status_at_mono :
      (u : ℕ)
      → t ≤ u
      → get i states ≡ some e
      → (s s' : WorkerStatus) × (status_at c i t states ≡ ok s)
        × (status_at c i u states ≡ ok s')
        × (rank s ≤ rank s')
  unfolding status_at
  status_at_mono u le h = (
    classify c (t - e.received_monotonic),
    classify c (u - e.received_monotonic),
    ground arith,
    ground arith,
    classify_mono c (t - e.received_monotonic) (u - e.received_monotonic) (omega arith),
  )
