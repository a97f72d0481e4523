-- ===== src/Worker/Agent/Site.antt =====
-- An Agent whose client reaches a Master over a channel: the world of src/edgeshard/control/worker/master_client.py
-- made of the Master's handlers, the wire between them, and feeds for what both sides read from outside.
use edge_shard_v.Shared.{ℕ, suc, String, false, ◌≡◌, true, Result, ok, is_empty}
use edge_shard_v.Shared.Exec.{Exec}
use edge_shard_v.Shared.Int.{pos}
use edge_shard_v.Cluster.Identity.{check_worker_identity}
use edge_shard_v.Cluster.Revision.{Digest}
use edge_shard_v.Cluster.Snapshot.{Datetime, present_and_empty}
use edge_shard_v.Master.Config.{check_master_config}
use edge_shard_v.Master.Requests.{Detail, control_protocol_version}
use edge_shard_v.Master.Service.{Master, Clock, register_worker, heartbeat, update_capability}
use edge_shard_v.Master.Service.Atomicity.{admits}
use edge_shard_v.Wire.Fields.{Protobuf, InInt32}
use edge_shard_v.Wire.Capability.RoundTrip.{IsSendable}
use edge_shard_v.Wire.State.RoundTrip.{IsSendableState}
use edge_shard_v.Wire.Requests.{Times}
use edge_shard_v.Wire.Requests.RoundTrip.{IsDated}
use edge_shard_v.Wire.Transport.{
  Channel, Handler, client_register_worker, client_heartbeat, client_update_capability,
}
use edge_shard_v.Wire.Transport.Delivery.{IsLinked}
use edge_shard_v.Worker.Agent.{World, AgentConfig, LocalInspection}

-- The Master, and how many readings were taken so far.
pub record Site : Type 0 where
  pub master : Master
  pub readings : ℕ

-- What the readings are: of the Worker's inspector, of the session factory, of the clocks.
pub record Feeds : Type 0 where
  pub inspection : ℕ → LocalInspection
  pub fresh : ℕ → String
  pub now : ℕ → Clock
  pub wall : ℕ → Datetime

-- The wire between the two.
pub record Link : Type 1 where
  pub protobuf : Protobuf
  pub times : Times
  pub render : Detail → String
  pub channel : Channel

abbrev pub after : {A : Type 0} → Site → Result A × Master → Result A × Site
after s (r, m) = (r, record { master = m; readings = suc s.readings })

abbrev pub read : {A : Type 0} → (ℕ → A) → Exec Site A
read feed s = (ok (feed s.readings), record { master = s.master; readings = suc s.readings })

module _ (h : Digest) (feeds : Feeds) where
  abbrev pub handler : Handler Site
  handler = record {
    register_worker = λ q s.
        after s (register_worker h q (feeds.fresh s.readings) (feeds.now s.readings) s.master);
    heartbeat = λ q s. after s (heartbeat q (feeds.now s.readings) s.master);
    update_capability = λ q s. after s (update_capability h q (feeds.now s.readings) s.master);
  }

  -- Nobody stops the Agent.
  abbrev pub world : Link → World Site
  world link = record {
    register_worker =
        client_register_worker link.protobuf link.times link.render handler link.channel;
    heartbeat = client_heartbeat link.protobuf link.times link.render handler link.channel;
    update_capability =
        client_update_capability link.protobuf link.times link.render handler link.channel;
    start = λ s. (ok tt, s);
    inspect = read feeds.inspection;
    close = λ s. (ok tt, s);
    sleep = λ d s. (ok tt, s);
    clock = read feeds.wall;
    is_stopping = λ s. false;
  }

  -- What the inspector reports: always one Worker, described by objects that their constructors
  -- accepted, with a state that fits the capability and a revision that fingerprints it.
  pub record IsSound (worker_id : String) (i : LocalInspection) : Type 0 where
    pub identity_built : check_worker_identity i.identity ≡ ok tt
    pub same_version : i.identity.protocol_version ≡ control_protocol_version
    pub same_worker : i.identity.worker_id ≡ worker_id
    pub same_state : i.state.worker_id ≡ worker_id
    pub admitted : admits h i.state i.capability ≡ true
    pub revised : is_empty i.capability.capability_revision ≡ false
    pub capability_sendable : IsSendable i.capability
    pub state_sendable : IsSendableState i.state

  -- The assumptions on a site: a valid configuration on both sides, a wire that works, sound
  -- readings, clocks in the range of a message's field and of the calendar, and no two capabilities of this Worker with one revision.
  pub record IsHealthy (worker_id : String) (link : Link) (config : AgentConfig) (m : Master)
      : Type 1 where
    pub linked : IsLinked link.protobuf link.render link.channel
    pub valid : check_master_config m.config ≡ ok tt
    pub interval_fits : InInt32 (pos m.config.heartbeat_interval_ms)
    pub process : is_empty config.instance_id ≡ false
    pub endpoint : present_and_empty config.profiling_endpoint ≡ false
    pub sound : (k : ℕ) → IsSound worker_id (feeds.inspection k)
    pub collision_free :
        (j k : ℕ)
        → (feeds.inspection j).capability.capability_revision
          ≡ (feeds.inspection k).capability.capability_revision
        → (feeds.inspection j).capability ≡ (feeds.inspection k).capability
    pub named : (k : ℕ) → is_empty (feeds.fresh k) ≡ false
    pub received_aware : (k : ℕ) → (feeds.now k).wall.aware ≡ true
    pub reported_aware : (k : ℕ) → (feeds.wall k).aware ≡ true
    pub reported : (k : ℕ) → IsDated link.times (feeds.wall k)
