-- ===== src/Worker/Agent/Known.antt =====
-- What the Agent and the Master hold of each other between two rounds, and the Agent's requests.
use edge_shard_v.Shared.{
  ℕ, suc, String, ◌≡◌, refl, false, some, ok, is_empty, arith, eq_iff, ==_refl,
}
use edge_shard_v.Shared.Dict.{get, get-put}
use edge_shard_v.Cluster.Identity.{check_worker_identity}
use edge_shard_v.Cluster.Revision.{Digest}
use edge_shard_v.Master.Requests.{
  control_protocol_version, RegisterWorkerRequest, check_register_worker_request, HeartbeatRequest,
  check_heartbeat_request, UpdateCapabilityRequest, check_update_capability_request,
}
use edge_shard_v.Master.Registry.{WorkerRecord, check_worker_record}
use edge_shard_v.Master.Sessions.{SessionInfo, new_session}
use edge_shard_v.Master.Service.{Master, Clock}
use edge_shard_v.Master.Service.Atomicity.{registered}
use edge_shard_v.Master.Service.Heartbeats.{beaten, updated}
use edge_shard_v.Worker.Agent.{AgentConfig, AgentSession}
use edge_shard_v.Worker.Agent.Site.{Site, Feeds, Link, IsHealthy}

module _ (feeds : Feeds) (config : AgentConfig) where
  abbrev pub registration : ℕ → RegisterWorkerRequest
  registration k = record {
    protocol_version = control_protocol_version;
    instance_id = config.instance_id;
    identity = (feeds.inspection k).identity;
    capability = (feeds.inspection k).capability;
    initial_state = (feeds.inspection k).state;
    profiling_endpoint = config.profiling_endpoint;
  }

  abbrev pub update : ℕ → AgentSession → UpdateCapabilityRequest
  update k session = record {
    worker_id = session.worker_id;
    instance_id = config.instance_id;
    session_id = session.session_id;
    capability = (feeds.inspection k).capability;
    state = (feeds.inspection k).state;
  }

  abbrev pub beat_request : ℕ → ℕ → ℕ → AgentSession → HeartbeatRequest
  beat_request k j sequence session = record {
    worker_id = session.worker_id;
    instance_id = config.instance_id;
    session_id = session.session_id;
    sequence_number = sequence;
    capability_revision = (feeds.inspection k).capability.capability_revision;
    state = (feeds.inspection k).state;
    worker_reported_at = some (feeds.wall j);
  }

  unfoldable pub first_session : ℕ → Site → AgentSession
  first_session k s = record {
    worker_id = (feeds.inspection k).identity.worker_id;
    session_id = feeds.fresh (suc k);
    heartbeat_interval = s.master.config.heartbeat_interval_ms;
    acknowledged_revision = (feeds.inspection k).capability.capability_revision;
  }

  unfoldable pub registered_site : ℕ → Site → Site
  registered_site k s = record {
    master = registered (registration k) (feeds.fresh s.readings) (feeds.now s.readings) s.master;
    readings = suc s.readings;
  }

module _ (feeds : Feeds) (worker_id : String) (config : AgentConfig) where
  -- The Master holds the Agent's session, with `n` as the last accepted number, and the capability
  -- that the Agent had acknowledged, which is one of its readings.
  pub record Knows (session : AgentSession) (n : ℕ) (m : Master) : Type 0 where
    pub info : SessionInfo
    pub entry : WorkerRecord
    pub reading : ℕ
    pub info_stored : get worker_id m.sessions ≡ some info
    pub entry_stored : get worker_id m.registry ≡ some entry
    pub same_session : info.session_id ≡ session.session_id
    pub same_process : info.instance_id ≡ config.instance_id
    pub last_accepted : info.last_accepted_sequence ≡ n
    pub same_capability : entry.capability ≡ (feeds.inspection reading).capability
    pub acknowledged :
        session.acknowledged_revision ≡ (feeds.inspection reading).capability.capability_revision
    pub entry_built : check_worker_record entry ≡ ok tt
    pub entry_worker : entry.identity.worker_id ≡ worker_id
    pub own_worker : session.worker_id ≡ worker_id
    pub named : is_empty session.session_id ≡ false

module _ {h : Digest} {feeds : Feeds} {worker_id : String} {config : AgentConfig} {link : Link}
    {m₀ : Master} (healthy : IsHealthy h feeds worker_id link config m₀) where
  pub registration-built :
      (k : ℕ) → check_register_worker_request (registration feeds config k) ≡ ok tt
  unfolding check_register_worker_request
  registration-built k =
      let sound = healthy.sound k in
      ground (
        arith,
        healthy.process,
        healthy.endpoint,
        sound.same_version,
        sound.same_worker,
        sound.same_state,
        eq_iff (feeds.inspection k).identity.protocol_version control_protocol_version,
        ==_refl control_protocol_version,
        ==_refl worker_id,
      )

  pub update-built :
      (k n : ℕ) (session : AgentSession) (m : Master)
      → Knows feeds worker_id config session n m
      → check_update_capability_request (update feeds config k session) ≡ ok tt
  unfolding check_update_capability_request check_worker_identity
  update-built k n session m knows =
      let sound = healthy.sound k in
      ground (
        arith,
        healthy.process,
        sound.identity_built,
        sound.same_worker,
        sound.same_state,
        knows.own_worker,
        knows.named,
        ==_refl worker_id,
      )

  pub beat_request-built :
      (k j n : ℕ) (session : AgentSession) (m : Master)
      → Knows feeds worker_id config session n m
      → check_heartbeat_request (beat_request feeds config k j (suc n) session) ≡ ok tt
  unfolding check_heartbeat_request check_worker_identity
  beat_request-built k j n session m knows =
      let sound = healthy.sound k in
      ground (
        arith,
        healthy.process,
        sound.identity_built,
        sound.same_worker,
        sound.same_state,
        knows.own_worker,
        knows.named,
        ==_refl worker_id,
        sound.revised,
        healthy.reported_aware j,
      )

  pub beaten-Knows :
      (q : HeartbeatRequest) (n k : ℕ) (now : Clock) (session : AgentSession) (m : Master)
      (knows : Knows feeds worker_id config session n m)
      → q.worker_id ≡ worker_id
      → q.sequence_number ≡ suc n
      → Knows feeds worker_id config session (suc n) (beaten q now knows.info m)
  beaten-Knows q n k now session m knows same number = record {
    info = record knows.info { last_accepted_sequence = q.sequence_number };
    entry = knows.entry;
    reading = knows.reading;
    info_stored = rw (get-put q.worker_id worker_id _ m.sessions, same, ==_refl worker_id) refl;
    entry_stored = knows.entry_stored;
    same_session = knows.same_session;
    same_process = knows.same_process;
    last_accepted = number;
    same_capability = knows.same_capability;
    acknowledged = knows.acknowledged;
    entry_built = knows.entry_built;
    entry_worker = knows.entry_worker;
    own_worker = knows.own_worker;
    named = knows.named;
  }

  pub updated-Knows :
      (k n : ℕ) (now : Clock) (session : AgentSession) (m : Master)
      (knows : Knows feeds worker_id config session n m)
      → Knows feeds worker_id config
          (record session {
            acknowledged_revision = (feeds.inspection k).capability.capability_revision;
          })
          n
          (updated (update feeds config k session) now knows.entry m)
  unfolding check_worker_record
  updated-Knows k n now session m knows = record {
    info = knows.info;
    entry = record knows.entry { capability = (feeds.inspection k).capability };
    reading = k;
    info_stored = knows.info_stored;
    entry_stored =
        rw
          (
            get-put knows.entry.identity.worker_id worker_id _ m.registry,
            knows.entry_worker,
            ==_refl worker_id,
          )
          refl;
    same_session = knows.same_session;
    same_process = knows.same_process;
    last_accepted = knows.last_accepted;
    same_capability = refl;
    acknowledged = refl;
    entry_built = knows.entry_built;
    entry_worker = knows.entry_worker;
    own_worker = knows.own_worker;
    named = knows.named;
  }

  pub registered-Knows :
      (k : ℕ) (s : Site)
      → Knows feeds worker_id config
          (first_session feeds config k s)
          0
          (registered_site feeds config k (record { master = s.master; readings = suc k })).master
  unfolding first_session registered_site new_session check_worker_record check_worker_identity
  registered-Knows k s =
      let sound = healthy.sound k in
      record {
        info =
            new_session (feeds.inspection k).identity.worker_id config.instance_id
              (feeds.fresh (suc k));
        entry = record {
          identity = (feeds.inspection k).identity;
          capability = (feeds.inspection k).capability;
          profiling_endpoint = config.profiling_endpoint;
        };
        reading = k;
        info_stored =
            rw
              (
                get-put (feeds.inspection k).identity.worker_id worker_id _ s.master.sessions,
                sound.same_worker,
                ==_refl worker_id,
              )
              refl;
        entry_stored =
            rw
              (
                get-put (feeds.inspection k).identity.worker_id worker_id _ s.master.registry,
                sound.same_worker,
                ==_refl worker_id,
              )
              refl;
        same_session = refl;
        same_process = refl;
        last_accepted = refl;
        same_capability = refl;
        acknowledged = refl;
        entry_built = ground (arith, sound.identity_built, healthy.endpoint);
        entry_worker = sound.same_worker;
        own_worker = sound.same_worker;
        named = healthy.named (suc k);
      }
