-- ===== src/Worker/Agent/Accepted.antt =====
-- At a healthy site the Master accepts everything that the Agent sends, round after round.
use edge_shard_v.Shared.{ℕ, zero, suc, String, ◌≡◌, refl, ap, ◌<◌, ok, arith, ==_refl, ◌+◌}
use edge_shard_v.Cluster.Revision.{Digest}
use edge_shard_v.Master.Requests.{control_protocol_version, check_register_worker_response}
use edge_shard_v.Master.Config.{check_master_config}
use edge_shard_v.Master.Service.{Master}
use edge_shard_v.Master.Service.Atomicity.{registration_response, register_worker_outcome}
use edge_shard_v.Wire.Transport.Delivery.{registration_delivered}
use edge_shard_v.Worker.Agent.{AgentConfig, AgentSession, register, call}
use edge_shard_v.Worker.Agent.Run.{
  beating, Agent, turn, turns, begin, phase_turn, registration_turn, heartbeat_turn, after_sleep,
  after_register, after_beat,
}
use edge_shard_v.Worker.Agent.Known.{
  Knows, registration, first_session, registered_site, registration-built, registered-Knows,
}
use edge_shard_v.Worker.Agent.Rounds.{refreshed, beat_accepted}
use edge_shard_v.Worker.Agent.Site.{Site, Feeds, Link, handler, world, IsHealthy}

module _ {h : Digest} {feeds : Feeds} {worker_id : String} {config : AgentConfig} {link : Link}
    {m₀ : Master} (healthy : IsHealthy h feeds worker_id link config m₀) where
  next_beating :
      (session : AgentSession) (delay k : ℕ)
      → beating session (k + 1) delay ≡ beating session (suc k) delay
  next_beating session delay k =
      let e : (k + 1) ≡ suc k = omega arith in ap (λ j. beating session j delay) e

  turn_accepted :
      (n : ℕ) (session : AgentSession) (delay : ℕ) (a : Agent Site)
      → a.phase ≡ beating session (suc n) delay
      → Knows feeds worker_id config session n a.world.master
      → suc n < 9_223_372_036_854_775_808
      → (session' : AgentSession) × ((turn config (world h feeds link) a).phase
          ≡ beating session' (suc (suc n)) delay)
        × Knows feeds worker_id config session'
            (suc n)
            (turn config (world h feeds link) a).world.master
  unfolding turn phase_turn heartbeat_turn after_sleep after_beat
  turn_accepted n session delay a e knows fits =
      let (s', done, knows') = beat_accepted healthy n session a.world knows fits in
      (
        refreshed feeds session a.world.readings,
        rw (e, done) (next_beating (refreshed feeds session a.world.readings) delay (suc n)),
        rw (e, done) knows',
      )

  registration_answer :
      (k : ℕ) (s : Site)
      → s.master ≡ m₀
      → (handler h feeds).register_worker (registration feeds config k) s ≡ (
        ok (registration_response (feeds.fresh s.readings) s.master),
        registered_site feeds config k s,
      )
  unfolding registered_site
  registration_answer k s e =
      rw
        (
          register_worker_outcome h s.master (registration feeds config k) (feeds.fresh s.readings)
              (feeds.now s.readings) (rw e healthy.valid) (healthy.sound k).identity_built
              (registration-built healthy k) (healthy.named s.readings)
              (healthy.received_aware s.readings),
          (healthy.sound k).admitted,
        )
        refl

  response-built :
      (k : ℕ) (s : Site)
      → s.master ≡ m₀
      → check_register_worker_response (registration_response (feeds.fresh k) s.master) ≡ ok tt
  unfolding check_register_worker_response check_master_config
  response-built k s e =
      let valid : check_master_config s.master.config ≡ ok tt = rw e healthy.valid in
      ground (arith, valid, healthy.named k, ==_refl control_protocol_version)

  registration_accepted :
      (s : Site)
      → s.master ≡ m₀
      → (s' : Site) × (register config (world h feeds link) s
          ≡ (ok (first_session feeds config s.readings s), s'))
        × Knows feeds worker_id config (first_session feeds config s.readings s) 0 s'.master
  unfolding register call first_session registered_site
  registration_accepted s e =
      let k = s.readings in
      let sound = healthy.sound k in
      let s₁ : Site = record { master = s.master; readings = suc k } in
      let built = registration-built healthy k in
      (
        registered_site feeds config k s₁,
        rw
            (
              built,
              registration_delivered link.protobuf link.times link.render (handler h feeds)
                  link.channel healthy.linked (registration feeds config k) s₁ _ _
                  (record {
                    built = built;
                    identity_built = sound.identity_built;
                    capability_sendable = sound.capability_sendable;
                    state_sendable = sound.state_sendable;
                  })
                  (registration_answer k s₁ e) (response-built (suc k) s₁ e)
                  (rw e healthy.interval_fits),
            )
            refl,
        registered-Knows healthy k s,
      )

  registration_turn_accepted :
      (delay : ℕ) (s : Site)
      → s.master ≡ m₀
      → (session : AgentSession) × ((registration_turn config (world h feeds link) delay s).phase
          ≡ beating session 1 config.reconnect.initial_delay)
        × Knows feeds worker_id config session 0
            (registration_turn config (world h feeds link) delay s).world.master
  unfolding registration_turn after_register
  registration_turn_accepted delay s e =
      let (s', done, knows) = registration_accepted s e in
      (first_session feeds config s.readings s, rw done refl, rw done knows)

  -- An Agent at a healthy site, with nobody else at the Master, is registered by its first turn and
  -- has its heartbeats 1, 2, ... accepted by the following ones, over the wire and with capability
  -- updates where the revision changed: after `n + 1` turns it is in its heartbeat loop with the next
  -- number, and the Master holds its session, its last number `n` and its acknowledged capability.
  -- The numbers stay below 2 ** 63, what the field of the message holds. A site is healthy where the
  -- channel is up and the fields hold what is in their range; where the configurations are valid, what
  -- the inspector reports is valid and sendable, of one Worker, and no two of its capabilities have one
  -- revision; where ids are not empty and clocks are aware; and where the whole
  -- milliseconds of a reported time fit their field and are an aware time of the calendar, which is
  -- what arrives in place of the reported one.
  pub always_accepted :
      (n : ℕ) (s : Site)
      → s.master ≡ m₀
      → n < 9_223_372_036_854_775_808
      → (session : AgentSession) × ((turns config
            (world h feeds link)
            (suc n)
            (begin config (world h feeds link) s)).phase
          ≡ beating session (suc n) config.reconnect.initial_delay)
        × Knows feeds worker_id config session n
            (turns config
              (world h feeds link)
              (suc n)
              (begin config (world h feeds link) s)).world.master
  unfolding turns turn phase_turn begin
  always_accepted zero s e small = registration_turn_accepted config.reconnect.initial_delay s e
  always_accepted (suc n) s e small =
      let (session, phase, knows) = always_accepted n s e (omega (arith, small)) in
      turn_accepted n session config.reconnect.initial_delay
        (turns config (world h feeds link) (suc n) (begin config (world h feeds link) s)) phase
        knows small
