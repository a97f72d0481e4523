-- ===== src/Worker/Agent/Rounds.antt =====
-- At a healthy site the Master accepts the update and the heartbeat of a round.
use edge_shard_v.Shared.{
  some, ℕ, suc, String, ◌≡◌, refl, sym, ◌∙◌, ap, ◌<◌, true, ok, is_ok, arith, eq_iff, Bool-cases,
  inl, inr, ◌==◌,
}
use edge_shard_v.Cluster.Snapshot.{validate_state_against_capability}
use edge_shard_v.Cluster.Revision.{Digest}
use edge_shard_v.Master.Requests.{check_verdict}
use edge_shard_v.Master.Sessions.{SessionInfo}
use edge_shard_v.Master.Service.{Master, accept}
use edge_shard_v.Master.Service.Heartbeats.{
  beaten, updated, heartbeat_outcome, update_capability_outcome,
}
use edge_shard_v.Wire.Requests.RoundTrip.{arrived, arrived-built, arrival, dated-Arrives}
use edge_shard_v.Wire.Transport.Delivery.{heartbeat_delivered, update_delivered}
use edge_shard_v.Worker.Agent.{
  AgentConfig, AgentSession, beat, update_if_changed, update_capability as send_update, call,
  raise_for_rejection,
}
use edge_shard_v.Worker.Agent.Known.{
  Knows, update, beat_request, update-built, beat_request-built, beaten-Knows, updated-Knows,
}
use edge_shard_v.Worker.Agent.Site.{Site, Feeds, Link, handler, world, IsHealthy}

module _ (feeds : Feeds) where
  abbrev pub refreshed : AgentSession → ℕ → AgentSession
  refreshed session k = record session {
    acknowledged_revision = (feeds.inspection k).capability.capability_revision;
  }

module _ {h : Digest} {feeds : Feeds} {worker_id : String} {config : AgentConfig} {link : Link}
    {m₀ : Master} (healthy : IsHealthy h feeds worker_id link config m₀) where
  update_answer :
      (k n : ℕ) (session : AgentSession) (s : Site)
      (knows : Knows feeds worker_id config session n s.master)
      → (handler h feeds).update_capability (update feeds config k session) s ≡ (
        ok accept,
        record {
          master =
              updated (update feeds config k session) (feeds.now s.readings) knows.entry s.master;
          readings = suc s.readings;
        },
      )
  update_answer k n session s knows =
      rw
        (
          update_capability_outcome h s.master (update feeds config k session)
              (feeds.now s.readings) knows.info knows.entry
              (update-built healthy k n session s.master knows) (healthy.received_aware s.readings)
              (rw knows.own_worker knows.info_stored, knows.same_session, knows.same_process)
              (rw knows.own_worker knows.entry_stored) knows.entry_built,
          (healthy.sound k).admitted,
        )
        refl

  update_sent :
      (k n : ℕ) (session : AgentSession) (s : Site)
      (knows : Knows feeds worker_id config session n s.master)
      → send_update config (world h feeds link) session (feeds.inspection k) s ≡ (
        ok tt,
        record {
          master =
              updated (update feeds config k session) (feeds.now s.readings) knows.entry s.master;
          readings = suc s.readings;
        },
      )
  unfolding send_update call raise_for_rejection check_verdict
  update_sent k n session s knows =
      let sound = healthy.sound k in
      let built = update-built healthy k n session s.master knows in
      rw
        (
          built,
          update_delivered link.protobuf link.times link.render (handler h feeds) link.channel
              healthy.linked (update feeds config k session) s _ accept
              (record {
                built = built;
                capability_sendable = sound.capability_sendable;
                state_sendable = sound.state_sendable;
              })
              (update_answer k n session s knows) refl,
        )
        refl

  -- The step of a round that brings the capability up to date.
  updated_or_same :
      (k n : ℕ) (session : AgentSession) (s : Site)
      → Knows feeds worker_id config session n s.master
      → (s' : Site) × (update_if_changed config
            (world h feeds link)
            ((feeds.inspection k).capability.capability_revision == session.acknowledged_revision)
            session
            (feeds.inspection k)
            s
          ≡ (ok tt, s'))
        × Knows feeds worker_id config (refreshed feeds session k) n s'.master
  updated_or_same k n session s knows =
      elim (Bool-cases
        ((feeds.inspection k).capability.capability_revision == session.acknowledged_revision)) [
          | inl e ↦ (
            s,
            rw e refl,
            record {
              info = knows.info;
              entry = knows.entry;
              reading = knows.reading;
              info_stored = knows.info_stored;
              entry_stored = knows.entry_stored;
              same_session = knows.same_session;
              same_process = knows.same_process;
              last_accepted = knows.last_accepted;
              same_capability = knows.same_capability;
              acknowledged =
                  (eq_iff (feeds.inspection k).capability.capability_revision
                      session.acknowledged_revision).0
                    e
                  ∙ knows.acknowledged;
              entry_built = knows.entry_built;
              entry_worker = knows.entry_worker;
              own_worker = knows.own_worker;
              named = knows.named;
            },
          )
          | inr e ↦ (
            record {
              master =
                  updated (update feeds config k session) (feeds.now s.readings) knows.entry
                    s.master;
              readings = suc s.readings;
            },
            rw (e, update_sent k n session s knows) refl,
            updated-Knows healthy k n (feeds.now s.readings) session s.master knows,
          )
        ]

  abbrev beaten_site : ℕ → ℕ → ℕ → AgentSession → SessionInfo → Site → Site
  beaten_site k j sequence session info s = record {
    master =
        beaten (beat_request feeds config k j sequence session) (feeds.now s.readings) info
          s.master;
    readings = suc s.readings;
  }

  fits_of :
      (k : ℕ)
      → is_ok (
          validate_state_against_capability
            (feeds.inspection k).state
            (feeds.inspection k).capability)
        ≡ true
  fits_of k = ground (arith, (healthy.sound k).admitted)

  heartbeat_answer :
      (k j n : ℕ) (session : AgentSession) (s : Site)
      (knows : Knows feeds worker_id config (refreshed feeds session k) n s.master)
      → (handler h feeds).heartbeat
          (arrived
            (beat_request feeds config k j (suc n) session)
            (some (healthy.reported j).later))
          s
        ≡ (ok accept, beaten_site k j (suc n) session knows.info s)
  heartbeat_answer k j n session s knows =
      let same = healthy.collision_free knows.reading k (sym knows.acknowledged) in
      rw
        (
          heartbeat_outcome s.master
              (arrived (beat_request feeds config k j (suc n) session)
                (some (healthy.reported j).later))
              (feeds.now s.readings) knows.info knows.entry
              (arrived-built (beat_request feeds config k j (suc n) session)
                (some (healthy.reported j).later)
                (beat_request-built healthy k j n (refreshed feeds session k) s.master knows)
                (dated-Arrives link.times (feeds.wall j) (healthy.reported j)))
              (healthy.received_aware s.readings)
              (
                rw knows.own_worker knows.info_stored,
                rw knows.own_worker knows.entry_stored,
                knows.same_session,
                knows.same_process,
                omega (arith, knows.last_accepted),
                ap (λ c. c.capability_revision) (knows.same_capability ∙ same),
              ),
          knows.same_capability ∙ same,
          fits_of k,
        )
        refl

  -- A round after its sleep
  pub beat_accepted :
      (n : ℕ) (session : AgentSession) (s : Site)
      → Knows feeds worker_id config session n s.master
      → suc n < 9_223_372_036_854_775_808
      → (s' : Site) × (beat config (world h feeds link) session (suc n) s
          ≡ (ok (refreshed feeds session s.readings), s'))
        × Knows feeds worker_id config (refreshed feeds session s.readings) (suc n) s'.master
  unfolding beat call raise_for_rejection check_verdict arrival
  beat_accepted n session s knows fits =
      let k = s.readings in
      let sound = healthy.sound k in
      let (s₂, updated_to, knows₂) =
        updated_or_same k n session (record { master = s.master; readings = suc k }) knows in
      let j = s₂.readings in
      let s₃ : Site = record { master = s₂.master; readings = suc j } in
      let built = beat_request-built healthy k j n (refreshed feeds session k) s₂.master knows₂ in
      (
        beaten_site k j (suc n) session knows₂.info s₃,
        rw
            (
              updated_to,
              built,
              heartbeat_delivered link.protobuf link.times link.render (handler h feeds)
                  link.channel healthy.linked (beat_request feeds config k j (suc n) session) s₃ _
                  accept
                  (record {
                    built = built;
                    sequence_fits = fits;
                    state_sendable = sound.state_sendable;
                    time = arrival link.times (feeds.wall j) (healthy.reported j);
                  })
                  (heartbeat_answer k j n session s₃ knows₂) refl,
            )
            refl,
        beaten-Knows healthy (beat_request feeds config k j (suc n) session) n k (feeds.now (suc j))
            (refreshed feeds session k) s₂.master knows₂ knows₂.own_worker refl,
      )
