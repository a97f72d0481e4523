-- ===== src/Master/Service/Atomicity.antt =====
-- Each handler either does all of its work or raises and leaves the Master as it was.
use edge_shard_v.Shared.{
  String, ◌≡◌, Bool, true, false, ◌==◌, ◌&&◌, ok, err, control_protocol_error, arith, eq_iff,
  is_empty, is_ok, if◌then◌else◌,
}
use edge_shard_v.Shared.Dict.{put}
use edge_shard_v.Cluster.Identity.{check_worker_identity}
use edge_shard_v.Cluster.Capability.{WorkerCapability}
use edge_shard_v.Cluster.State.{WorkerState}
use edge_shard_v.Cluster.Snapshot.{validate_state_against_capability}
use edge_shard_v.Cluster.Revision.{Digest, compute_capability_revision}
use edge_shard_v.Master.Config.{check_master_config}
use edge_shard_v.Master.Requests.{
  control_protocol_version, RegisterWorkerRequest, RegisterWorkerResponse,
  check_register_worker_request, check_register_worker_response,
}
use edge_shard_v.Master.Registry.{upsert, check_worker_record}
use edge_shard_v.Master.Sessions.{new_session, open_session}
use edge_shard_v.Master.StateStore.{StoredState, record_state}
use edge_shard_v.Master.Service.{Master, Clock, register_worker}

abbrev pub stored : WorkerState → Clock → StoredState
stored s now = record { state = s; received_monotonic = now.monotonic; received_wall = now.wall }

-- The Master after a registration.
abbrev pub registered : RegisterWorkerRequest → String → Clock → Master → Master
registered q fresh now m = record m {
  registry =
      put q.identity.worker_id
        (record {
          identity = q.identity;
          capability = q.capability;
          profiling_endpoint = q.profiling_endpoint;
        })
        m.registry;
  sessions =
      put q.identity.worker_id (new_session q.identity.worker_id q.instance_id fresh) m.sessions;
  states = put q.identity.worker_id (stored q.initial_state now) m.states;
}

abbrev pub registration_response : String → Master → RegisterWorkerResponse
registration_response fresh m = record {
  session_id = fresh;
  heartbeat_interval_ms = m.config.heartbeat_interval_ms;
  server_protocol_version = control_protocol_version;
}

module _ (h : Digest) where
  -- The revision fingerprints the capability, and the state refers to nothing outside it.
  abbrev pub admits : WorkerState → WorkerCapability → Bool
  admits s c =
      c.capability_revision == compute_capability_revision h c
      && is_ok (validate_state_against_capability s c)

  -- A registration that its own constructor accepted is all or nothing: it is admitted exactly when
  -- the revision fingerprints the capability and the state fits it, and then the registry, the
  -- session table and the state store are all replaced at the Worker; refused, it raises a protocol
  -- error and the Master is as before.
  pub register_worker_outcome :
      (m : Master) (q : RegisterWorkerRequest) (fresh : String) (now : Clock)
      → check_master_config m.config ≡ ok tt
      → check_worker_identity q.identity ≡ ok tt
      → check_register_worker_request q ≡ ok tt
      → is_empty fresh ≡ false
      → now.wall.aware ≡ true
      → register_worker h q fresh now m ≡ (
          if admits q.initial_state q.capability
          then (ok (registration_response fresh m), registered q fresh now m)
          else (err control_protocol_error, m))
  unfolding register_worker upsert check_worker_record open_session record_state
      check_worker_identity check_register_worker_request check_register_worker_response
      check_master_config
  register_worker_outcome m q fresh now c i w f a = ground (
    arith,
    eq_iff q.identity.worker_id q.initial_state.worker_id,
    eq_iff q.initial_state.worker_id q.identity.worker_id,
  )
