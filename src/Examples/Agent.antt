-- ===== src/Examples/Agent.antt =====
-- A wire, an Agent of the Worker of the other examples, and the Master that it talks to.
use Prim.Native.Nat.{◌/◌}
use edge_shard_v.Shared.{
  ℕ, ◌*◌, List, [], ◌∷◌, ◌++◌, ◌≡◌, refl, false, none, Result, ok, err, arith, true, abort_error,
  aio_rpc_error, os_error,
}
use edge_shard_v.Shared.Int.{ℤ, pos, negsuc}
use edge_shard_v.Cluster.Identity.{check_worker_identity, check_device_identity}
use edge_shard_v.Cluster.Capability.{
  check_os_info, check_device_capability, check_memory_pool_capability, check_worker_capability,
}
use edge_shard_v.Cluster.Revision.{compute_capability_revision}
use edge_shard_v.Cluster.Snapshot.{
  Datetime, validate_state_against_capability, check_devices, check_pools, check_instances,
}
use edge_shard_v.Cluster.State.{check_device_state, check_memory_pool_state, check_worker_state}
use edge_shard_v.Master.Config.{check_master_config, default_config}
use edge_shard_v.Master.Requests.{check_register_worker_request}
use edge_shard_v.Master.Service.{init}
use edge_shard_v.Wire.Fields.{Protobuf, StoresInRange, Trips}
use edge_shard_v.Wire.Capability.RoundTrip.{IsSendable}
use edge_shard_v.Wire.State.RoundTrip.{IsSendableState}
use edge_shard_v.Wire.Requests.{
  register_request_to_wire, register_request_from_wire, timestamp_to_ms, timestamp_from_ms,
}
use edge_shard_v.Wire.Requests.RoundTrip.{register_request_trip}
use edge_shard_v.Worker.Config.{check_reconnect_config}
use edge_shard_v.Worker.Agent.{AgentConfig, AgentSession, World, register, call}
use edge_shard_v.Worker.Agent.Run.{beating, registering, turns, begin}
use edge_shard_v.Worker.Agent.Backoff.{IsOrderly, turns-IsOrderly, outage_delays, doubled}
use edge_shard_v.Worker.Agent.Site.{Feeds, Link, world, IsHealthy}
use edge_shard_v.Worker.Agent.Known.{Knows}
use edge_shard_v.Worker.Agent.Accepted.{always_accepted}
use edge_shard_v.Examples.Data.{digest, identity, capability, state, clock, registration}

-- A runtime that stores every number, and a channel that is up.
abbrev protobuf : Protobuf
protobuf = record { set_int32 = λ n. ok n; set_int64 = λ n. ok n }

stores : StoresInRange protobuf
stores = record { int32_kept = λ n f. refl; int64_kept = λ n f. refl }

sendable : IsSendable capability
unfolding check_worker_capability check_os_info check_device_identity check_device_capability
    check_memory_pool_capability
sendable = record {
  built = refl;
  os_built = refl;
  runtime_built = tt;
  interfaces_built = tt;
  devices_built = ((refl, refl), tt);
  pools_built = ((refl, omega arith), tt);
  platforms_built = tt;
}

sendable_state : IsSendableState state
unfolding check_worker_state check_device_state check_memory_pool_state
sendable_state = record {
  built = refl;
  devices_built = (refl, tt);
  memories_built = ((refl, omega arith), tt);
  instances_built = tt;
  models_built = tt;
}

register_request_trip_example :
    Trips (register_request_to_wire protobuf) register_request_from_wire registration
unfolding check_register_worker_request check_worker_identity
register_request_trip_example =
    register_request_trip protobuf stores registration refl refl sendable sendable_state

-- Instants are microseconds since 1970; a float holds as many of them as it needs.
abbrev instant_of : ℤ → Datetime
instant_of (pos n) = record { instant = n * 1_000; aware = true }
instant_of (negsuc n) = record { instant = 0; aware = true }

abbrev delivered : {A : Type 0} → Result A → Result A
delivered (ok a) = ok a
delivered (err (abort_error c)) = err (aio_rpc_error c)
delivered (err x) = err x

abbrev link : Link
link = record {
  protobuf = protobuf;
  times = record {
    Float = ℕ;
    timestamp = λ d. d.instant;
    multiply = λ f k. f * k;
    int = λ f. pos (f / 1_000_000);
    epoch = record { instant = 0; aware = true };
    add_milliseconds = λ d ms. ok (instant_of ms);
  };
  render = λ d. "detail";
  channel = record { deliver = λ r. delivered r };
}

abbrev config : AgentConfig
config = record {
  reconnect = record { initial_delay = 1; max_delay = 30 };
  instance_id = "i1";
  profiling_endpoint = none;
}

abbrev feeds : Feeds
feeds = record {
  inspection = λ k. record { identity = identity; capability = capability; state = state };
  fresh = λ k. "s1";
  now = clock;
  wall = λ k. record { instant = 7_001_500; aware = true };
}

healthy : IsHealthy digest feeds "w1" link config (init default_config)
unfolding check_master_config check_worker_identity timestamp_to_ms timestamp_from_ms
    compute_capability_revision validate_state_against_capability check_devices check_pools
    check_instances
healthy = record {
  linked = record {
    stores = stores;
    nonempty = λ d. refl;
    up = record { returned = λ a. refl; aborted = λ c. refl };
  };
  valid = refl;
  interval_fits = omega arith;
  process = refl;
  endpoint = refl;
  sound = λ k. record {
    identity_built = refl;
    same_version = refl;
    same_worker = refl;
    same_state = refl;
    admitted = refl;
    revised = refl;
    capability_sendable = sendable;
    state_sendable = sendable_state;
  };
  collision_free = λ j k e. refl;
  named = λ k. refl;
  received_aware = λ k. refl;
  reported_aware = λ k. refl;
  reported = λ k. record {
    fits = omega arith;
    later = record { instant = 7_001_000; aware = true };
    added = refl;
    later_aware = refl;
  };
}

-- After a registration and two heartbeats.
always_accepted_example :
    (session : AgentSession) × ((turns config (world digest feeds link) 3 (
        begin config
          (world digest feeds link)
          (record { master = init default_config; readings = 0 }))).phase
      ≡ beating session 3 1)
    × Knows feeds "w1" config session 2
        (turns config (world digest feeds link) 3 (
          begin config
            (world digest feeds link)
            (record { master = init default_config; readings = 0 }))).world.master
always_accepted_example =
    always_accepted healthy 2 (record { master = init default_config; readings = 0 }) refl
      (omega arith)

turns-IsOrderly_example : IsOrderly config (world digest feeds link) (
    turns config (world digest feeds link) 3 (
      begin config
        (world digest feeds link)
        (record { master = init default_config; readings = 0 })))
unfolding check_reconnect_config
turns-IsOrderly_example =
    turns-IsOrderly config (world digest feeds link) refl 3
      (record { master = init default_config; readings = 0 })

-- The same Agent with a client that finds no Master.
abbrev nowhere : World (List ℕ)
nowhere = record {
  register_worker = λ q s. (err os_error, s);
  heartbeat = λ q s. (err os_error, s);
  update_capability = λ q s. (err os_error, s);
  start = λ s. (ok tt, s);
  inspect = λ s. (ok (record { identity = identity; capability = capability; state = state }), s);
  close = λ s. (ok tt, s);
  sleep = λ d s. (ok tt, s ++ d ∷ []);
  clock = λ s. (ok (record { instant = 7; aware = true }), s);
  is_stopping = λ s. false;
}

-- The delays of six retries, in the order of the sleeps.
outage_delays_example :
    ((turns config nowhere 6 (begin config nowhere [])).phase ≡ registering 30)
    × ((turns config nowhere 6 (begin config nowhere [])).world ≡ 1 ∷ 2 ∷ 4 ∷ 8 ∷ 16 ∷ 30 ∷ [])
unfolding check_reconnect_config register call check_register_worker_request doubled
outage_delays_example =
    outage_delays config nowhere (λ s. s)
      (record {
        starts = λ s. (refl, refl);
        unreachable = λ s. (refl, refl);
        sleeps = λ d s. (refl, refl);
        not_stopping = λ s. refl;
      })
      6 [] refl
