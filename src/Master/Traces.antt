-- ===== src/Master/Traces.antt =====
-- Histories of the Master: any interleaving of requests from any Workers, and of liveness ticks.
-- Each is atomic, since no handler awaits between a read and a write.
pub mod Spent
pub mod Replays
use edge_shard_v.Shared.{ℕ, String, ◌≡◌, ◌≢◌, Bool, true, false, List, [], ◌∷◌, ok, is_empty, All}
use edge_shard_v.Cluster.Identity.{check_worker_identity}
use edge_shard_v.Cluster.Revision.{Digest}
use edge_shard_v.Master.Config.{MasterConfig, check_master_config}
use edge_shard_v.Master.Requests.{
  RegisterWorkerRequest, check_register_worker_request, HeartbeatRequest, check_heartbeat_request,
  UpdateCapabilityRequest, check_update_capability_request,
}
use edge_shard_v.Master.Service.{
  Master, Clock, init, register_worker, heartbeat, update_capability, tick,
}
use edge_shard_v.Master.Service.Invariant.{
  Inv, init-Inv, register_worker-Inv, heartbeat-Inv, update_capability-Inv, tick-Inv,
}

pub data Event : Type 0 where
  registers : RegisterWorkerRequest → String → Clock → Event
  beats : HeartbeatRequest → Clock → Event
  updates : UpdateCapabilityRequest → Clock → Event
  ticks : ℕ → Event

-- The request was accepted by its constructor, the fresh session id is not empty, and the wall clock
-- carries its UTC offset.
abbrev pub IsValid : Event → Type 0
IsValid (registers q fresh now) =
    (check_worker_identity q.identity ≡ ok tt)
    × (check_register_worker_request q ≡ ok tt)
    × (is_empty fresh ≡ false)
    × (now.wall.aware ≡ true)
IsValid (beats q now) = (check_heartbeat_request q ≡ ok tt) × (now.wall.aware ≡ true)
IsValid (updates q now) = (check_update_capability_request q ≡ ok tt) × (now.wall.aware ≡ true)
IsValid (ticks now) = Unit

module _ (h : Digest) where
  unfoldable pub apply : Master → Event → Master
  apply m (registers q fresh now) = (register_worker h q fresh now m).1
  apply m (beats q now) = (heartbeat q now m).1
  apply m (updates q now) = (update_capability h q now m).1
  apply m (ticks now) = (tick now m).0

  unfoldable pub run : Master → List Event → Master
  run m [] = m
  run m (e ∷ es) = run (apply m e) es

  pub apply-Inv : (m : Master) (e : Event) → Inv h m → IsValid e → Inv h (apply m e)
  unfolding apply
  apply-Inv m (registers q fresh now) v w = register_worker-Inv h m q fresh now v w.0 w.1 w.2 w.3
  apply-Inv m (beats q now) v w = heartbeat-Inv h m q now v w.0 w.1
  apply-Inv m (updates q now) v w = update_capability-Inv h m q now v w.0 w.1
  apply-Inv m (ticks now) v w = tick-Inv h m now v

  pub run-Inv : (m : Master) (es : List Event) → Inv h m → All IsValid es → Inv h (run m es)
  unfolding run
  run-Inv m [] v w = v
  run-Inv m (e ∷ es) v w = run-Inv (apply m e) es (apply-Inv m e v w.0) w.1

  -- After any history of well-formed requests and ticks, from an empty Master with a valid
  -- configuration, the registry, the sessions and the state store know the same Workers; each record
  -- stands under its own id, its revision fingerprints its capability, and the stored state refers
  -- only to devices and pools of that capability.
  pub run-init-Inv :
      (c : MasterConfig) (es : List Event)
      → check_master_config c ≡ ok tt
      → All IsValid es
      → Inv h (run (init c) es)
  run-init-Inv c es k w = run-Inv (init c) es (init-Inv h c k) w
