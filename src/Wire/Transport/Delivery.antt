-- ===== src/Wire/Transport/Delivery.antt =====
-- What a call of the client does to the handler behind a channel that is up.
use edge_shard_v.Shared.{
  String, ◌≡◌, refl, false, ok, err, is_empty, invalid_argument, aio_rpc_error,
  control_protocol_error,
}
use edge_shard_v.Shared.Int.{pos}
use edge_shard_v.Cluster.Identity.{check_worker_identity}
use edge_shard_v.Master.Requests.{
  Detail, RegisterWorkerRequest, check_register_worker_request, RegisterWorkerResponse,
  check_register_worker_response, HeartbeatRequest, check_heartbeat_request, Verdict, check_verdict,
  UpdateCapabilityRequest, check_update_capability_request,
}
use edge_shard_v.Wire.Fields.{Protobuf, StoresInRange, InInt32, InInt64}
use edge_shard_v.Wire.Capability.RoundTrip.{IsSendable}
use edge_shard_v.Wire.State.RoundTrip.{IsSendableState}
use edge_shard_v.Wire.Requests.{Times}
use edge_shard_v.Wire.Requests.RoundTrip.{
  Arrives, arrived, printed, verdict_trip, register_request_trip, register_response_trip,
  heartbeat_request_trip, update_request_trip,
}
use edge_shard_v.Wire.Transport.{
  Channel, IsUp, Handler, client_register_worker, client_heartbeat, client_update_capability,
}

-- What the three theorems rely on: fields store what is in their range, a rejection prints as a
-- text, and the channel is up.
pub record IsLinked (p : Protobuf) (render : Detail → String) (channel : Channel) : Type 1 where
  pub stores : StoresInRange p
  pub nonempty : (d : Detail) → is_empty (render d) ≡ false
  pub up : IsUp channel

-- The verdict as it arrives, its detail a text.
abbrev pub received : (Detail → String) → Verdict → Verdict
received render v = record {
  accepted = v.accepted;
  detail = printed render v.detail;
  reason = v.reason;
}

-- The request was accepted by its constructor, and every number in it fits its field.
pub record IsDeliverable (times : Times) (q : HeartbeatRequest) : Type 0 where
  pub built : check_heartbeat_request q ≡ ok tt
  pub sequence_fits : InInt64 (pos q.sequence_number)
  pub state_sendable : IsSendableState q.state
  pub time : Arrives times q.worker_reported_at

pub record IsDeliverableRegistration (q : RegisterWorkerRequest) : Type 0 where
  pub built : check_register_worker_request q ≡ ok tt
  pub identity_built : check_worker_identity q.identity ≡ ok tt
  pub capability_sendable : IsSendable q.capability
  pub state_sendable : IsSendableState q.initial_state

pub record IsDeliverableUpdate (q : UpdateCapabilityRequest) : Type 0 where
  pub built : check_update_capability_request q ≡ ok tt
  pub capability_sendable : IsSendable q.capability
  pub state_sendable : IsSendableState q.state

module _ (p : Protobuf) (times : Times) (render : Detail → String) {S : Type 0}
    (handler : Handler S) (channel : Channel) (linked : IsLinked p render channel) where
  -- A heartbeat reaches the handler as it was sent, but for the precision of its time, and the verdict comes back.
  pub heartbeat_delivered :
      (q : HeartbeatRequest) (s s' : S) (v : Verdict) (d : IsDeliverable times q)
      → handler.heartbeat (arrived q d.time.arriving) s ≡ (ok v, s')
      → check_verdict v ≡ ok tt
      → client_heartbeat p times render handler channel q s ≡ (ok (received render v), s')
  unfolding client_heartbeat
  heartbeat_delivered q s s' v d answer built =
      let (y, sent, read) =
        heartbeat_request_trip p linked.stores times q d.built d.sequence_fits d.state_sendable
          d.time in
      rw (sent, read, answer, linked.up.returned _, verdict_trip render linked.nonempty v built)
        refl

  pub heartbeat_aborted :
      (q : HeartbeatRequest) (s s' : S) (d : IsDeliverable times q)
      → handler.heartbeat (arrived q d.time.arriving) s ≡ (err control_protocol_error, s')
      → client_heartbeat p times render handler channel q s
        ≡ (err (aio_rpc_error invalid_argument), s')
  unfolding client_heartbeat
  heartbeat_aborted q s s' d answer =
      let (y, sent, read) =
        heartbeat_request_trip p linked.stores times q d.built d.sequence_fits d.state_sendable
          d.time in
      rw (sent, read, answer, linked.up.aborted invalid_argument) refl

  pub update_delivered :
      (q : UpdateCapabilityRequest) (s s' : S) (v : Verdict)
      → IsDeliverableUpdate q
      → handler.update_capability q s ≡ (ok v, s')
      → check_verdict v ≡ ok tt
      → client_update_capability p times render handler channel q s ≡ (ok (received render v), s')
  unfolding client_update_capability
  update_delivered q s s' v d answer built =
      let (y, sent, read) =
        update_request_trip p linked.stores q d.built d.capability_sendable d.state_sendable in
      rw (sent, read, answer, linked.up.returned _, verdict_trip render linked.nonempty v built)
        refl

  pub registration_delivered :
      (q : RegisterWorkerRequest) (s s' : S) (r : RegisterWorkerResponse)
      → IsDeliverableRegistration q
      → handler.register_worker q s ≡ (ok r, s')
      → check_register_worker_response r ≡ ok tt
      → InInt32 (pos r.heartbeat_interval_ms)
      → client_register_worker p times render handler channel q s ≡ (ok r, s')
  unfolding client_register_worker
  registration_delivered q s s' r d answer built fits =
      let (y, sent, read) =
        register_request_trip p linked.stores q d.built d.identity_built d.capability_sendable
          d.state_sendable in
      let (z, answered, received_as) = register_response_trip p linked.stores r built fits in
      rw (sent, read, answer, answered, linked.up.returned z, received_as) refl
