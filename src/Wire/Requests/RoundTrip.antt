-- ===== src/Wire/Requests/RoundTrip.antt =====
-- The requests and responses are read back from their messages as they were written.
use edge_shard_v.Shared.{
  String, Bool, true, false, ◌==◌, ==_refl, ◌≡◌, refl, Option, none, some, ok, is_empty, arith,
}
use edge_shard_v.Shared.Int.{ℤ, pos}
use edge_shard_v.Cluster.Identity.{check_worker_identity}
use edge_shard_v.Cluster.Snapshot.{Datetime}
use edge_shard_v.Master.Requests.{
  control_protocol_version, RejectionReason, Detail, text, RegisterWorkerRequest,
  check_register_worker_request, RegisterWorkerResponse, check_register_worker_response,
  HeartbeatRequest, naive, check_heartbeat_request, Verdict, check_verdict, UpdateCapabilityRequest,
  check_update_capability_request, unknown_worker, stale_session, instance_mismatch, out_of_order,
  reregister_required,
}
use edge_shard_v.Wire.Fields.{
  Protobuf, StoresInRange, InInt32, InInt64, Optional, set_optional_kept, Trips,
}
use edge_shard_v.Wire.Enums.{lookup, rejection_reason_to_wire, wire_to_rejection_reason}
use edge_shard_v.Wire.Schema.{PbHeartbeatRequest}
use edge_shard_v.Wire.Capability.{identity_to_wire}
use edge_shard_v.Wire.Capability.RoundTrip.{IsSendable, identity_trip, capability_trip}
use edge_shard_v.Wire.State.RoundTrip.{IsSendableState, state_trip}
use edge_shard_v.Wire.Requests.{
  Times, register_request_to_wire, register_request_from_wire, register_response_to_wire,
  register_response_from_wire, update_request_to_wire, update_request_from_wire, reason_to_wire,
  reason_from_wire, verdict_to_wire, verdict_from_wire, text_of, detail_of, timestamp_to_ms,
  timestamp_from_ms, heartbeat_request_to_wire, heartbeat_request_from_wire,
}

-- The milliseconds of the time fit a field of 64 bits, and are read back as an aware time, which may
-- be another one: the message has no microseconds.
pub record Arrives (times : Times) (o : Option Datetime) : Type 0 where
  pub fits : Optional InInt64 (timestamp_to_ms times o)
  pub arriving : Option Datetime
  pub read : timestamp_from_ms times (timestamp_to_ms times o) ≡ ok arriving
  pub aware : naive arriving ≡ false

-- The whole milliseconds of a time since the epoch, as the float arithmetic has them.
abbrev pub milliseconds : (times : Times) → Datetime → ℤ
milliseconds times d = times.int (times.multiply (times.timestamp d) 1_000)

-- They fit a field of 64 bits, and the calendar has an aware time that long after the epoch.
pub record IsDated (times : Times) (d : Datetime) : Type 0 where
  pub fits : InInt64 (milliseconds times d)
  pub later : Datetime
  pub added : times.add_milliseconds times.epoch (milliseconds times d) ≡ ok later
  pub later_aware : later.aware ≡ true

pub dated-Arrives :
    (times : Times) (d : Datetime) (i : IsDated times d) → naive (some i.later) ≡ false
dated-Arrives times d i = rw (i.later_aware) refl

unfoldable pub arrival : (times : Times) (d : Datetime) → IsDated times d → Arrives times (some d)
unfolding timestamp_to_ms timestamp_from_ms
arrival times d i = record {
  fits = i.fits;
  arriving = some i.later;
  read = rw (i.added) refl;
  aware = dated-Arrives times d i;
}

-- The request with the time as it arrives.
abbrev pub arrived : HeartbeatRequest → Option Datetime → HeartbeatRequest
arrived q time = record q { worker_reported_at = time }

pub arrived-built :
    (q : HeartbeatRequest) (time : Option Datetime)
    → check_heartbeat_request q ≡ ok tt
    → naive time ≡ false
    → check_heartbeat_request (arrived q time) ≡ ok tt
unfolding check_heartbeat_request
arrived-built q time built aware = ground (arith, built, aware)

version-built :
    (q : RegisterWorkerRequest)
    → check_register_worker_request q ≡ ok tt
    → (q.protocol_version == control_protocol_version) ≡ true
unfolding check_register_worker_request
version-built q h = ground (arith, h)

module _ (p : Protobuf) (stores : StoresInRange p) where
  -- A registration request whose parts their constructors accepted and whose numbers fit their fields
  -- is written to a message without an exception, and is read back as the same request.
  pub register_request_trip :
      (q : RegisterWorkerRequest)
      → check_register_worker_request q ≡ ok tt
      → check_worker_identity q.identity ≡ ok tt
      → IsSendable q.capability
      → IsSendableState q.initial_state
      → Trips (register_request_to_wire p) register_request_from_wire q
  unfolding register_request_to_wire register_request_from_wire
  register_request_trip q built identity_built cv sv =
      let (c, ce, cf) = capability_trip p stores q.capability cv in
      let (s, se, sf) = state_trip p stores q.initial_state sv in
      (
        record {
          protocol_version = q.protocol_version;
          worker_id = q.identity.worker_id;
          instance_id = q.instance_id;
          identity = identity_to_wire q.identity;
          capability_revision = q.capability.capability_revision;
          capability = c;
          initial_state = s;
          profiling_endpoint = q.profiling_endpoint;
        },
        rw (ce, se) refl,
        rw
            (
              version-built q built,
              identity_trip q.identity identity_built,
              ==_refl q.identity.worker_id,
              cf,
              ==_refl q.capability.capability_revision,
              sf,
              built,
            )
            refl,
      )

  -- The same of a capability update.
  pub update_request_trip :
      (q : UpdateCapabilityRequest)
      → check_update_capability_request q ≡ ok tt
      → IsSendable q.capability
      → IsSendableState q.state
      → Trips (update_request_to_wire p) update_request_from_wire q
  unfolding update_request_to_wire update_request_from_wire
  update_request_trip q built cv sv =
      let (c, ce, cf) = capability_trip p stores q.capability cv in
      let (s, se, sf) = state_trip p stores q.state sv in
      (
        record {
          worker_id = q.worker_id;
          instance_id = q.instance_id;
          session_id = q.session_id;
          capability = c;
          state = some s;
        },
        rw (ce, se) refl,
        rw (cf, sf, built) refl,
      )

  -- The same of the answer to a registration.
  pub register_response_trip :
      (r : RegisterWorkerResponse)
      → check_register_worker_response r ≡ ok tt
      → InInt32 (pos r.heartbeat_interval_ms)
      → Trips (register_response_to_wire p) register_response_from_wire r
  unfolding register_response_to_wire register_response_from_wire
  register_response_trip r built fits = (
    record {
      session_id = r.session_id;
      heartbeat_interval_ms = pos r.heartbeat_interval_ms;
      server_protocol_version = r.server_protocol_version;
    },
    rw (stores.int32_kept (pos r.heartbeat_interval_ms) fits) refl,
    rw (built) refl,
  )

  -- A heartbeat is read back with the time that arrives.
  pub heartbeat_request_trip :
      (times : Times) (q : HeartbeatRequest)
      → check_heartbeat_request q ≡ ok tt
      → InInt64 (pos q.sequence_number)
      → IsSendableState q.state
      → (e : Arrives times q.worker_reported_at)
      → (y : PbHeartbeatRequest) × (heartbeat_request_to_wire times p q ≡ ok y)
        × (heartbeat_request_from_wire times y ≡ ok (arrived q e.arriving))
  unfolding heartbeat_request_to_wire heartbeat_request_from_wire
  heartbeat_request_trip times q built fits sv e =
      let (s, se, sf) = state_trip p stores q.state sv in
      (
        record {
          worker_id = q.worker_id;
          instance_id = q.instance_id;
          session_id = q.session_id;
          sequence_number = pos q.sequence_number;
          worker_reported_at_ms = timestamp_to_ms times q.worker_reported_at;
          capability_revision = q.capability_revision;
          state = s;
        },
        rw
            (
              stores.int64_kept (pos q.sequence_number) fits,
              se,
              set_optional_kept p.set_int64 InInt64 (timestamp_to_ms times q.worker_reported_at)
                  stores.int64_kept e.fits,
            )
            refl,
        rw (sf, e.read, arrived-built q e.arriving built e.aware) refl,
      )

abbrev verdict : Bool → Option Detail → Option RejectionReason → Verdict
verdict a d r = record { accepted = a; detail = d; reason = r }

reason_trip :
    (a : Bool) (d : Option Detail) (r : Option RejectionReason)
    → check_verdict (verdict a d r) ≡ ok tt
    → reason_from_wire (reason_to_wire r) a ≡ ok r
unfolding reason_from_wire reason_to_wire check_verdict lookup rejection_reason_to_wire
    wire_to_rejection_reason
reason_trip true d none h = refl
reason_trip true d (some r) h = ground (arith, h)
reason_trip false none r h = ground (arith, h)
reason_trip false (some d) none h = ground (arith, h)
reason_trip false (some d) (some unknown_worker) h = refl
reason_trip false (some d) (some stale_session) h = refl
reason_trip false (some d) (some instance_mismatch) h = refl
reason_trip false (some d) (some out_of_order) h = refl
reason_trip false (some d) (some reregister_required) h = refl

-- The detail as the reader of the message sees it: its text.
pub printed : (Detail → String) → Option Detail → Option Detail
printed render none = none
printed render (some d) = some (text (render d))

module _ (render : Detail → String) (nonempty : (d : Detail) → is_empty (render d) ≡ false) where
  detail_trip : (o : Option Detail) → detail_of (text_of render o) ≡ printed render o
  unfolding printed
  detail_trip none = refl
  detail_trip (some d) = rw (nonempty d) refl

  printed-built :
      (a : Bool) (o : Option Detail) (r : Option RejectionReason)
      → check_verdict (verdict a o r) ≡ ok tt
      → check_verdict (verdict a (printed render o) r) ≡ ok tt
  unfolding check_verdict printed
  printed-built true o r h = h
  printed-built false none r h = h
  printed-built false (some d) r h = h

  -- A verdict that its constructor accepted is read back with the text of its detail.
  pub verdict_trip :
      (v : Verdict)
      → check_verdict v ≡ ok tt
      → verdict_from_wire (verdict_to_wire render v)
        ≡ ok (record { accepted = v.accepted; detail = printed render v.detail; reason = v.reason })
  unfolding verdict_from_wire verdict_to_wire
  verdict_trip v h =
      rw
        (
          reason_trip v.accepted v.detail v.reason h,
          detail_trip v.detail,
          printed-built v.accepted v.detail v.reason h,
        )
        refl
