-- ===== src/Wire/Transport.antt =====
-- src/edgeshard/protocol/control/grpc_client.py and grpc_server.py: the client of the control plane, and
-- the servicer that answers it by a handler. The channel between them is gRPC's, a parameter.
pub mod Delivery
use edge_shard_v.Shared.{
  String, ◌≡◌, Result, ok, err, Exception, StatusCode, invalid_argument, aio_rpc_error, abort_error,
  value_error, control_protocol_error,
}
use edge_shard_v.Shared.Exec.{Exec, lift, ◌>>=◌}
use edge_shard_v.Master.Requests.{
  Detail, RegisterWorkerRequest, RegisterWorkerResponse, HeartbeatRequest, Verdict,
  UpdateCapabilityRequest,
}
use edge_shard_v.Wire.Schema.{
  PbRegisterWorkerRequest, PbRegisterWorkerResponse, PbHeartbeatRequest, PbVerdict,
  PbUpdateCapabilityRequest,
}
use edge_shard_v.Wire.Fields.{Protobuf}
use edge_shard_v.Wire.Requests.{
  Times, register_request_to_wire, register_request_from_wire, register_response_to_wire,
  register_response_from_wire, update_request_to_wire, update_request_from_wire, verdict_to_wire,
  verdict_from_wire, heartbeat_request_to_wire, heartbeat_request_from_wire,
}

-- What the caller of an RPC gets where the servicer returns a message or raises.
pub record Channel : Type 1 where
  pub deliver : {A : Type 0} → Result A → Result A

-- A channel that is up, as gRPC documents it: a returned message arrives, and an abort arrives as an
-- `AioRpcError` with its status.
pub record IsUp (channel : Channel) : Type 1 where
  pub returned : {A : Type 0} → (a : A) → channel.deliver (ok a) ≡ ok a
  pub aborted :
      {A : Type 0}
      → (code : StatusCode)
      → channel.deliver {A = A} (err (abort_error code)) ≡ err (aio_rpc_error code)

-- `WorkerRegistryHandler`
pub record Handler (S : Type 0) : Type 0 where
  pub register_worker : RegisterWorkerRequest → Exec S RegisterWorkerResponse
  pub heartbeat : HeartbeatRequest → Exec S Verdict
  pub update_capability : UpdateCapabilityRequest → Exec S Verdict

-- `except (mapper.ControlProtocolError, ValueError)`: the RPC is aborted.
unfoldable pub abort_exception : Exception → Exception
abort_exception control_protocol_error = abort_error invalid_argument
abort_exception value_error = abort_error invalid_argument
abort_exception x = x

abbrev guarded : {A : Type 0} → Result A → Result A
guarded (ok a) = ok a
guarded (err x) = err (abort_exception x)

module _ {S : Type 0} where
  unfoldable pub serve : {A : Type 0} → Exec S A → Exec S A
  unfolding abort_exception
  serve body s = let (r, s') = body s in (guarded r, s')

  -- The servicer runs, and its outcome goes through the channel.
  unfoldable pub remote : {A : Type 0} → Channel → Exec S A → Exec S A
  remote channel rpc s = let (r, s') = rpc s in (channel.deliver r, s')

module _ (p : Protobuf) (times : Times) (render : Detail → String) {S : Type 0}
    (handler : Handler S) where
  -- `WorkerRegistryServicer.RegisterWorker`
  unfoldable pub serve_register_worker : PbRegisterWorkerRequest → Exec S PbRegisterWorkerResponse
  unfolding serve
  serve_register_worker wire = serve do
    request ← lift (register_request_from_wire wire)
    response ← handler.register_worker request
    lift (register_response_to_wire p response)

  -- `WorkerRegistryServicer.Heartbeat`
  unfoldable pub serve_heartbeat : PbHeartbeatRequest → Exec S PbVerdict
  unfolding serve
  serve_heartbeat wire = serve do
    request ← lift (heartbeat_request_from_wire times wire)
    response ← handler.heartbeat request
    lift (ok (verdict_to_wire render response))

  -- `WorkerRegistryServicer.UpdateCapability`
  unfoldable pub serve_update_capability : PbUpdateCapabilityRequest → Exec S PbVerdict
  unfolding serve
  serve_update_capability wire = serve do
    request ← lift (update_request_from_wire wire)
    response ← handler.update_capability request
    lift (ok (verdict_to_wire render response))

  module _ (channel : Channel) where
    -- `WorkerRegistryClient.register_worker`
    unfoldable pub client_register_worker : RegisterWorkerRequest → Exec S RegisterWorkerResponse
    unfolding remote serve_register_worker
    client_register_worker request = do
      wire ← lift (register_request_to_wire p request)
      response ← remote channel (serve_register_worker wire)
      lift (register_response_from_wire response)

    -- `WorkerRegistryClient.heartbeat`
    unfoldable pub client_heartbeat : HeartbeatRequest → Exec S Verdict
    unfolding remote serve_heartbeat
    client_heartbeat request = do
      wire ← lift (heartbeat_request_to_wire times p request)
      response ← remote channel (serve_heartbeat wire)
      lift (verdict_from_wire response)

    -- `WorkerRegistryClient.update_capability`
    unfoldable pub client_update_capability : UpdateCapabilityRequest → Exec S Verdict
    unfolding remote serve_update_capability
    client_update_capability request = do
      wire ← lift (update_request_to_wire p request)
      response ← remote channel (serve_update_capability wire)
      lift (verdict_from_wire response)
