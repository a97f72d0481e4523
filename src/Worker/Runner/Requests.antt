-- ===== src/Worker/Runner/Requests.antt =====
-- What the profiling runner is asked and what it answers (src/edgeshard/control/worker/profiling_runner.py,
-- with the parts of the requests of src/edgeshard/protocol/profiling/mapper.py that it reads). The
-- facts of a prepared session are opaque, a type `F`, like a measurement, a type `R`.
use edge_shard_v.Shared.{
  Exception, String, Bool, true, false, Option, none, some, List, Result, ProfilingRejection,
}
use edge_shard_v.Worker.Ledger.Records.{
  CaseState, CaseOutcome, ModelCleanup, ProfilingFailure, Ledger, from_failure,
}
use edge_shard_v.Worker.Leases.{Leases}

pub data ProfilingSessionKind : Type 0 where
  model operator network : ProfilingSessionKind

abbrev pub is_network : ProfilingSessionKind → Bool
is_network network = true
is_network _ = false

abbrev pub same_kind : ProfilingSessionKind → ProfilingSessionKind → Bool
same_kind model model = true
same_kind operator operator = true
same_kind network network = true
same_kind _ _ = false

-- The tokens of a request, which `_validate` compares with the current registration.
pub record Tokens : Type 0 where
  pub worker_id : String
  pub instance_id : String
  pub registration_session_id : String

-- `network_facts` are the ids of the Workers that the request has facts of.
pub record PrepareRequest : Type 0 where
  pub tokens : Tokens
  pub profiling_session_id : String
  pub kind : ProfilingSessionKind
  pub device_ids : List String
  pub network_facts : List String

-- What a session record carries for its cases.
pub record Prepared (F : Type 0) : Type 0 where
  pub kind : ProfilingSessionKind
  pub session_facts : Option F
  pub network_facts : List String

pub data PrepareResponse (F : Type 0) : Type 0 where
  prepared : Option F → PrepareResponse F
  prepare_refused : ProfilingRejection → PrepareResponse F
  prepare_failed : ProfilingFailure → PrepareResponse F

-- What the compute executor does when it prepares a session: the RPC is cancelled meanwhile, it
-- raises, or it returns a handle with its facts, its cleanup, and what becomes of the facts when
-- they are stamped with the environment.
pub data Preparation (F : Type 0) : Type 0 where
  rpc_cancelled : Preparation F
  preparation_raised : ProfilingFailure → Preparation F
  handle : Option F → ModelCleanup → Result F → Preparation F

pub data ProfilingGranularity : Type 0 where
  transformer_layer module_level operator_level : ProfilingGranularity

pub data CaseSpec : Type 0 where
  model_case : ProfilingGranularity → List String → CaseSpec
  network_case : String → CaseSpec

pub record ProfilingCase : Type 0 where
  pub case_id : String
  pub worker_id : String
  pub spec : CaseSpec

pub record RunRequest : Type 0 where
  pub tokens : Tokens
  pub profiling_session_id : String
  pub profiling_case : ProfilingCase

pub data RunResponse (R : Type 0) : Type 0 where
  ran : CaseOutcome R → RunResponse R
  run_refused : ProfilingRejection → RunResponse R

-- What `_execute` does: a measurement, or an exception with the failure that the runner makes of it.
pub data Execution (R : Type 0) : Type 0 where
  measures : R → Execution R
  execution_raised : ProfilingFailure → Execution R

-- The coroutine that holds `_prepare_lock`: none, one that waits for the inspector, or one that waits
-- for the executor.
pub data Suspended : Type 0 where
  idle : Suspended
  inspecting executing : PrepareRequest → Suspended

-- A coroutine that waits for a thread to close a session, with what the thread returned if it has: of a
-- close RPC, or of a shutdown with the sessions left and the first exception. At the end a shutdown
-- waits for its iperf servers to stop.
pub data Closer : Type 0 where
  closing : String → Option (Result Bool) → Closer
  shutting : String → List String → Option Exception → Option (Result Bool) → Closer
  stopping : Option Exception → Closer

pub record Runner (F R : Type 0) : Type 0 where
  pub ledger : Ledger (Prepared F) R
  pub leases : Leases
  pub preparing : Suspended
  pub closers : List Closer

unfoldable pub outcome_of : {R : Type 0} → Execution R → CaseOutcome R
unfolding from_failure
outcome_of (measures r) = record { measured = some r; failure = none }
outcome_of (execution_raised f) = from_failure f

-- `CaseState.COMPLETED if outcome.succeeded else CaseState.FAILED`
unfoldable pub state_of : {R : Type 0} → Execution R → CaseState
state_of (measures r) = CaseState.completed
state_of (execution_raised f) = CaseState.failed

-- `_kind_mismatch`
unfoldable pub kind_mismatch : ProfilingSessionKind → CaseSpec → Bool
kind_mismatch network (network_case d) = false
kind_mismatch network (model_case g ds) = true
kind_mismatch _ (network_case d) = true
kind_mismatch operator (model_case operator_level ds) = false
kind_mismatch operator (model_case _ ds) = true
kind_mismatch model (model_case operator_level ds) = true
kind_mismatch model (model_case _ ds) = false
