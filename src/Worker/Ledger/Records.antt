-- ===== src/Worker/Ledger/Records.antt =====
-- The records of src/edgeshard/control/worker/profiling_sessions.py, with the outcome and failure
-- types of src/edgeshard/profiling/domain/experiment.py that its ledger holds.
use edge_shard_v.Shared.{
  String, Bool, true, false, ◌==◌, not, Option, none, some, List, [], ◌∷◌, Result, Checked, ok, err,
  value_error, session_refused, stale_session, raise_if, if◌then◌else◌,
}
use edge_shard_v.Shared.Dict.{Dict, opt_is_some}
use edge_shard_v.Cluster.Snapshot.{Datetime}

pub record RegistrationTokens : Type 0 where
  pub worker_id : String
  pub instance_id : String
  pub registration_session_id : String

abbrev stale : Result RegistrationTokens
stale = err (session_refused stale_session)

abbrev validate_against :
    Option RegistrationTokens → String → String → String → Result RegistrationTokens
validate_against none worker_id instance_id registration_session_id = stale
validate_against (some current) worker_id instance_id registration_session_id =
    if not (worker_id == current.worker_id)
    then stale
    else if not (instance_id == current.instance_id)
    then stale
    else if not (registration_session_id == current.registration_session_id)
    then stale
    else ok current

-- `validate_tokens`; the token source's answer is the first argument.
unfoldable pub validate_tokens :
    Option RegistrationTokens → String → String → String → Result RegistrationTokens
validate_tokens current worker_id instance_id registration_session_id =
    validate_against current worker_id instance_id registration_session_id

pub data CaseState : Type 0 where
  pending running completed failed cancelled : CaseState

abbrev pub is_terminal : CaseState → Bool
is_terminal completed = true
is_terminal failed = true
is_terminal cancelled = true
is_terminal _ = false

pub data ProfilingErrorCategory : Type 0 where
  unsupported_model unsupported_granularity unsupported_phase : ProfilingErrorCategory
  unsupported_operator device_busy insufficient_memory export_failed : ProfilingErrorCategory
  profiler_failed benchmark_failed network_unreachable : ProfilingErrorCategory
  iperf_unavailable timeout cancelled unstable_performance_state : ProfilingErrorCategory
  internal_error : ProfilingErrorCategory

-- The modelled code stores texts only in `details`.
pub record ProfilingFailure : Type 0 where
  pub category : ProfilingErrorCategory
  pub message : String
  pub details : List (String × String)

-- `measured` is the source's field `record`.
pub record CaseOutcome (R : Type 0) : Type 0 where
  pub measured : Option R
  pub failure : Option ProfilingFailure

abbrev exactly_one : Bool → Bool → Bool
exactly_one true false = true
exactly_one false true = true
exactly_one _ _ = false

unfoldable pub check_case_outcome : {R : Type 0} → CaseOutcome R → Checked
check_case_outcome o =
    raise_if (not (exactly_one (opt_is_some o.measured) (opt_is_some o.failure))) value_error

unfoldable pub from_failure : {R : Type 0} → ProfilingFailure → CaseOutcome R
from_failure f = record { measured = none; failure = some f }

pub record CaseLedgerEntry (R : Type 0) : Type 0 where
  pub state : CaseState
  pub outcome : Option (CaseOutcome R)
  pub decided_at : Option Datetime

-- What happens when the callable that frees a model is called.
pub data ModelCleanup : Type 0 where
  returns raises : ModelCleanup

pub record ProfilingSessionRecord (P R : Type 0) : Type 0 where
  pub session_id : String
  pub request : P
  pub model_handle : Bool
  pub model_cleanup : Option ModelCleanup
  pub cases : Dict (CaseLedgerEntry R)
  pub closed : Bool

-- The manager with a log of the sessions whose cleanup was called.
pub record Ledger (P R : Type 0) : Type 0 where
  pub sessions : Dict (ProfilingSessionRecord P R)
  pub cleaned : List String

abbrev pub decided : {R : Type 0} → Option (CaseLedgerEntry R) → Bool
decided none = false
decided (some e) = is_terminal e.state

unfoldable pub cancellation : {R : Type 0} → String → String → Datetime → CaseLedgerEntry R
unfolding from_failure
cancellation session case_id now = record {
  state = CaseState.cancelled;
  outcome = some (
      from_failure (record {
        category = ProfilingErrorCategory.cancelled;
        message = "case cancelled before execution";
        details = ("case_id", case_id) ∷ ("session_id", session) ∷ [];
      }));
  decided_at = some now;
}
