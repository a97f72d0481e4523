-- ===== src/Profiling/Experiment.antt =====
-- src/edgeshard/profiling/domain/experiment.py: experiments and what the Master reports of their cases.
pub mod Coverage
use edge_shard_v.Shared.{
  String, Bool, true, false, not, ◌&&◌, ◌||◌, Option, none, some, List, [], ◌∷◌, Result, Checked,
  ok, err, value_error, raise_if, ◌>>=◌, ◌>>◌, is_empty, contains, if◌then◌else◌,
}
use edge_shard_v.Shared.Sorting.{sorted}
use edge_shard_v.Cluster.Snapshot.{Datetime, require_aware, present_and_empty}
use edge_shard_v.Worker.Ledger.Records.{
  CaseState, failed as case_failed, cancelled as case_cancelled, ProfilingFailure,
}
use edge_shard_v.Worker.Leases.{dedupe}

pub data ExperimentState : Type 0 where
  pending running completed partially_completed cancelled failed : ExperimentState

pub record ProfilingExperiment : Type 0 where
  pub experiment_id : String
  pub strategy_id : String
  pub created_at : Datetime
  pub requested_by : Option String
  pub case_ids : List String
  pub configuration_id : Option String

-- `for case_id in self.case_ids`, with the ids seen so far.
unfoldable pub check_case_ids : List String → List String → Checked
check_case_ids seen [] = ok tt
check_case_ids seen (i ∷ ids) = do
  raise_if (is_empty i) value_error
  raise_if (contains seen i) value_error
  check_case_ids (i ∷ seen) ids

unfoldable pub check_profiling_experiment : ProfilingExperiment → Checked
unfolding require_aware check_case_ids
check_profiling_experiment e = do
  raise_if (is_empty e.experiment_id) value_error
  raise_if (is_empty e.strategy_id) value_error
  raise_if (present_and_empty e.configuration_id) value_error
  require_aware e.created_at
  raise_if (present_and_empty e.requested_by) value_error
  check_case_ids [] e.case_ids

-- `canonical_sha256` is the hash of a strategy with a list of cases.
module _ (canonical_sha256 : String → List String → String) where
  unfoldable pub profiling_experiment_id : String → List String → Result String
  unfolding sorted
  profiling_experiment_id strategy_id case_ids = do
    raise_if (is_empty strategy_id) value_error
    ok (canonical_sha256 strategy_id (sorted case_ids))

  unfoldable pub for_cases :
      String → List String → Datetime → Option String → Result ProfilingExperiment
  unfolding profiling_experiment_id check_profiling_experiment dedupe
  for_cases strategy_id case_ids created_at requested_by = do
    i ← profiling_experiment_id strategy_id (dedupe case_ids)
    let e : ProfilingExperiment = record {
      experiment_id = i;
      strategy_id = strategy_id;
      created_at = created_at;
      requested_by = requested_by;
      case_ids = dedupe case_ids;
      configuration_id = some i;
    }
    check_profiling_experiment e
    ok e

pub record CaseStatus : Type 0 where
  pub case_id : String
  pub worker_id : String
  pub state : CaseState
  pub failure : Option ProfilingFailure

abbrev is_negative : CaseState → Bool
is_negative case_failed = true
is_negative case_cancelled = true
is_negative _ = false

abbrev is_present : {A : Type 0} → Option A → Bool
is_present none = false
is_present (some a) = true

unfoldable pub check_case_status : CaseStatus → Checked
check_case_status c = do
  raise_if (is_empty c.case_id) value_error
  raise_if (is_empty c.worker_id) value_error
  raise_if (is_present c.failure && not (is_negative c.state)) value_error

pub record ExperimentStatus : Type 0 where
  pub experiment : ProfilingExperiment
  pub state : ExperimentState
  pub cases : List CaseStatus

-- `for case in self.cases`; what it returns are the ids seen.
unfoldable pub check_cases : List String → List String → List CaseStatus → Result (List String)
check_cases expected seen [] = ok seen
check_cases expected seen (c ∷ cs) = do
  raise_if (not (contains expected c.case_id)) value_error
  raise_if (contains seen c.case_id) value_error
  check_cases expected (c.case_id ∷ seen) cs

-- `expected - seen` is not empty.
unfoldable pub is_missing : List String → List String → Bool
is_missing [] seen = false
is_missing (i ∷ ids) seen = not (contains seen i) || is_missing ids seen

unfoldable pub check_experiment_status : ExperimentStatus → Checked
unfolding check_cases is_missing
check_experiment_status s = do
  seen ← check_cases s.experiment.case_ids [] s.cases
  raise_if (is_missing s.experiment.case_ids seen) value_error
