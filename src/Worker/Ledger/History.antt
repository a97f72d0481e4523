-- ===== src/Worker/Ledger/History.antt =====
-- Any sequence of calls of the session manager. A call that raises leaves what it wrote before.
use edge_shard_v.Shared.{String, Bool, Option, List, [], ◌∷◌}
use edge_shard_v.Cluster.Snapshot.{Datetime}
use edge_shard_v.Worker.Ledger.Records.{CaseState, CaseOutcome, ModelCleanup, Ledger}
use edge_shard_v.Worker.Ledger.{
  create_session, close_session, close_all, mark_running, decide_case, cancel_case,
}

pub data Call (P R : Type 0) : Type 0 where
  creates : String → P → Bool → Option ModelCleanup → Call P R
  closes : String → Call P R
  closes_all : Call P R
  starts : String → String → Call P R
  decides : String → String → CaseState → CaseOutcome R → Datetime → Call P R
  cancels : String → String → Datetime → Call P R

module _ {P R : Type 0} where
  unfoldable pub apply : Ledger P R → Call P R → Ledger P R
  apply l (creates s request handle cleanup) = (create_session s request handle cleanup l).1
  apply l (closes s) = (close_session s l).1
  apply l closes_all = (close_all l).1
  apply l (starts s c) = (mark_running s c l).1
  apply l (decides s c state outcome now) = (decide_case s c state outcome now l).1
  apply l (cancels s c now) = (cancel_case s c now l).1

  unfoldable pub run : Ledger P R → List (Call P R) → Ledger P R
  run l [] = l
  run l (x ∷ xs) = run (apply l x) xs
