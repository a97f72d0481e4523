-- ===== src/Master/Snapshots.antt =====
-- src/edgeshard/control/master/snapshot.py: `SnapshotBuilder.build`. Building changes no state; the
-- instant, the wall clock and the fresh snapshot id are arguments.
pub mod Totality
use edge_shard_v.Shared.{
  ℕ, String, ◌==◌, Option, none, some, List, [], ◌∷◌, Result, Checked, ok, err, value_error, ◌>>=◌,
  ◌>>◌,
}
use edge_shard_v.Shared.Dict.{get}
use edge_shard_v.Cluster.State.{WorkerStatus}
use edge_shard_v.Cluster.Snapshot.{
  Datetime, WorkerSnapshot, check_worker_snapshot, ClusterSnapshot, check_cluster_snapshot,
}
use edge_shard_v.Master.Registry.{WorkerRecord, list_workers}
use edge_shard_v.Master.Sessions.{SessionInfo}
use edge_shard_v.Master.StateStore.{StoredState}
use edge_shard_v.Master.Liveness.{status_at}
use edge_shard_v.Master.Service.{Master}

abbrev pub session_id_of : Option SessionInfo → Option String
session_id_of none = none
session_id_of (some s) = some s.session_id

abbrev pub worker_snapshot :
    WorkerRecord → StoredState → Option SessionInfo → WorkerStatus → WorkerSnapshot
worker_snapshot r stored session status = record {
  identity = r.identity;
  capability = r.capability;
  state = stored.state;
  status = status;
  session_id = session_id_of session;
  last_seen_at = some stored.received_wall;
}

abbrev from_stored : Master → ℕ → WorkerRecord → Option StoredState → Result WorkerSnapshot
from_stored m now r none = err value_error
from_stored m now r (some stored) = do
  status ← status_at m.config r.identity.worker_id now m.states
  let w = worker_snapshot r stored (get r.identity.worker_id m.sessions) status
  check_worker_snapshot w
  ok w

unfoldable pub build_worker : Master → ℕ → WorkerRecord → Result WorkerSnapshot
build_worker m now r = from_stored m now r (get r.identity.worker_id m.states)

unfoldable pub build_workers : Master → ℕ → List WorkerRecord → Result (List WorkerSnapshot)
build_workers m now [] = ok []
build_workers m now (r ∷ rs) = do w ← build_worker m now r; ws ← build_workers m now rs; ok (w ∷ ws)

unfoldable pub build : Master → ℕ → String → Datetime → Result ClusterSnapshot
build m now fresh wall = do
  workers ← build_workers m now (list_workers m.registry)
  let snapshot : ClusterSnapshot = record {
    snapshot_id = fresh;
    created_at = wall;
    workers = workers;
  }
  check_cluster_snapshot snapshot
  ok snapshot
