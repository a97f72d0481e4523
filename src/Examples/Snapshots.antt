-- ===== src/Examples/Snapshots.antt =====
-- The liveness of one Worker, and a snapshot of its cluster.
use edge_shard_v.Shared.{◌≤◌, ◌<◌, ◌*◌, ◌≡◌, ◌↔◌, refl, List, [], ◌∷◌, ok, All, arith}
use edge_shard_v.Shared.Dict.{get, keys}
use edge_shard_v.Shared.Sorting.{sorted}
use edge_shard_v.Cluster.State.{WorkerStatus, online, suspect, offline}
use edge_shard_v.Cluster.Snapshot.{WorkerSnapshot}
use edge_shard_v.Cluster.Identity.{check_worker_identity}
use edge_shard_v.Master.Config.{default_config, check_master_config}
use edge_shard_v.Master.Requests.{check_register_worker_request}
use edge_shard_v.Master.StateStore.{States}
use edge_shard_v.Master.Service.{init}
use edge_shard_v.Master.Service.Atomicity.{stored}
use edge_shard_v.Master.Service.Invariant.{register_worker-Inv, init-Inv}
use edge_shard_v.Master.Liveness.{classify, status_at, evaluate, ns_per_ms}
use edge_shard_v.Master.Liveness.Thresholds.{rank, classify_exact, status_at_mono}
use edge_shard_v.Master.Liveness.Ticks.{evaluate_settles, or_else, changed, status_of}
use edge_shard_v.Master.Snapshots.{build}
use edge_shard_v.Master.Snapshots.Totality.{build_total, IsView, ids_of}
use edge_shard_v.Examples.Data.{digest, registration, clock, master, state}

build_total_example :
    (ws : List WorkerSnapshot) × (build master 5 "n1" (clock 5).wall
      ≡ ok (record { snapshot_id = "n1"; created_at = (clock 5).wall; workers = ws }))
    × (ids_of ws ≡ sorted (keys master.registry))
    × All (IsView master 5) ws
unfolding check_master_config check_worker_identity check_register_worker_request
build_total_example =
    build_total digest master 5
      (register_worker-Inv digest (init default_config) registration "s1" (clock 0)
        (init-Inv digest default_config refl) refl refl refl refl)
      "n1" (clock 5).wall refl refl

abbrev states : States
states = ("w1", stored state (clock 0)) ∷ []

evaluate_settles_example :
    (get "w1" (evaluate default_config 5 states []).0
      ≡ or_else (status_of default_config 5 states (get "w1" states)) (get "w1" []))
    × (get "w1" (evaluate default_config 5 states []).1
        ≡ changed (status_of default_config 5 states (get "w1" states)) (get "w1" []))
    × (evaluate default_config 5 states (evaluate default_config 5 states []).0
        ≡ ((evaluate default_config 5 states []).0, []))
unfolding keys
evaluate_settles_example = evaluate_settles default_config 5 states [] "w1" refl

classify_exact_example :
    ((classify default_config 7 ≡ online) ↔ (7 ≤ 10_000 * ns_per_ms))
    × ((classify default_config 7 ≡ offline) ↔ (20_000 * ns_per_ms < 7))
    × (classify default_config (20_000 * ns_per_ms) ≡ suspect)
unfolding check_master_config
classify_exact_example = classify_exact default_config 7 refl

status_at_mono_example :
    (s s' : WorkerStatus) × (status_at default_config "w1" 5 states ≡ ok s)
    × (status_at default_config "w1" 9 states ≡ ok s')
    × (rank s ≤ rank s')
unfolding get
status_at_mono_example =
    status_at_mono default_config "w1" states (stored state (clock 0)) 5 9 (omega arith) refl
