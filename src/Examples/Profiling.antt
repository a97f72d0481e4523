-- ===== src/Examples/Profiling.antt =====
-- A benchmark whose timer returns one duration, and two Workers on one network.
use edge_shard_v.Shared.{
  ◌↔◌, has_duplicate, contains, All, arith, ℕ, ◌≡◌, refl, String, true, false, if◌then◌else◌, ◌&&◌,
  ◌||◌, ◌==◌, ◌==ₙ◌, Option, none, some, List, [], ◌∷◌, ok,
}
use edge_shard_v.Profiling.Benchmark.{DurationSamplingPolicy, check_sampling_policy}
use edge_shard_v.Profiling.Benchmark.Harness.{Bench, ended, new_state, measure}
use edge_shard_v.Profiling.Benchmark.Lifecycle.{run}
use edge_shard_v.Profiling.Benchmark.Quiet.{counting}
use edge_shard_v.Profiling.Benchmark.Settled.{Settles}
use edge_shard_v.Profiling.Benchmark.Cleanup.{IsSound, run_cleans_up}
use edge_shard_v.Profiling.Network.{
  Python, wired, wireless, WorkerNetworkFacts, check_worker_network_facts, classify_path, wifi_lan,
}
use edge_shard_v.Profiling.Network.Selection.{select_bandwidth_pairs}
use edge_shard_v.Profiling.Network.Distinct.{repeats, is_among, select_bandwidth_pairs_distinct}
use edge_shard_v.Profiling.Network.Pairs.{
  NetworkPair, worker_pair, Among, enumerate_pairs, enumerate_pairs_complete,
}
use edge_shard_v.Profiling.Experiment.{
  ProfilingExperiment, ExperimentStatus, running, check_experiment_status,
}
use edge_shard_v.Worker.Ledger.Records.{running as case_running}
use edge_shard_v.Profiling.Experiment.Coverage.{ids_of, status-Covers}
use edge_shard_v.Examples.Data.{clock}
use edge_shard_v.Profiling.Network.Symmetry.{classify_path_symmetric}

abbrev bench : Bench ℕ
bench = record {
  prepare = λ s. (ok tt, s);
  reset = λ s. (ok tt, s);
  cleanup = λ s. (ok tt, s);
  run_once = λ s. (ok tt, s);
  start = λ s. (ok tt, s);
  stop = λ s. (ok 400, s);
  is_valid = λ n. true;
  poll_physical = none;
  environment_check = none;
  capture_initial = none;
  capture_final = none;
  open_memory = none;
  close_memory = none;
  open_physical = none;
  close_physical = none;
  stationarity_reliable = true;
}

abbrev sampling : DurationSamplingPolicy
sampling = record {
  min_warmups = 1;
  max_warmups = 6;
  window_size = 2;
  stable_windows_required = 1;
  legacy_fixed_warmup = false;
  enforce_stationarity = true;
  min_runs = 2;
  max_runs = 5;
  target_duration = 1_000;
}

run_cleans_up_example :
    Settles
      (IsSound sampling)
      1
      (run (λ current previous. false) (λ samples. true) (counting bench) sampling (0, 0))
unfolding check_sampling_policy
run_cleans_up_example =
    run_cleans_up bench sampling refl (λ current previous. false) (λ samples. true) 0

-- Two runs reach 800, below the target of 1000: the loop makes a third.
three_runs :
    measure bench 6 sampling (new_state sampling) [] 0 ≡ ended (ok (400 ∷ 400 ∷ 400 ∷ []), 0)
unfolding measure
three_runs = refl

abbrev parse : String → Option ℕ
parse a =
    if a == "10.0.0.1" then some 167_772_161 else if a == "10.0.0.2" then some 167_772_162 else none

abbrev python : Python
python = record {
  lower = λ s. s;
  starts_with = λ s p. (s == "wlan0" && p == "wl") || (s == "eth0" && p == "eth");
  parse = parse;
  shift_right = λ n k. if k ==ₙ 8 then 655_360 else n;
}

abbrev wired_worker : WorkerNetworkFacts
wired_worker = record {
  worker_id = "a";
  hostname = "host-a";
  interfaces =
      record {
        interface_id = "0";
        name = "eth0";
        kind = wired;
        overlay_type = none;
        addresses = "10.0.0.1" ∷ [];
        mtu = none;
      }
      ∷ [];
}

abbrev wireless_worker : WorkerNetworkFacts
wireless_worker = record {
  worker_id = "b";
  hostname = "host-b";
  interfaces =
      record {
        interface_id = "1";
        name = "wlan0";
        kind = wireless;
        overlay_type = none;
        addresses = "10.0.0.2" ∷ [];
        mtu = none;
      }
      ∷ [];
}

classify_path_symmetric_example :
    classify_path python 24 wired_worker none wireless_worker (some "1")
    ≡ classify_path python 24 wireless_worker (some "1") wired_worker none
classify_path_symmetric_example =
    classify_path_symmetric python 24 wired_worker none wireless_worker (some "1")

over_wifi : classify_path python 24 wired_worker none wireless_worker (some "1") ≡ ok wifi_lan
unfolding classify_path
over_wifi = refl

enumerate_pairs_complete_example :
    (pairs : List NetworkPair) × (enumerate_pairs (wired_worker ∷ wireless_worker ∷ []) ≡ ok pairs)
    × Among (wired_worker ∷ wireless_worker ∷ []) (wired_worker ∷ wireless_worker ∷ []) pairs
unfolding check_worker_network_facts
enumerate_pairs_complete_example =
    enumerate_pairs_complete (wired_worker ∷ wireless_worker ∷ []) (refl, (refl, tt)) refl

select_bandwidth_pairs_distinct_example :
    (pairs : List NetworkPair) × (select_bandwidth_pairs 1
        (record { pair = worker_pair "b" "a"; path_class = wifi_lan }
          ∷ record { pair = worker_pair "a" "b"; path_class = wifi_lan }
          ∷ [])
        (worker_pair "b" "a" ∷ [])
      ≡ ok pairs)
    × (repeats pairs ≡ false)
    × All (λ p. is_among p pairs ≡ true) (worker_pair "b" "a" ∷ [])
select_bandwidth_pairs_distinct_example =
    select_bandwidth_pairs_distinct 1
      (record { pair = worker_pair "b" "a"; path_class = wifi_lan }
        ∷ record { pair = worker_pair "a" "b"; path_class = wifi_lan }
        ∷ [])
      (worker_pair "b" "a" ∷ []) (omega arith)

-- The representative is the first in the order of the endpoints.
first_representative :
    select_bandwidth_pairs 1
      (record { pair = worker_pair "b" "a"; path_class = wifi_lan }
        ∷ record { pair = worker_pair "a" "b"; path_class = wifi_lan }
        ∷ [])
      []
    ≡ ok (worker_pair "a" "b" ∷ [])
unfolding select_bandwidth_pairs
first_representative = refl

abbrev experiment : ProfilingExperiment
experiment = record {
  experiment_id = "e";
  strategy_id = "default-v1";
  created_at = (clock 0).wall;
  requested_by = none;
  case_ids = "c1" ∷ "c2" ∷ [];
  configuration_id = none;
}

abbrev status : ExperimentStatus
status = record {
  experiment = experiment;
  state = running;
  cases =
      record { case_id = "c2"; worker_id = "a"; state = case_running; failure = none }
      ∷ record { case_id = "c1"; worker_id = "b"; state = case_running; failure = none }
      ∷ [];
}

status-Covers_example : (check_experiment_status status ≡ ok tt) ↔ (
    (has_duplicate (ids_of status.cases) ≡ false)
    × ((i : String) → contains (ids_of status.cases) i ≡ contains experiment.case_ids i))
status-Covers_example = status-Covers status

-- This status is accepted.
covering : check_experiment_status status ≡ ok tt
unfolding check_experiment_status
covering = refl
