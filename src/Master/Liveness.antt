-- ===== src/Master/Liveness.antt =====
-- src/edgeshard/control/master/liveness.py: the status of a Worker from the age of its last accepted
-- state. The source multiplies a float of seconds by 1000 and compares it with milliseconds; here an
-- age is in nanoseconds and the thresholds are multiplied. A reading before the stored one gives the
-- age 0, and the source's negative age has the same status.
pub mod Thresholds
pub mod Ticks
use edge_shard_v.Shared.{
  ℕ, ◌-◌, ◌*◌, String, Bool, true, false, Option, none, some, List, [], ◌∷◌, Result, ok, err,
  key_error, leb, if◌then◌else◌,
}
use edge_shard_v.Shared.Dict.{Dict, get, put}
use edge_shard_v.Cluster.State.{WorkerStatus, online, suspect, offline}
use edge_shard_v.Master.Config.{MasterConfig}
use edge_shard_v.Master.StateStore.{States, StoredState, items}

abbrev pub ns_per_ms : ℕ
ns_per_ms = 1_000_000

unfoldable pub classify : MasterConfig → ℕ → WorkerStatus
classify c elapsed =
    if leb elapsed (c.suspect_after_ms * ns_per_ms)
    then online
    else if leb elapsed (c.offline_after_ms * ns_per_ms)
    then suspect
    else offline

abbrev status_of_entry : MasterConfig → Option StoredState → ℕ → Result WorkerStatus
status_of_entry c none now = err key_error
status_of_entry c (some e) now = ok (classify c (now - e.received_monotonic))

unfoldable pub status_at : MasterConfig → String → ℕ → States → Result WorkerStatus
unfolding classify
status_at c worker_id now states = status_of_entry c (get worker_id states) now

abbrev pub classify_all : MasterConfig → ℕ → List (String × StoredState) → Dict WorkerStatus
classify_all c now [] = []
classify_all c now ((i, e) ∷ es) =
    (i, classify c (now - e.received_monotonic)) ∷ classify_all c now es

unfoldable pub statuses_at : MasterConfig → ℕ → States → Dict WorkerStatus
unfolding classify items
statuses_at c now states = classify_all c now (items states)

abbrev pub same_status : WorkerStatus → WorkerStatus → Bool
same_status online online = true
same_status suspect suspect = true
same_status offline offline = true
same_status _ _ = false

abbrev pub is_logged : Option WorkerStatus → WorkerStatus → Bool
is_logged none status = false
is_logged (some previous) status = same_status previous status

-- The loop of `evaluate` over the statuses. Beside the new `_last_logged` it returns the transitions
-- that it logs, in order.
unfoldable pub log_transitions :
    List (String × WorkerStatus)
    → Dict WorkerStatus
    → Dict WorkerStatus × List (String × WorkerStatus)
log_transitions [] logged = (logged, [])
log_transitions ((i, status) ∷ rest) logged =
    let seen = is_logged (get i logged) status in
    let (logged', lines) = log_transitions rest (if seen then logged else put i status logged) in
    (logged', if seen then lines else (i, status) ∷ lines)

unfoldable pub evaluate :
    MasterConfig → ℕ → States → Dict WorkerStatus → Dict WorkerStatus × List (String × WorkerStatus)
unfolding log_transitions statuses_at
evaluate c now states logged = log_transitions (statuses_at c now states) logged
