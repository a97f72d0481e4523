-- ===== src/Master/StateStore.antt =====
-- src/edgeshard/control/master/state_store.py: the latest accepted state of each Worker with the
-- Master's receive times. A reading of the monotonic clock is a whole number of nanoseconds here,
-- and a float of seconds in the source.
use edge_shard_v.Shared.{
  ℕ, String, none, some, List, [], ◌∷◌, ◌==◌, not, Result, Checked, ok, value_error, raise_if, ◌>>◌,
}
use edge_shard_v.Shared.Dict.{Dict, get, put, keys}
use edge_shard_v.Shared.Sorting.{sorted}
use edge_shard_v.Cluster.State.{WorkerState}
use edge_shard_v.Cluster.Snapshot.{Datetime, require_aware}

pub record StoredState : Type 0 where
  pub state : WorkerState
  pub received_monotonic : ℕ
  pub received_wall : Datetime

unfoldable pub check_stored_state : StoredState → Checked
unfolding require_aware
check_stored_state s = require_aware s.received_wall

abbrev pub States : Type 0
States = Dict StoredState

unfoldable pub record_state : String → WorkerState → ℕ → Datetime → States → Result States
unfolding check_stored_state
record_state worker_id state monotonic wall m = do
  raise_if (not (state.worker_id == worker_id)) value_error
  let entry : StoredState = record {
    state = state;
    received_monotonic = monotonic;
    received_wall = wall;
  }
  check_stored_state entry
  ok (put worker_id entry m)

abbrev pub select_entries : List String → States → List (String × StoredState)
select_entries [] m = []
select_entries (i ∷ ids) m =
    let rest = select_entries ids m in elim (get i m) [ none ↦ rest | some e ↦ (i, e) ∷ rest ]

-- Every entry, ordered by worker_id.
unfoldable pub items : States → List (String × StoredState)
items m = select_entries (sorted (keys m)) m
