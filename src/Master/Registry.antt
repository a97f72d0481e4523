-- ===== src/Master/Registry.antt =====
-- src/edgeshard/control/master/registry.py: the stable facts about every Worker that ever
-- registered, one record per worker_id.
use edge_shard_v.Shared.{
  ℕ, String, Option, none, some, List, [], ◌∷◌, Result, Checked, ok, err, value_error, key_error,
  raise_if, ◌>>◌, is_empty, length,
}
use edge_shard_v.Shared.Dict.{Dict, get, put, keys}
use edge_shard_v.Shared.Sorting.{sorted}
use edge_shard_v.Cluster.Identity.{WorkerIdentity}
use edge_shard_v.Cluster.Capability.{WorkerCapability}
use edge_shard_v.Cluster.Snapshot.{present_and_empty}

pub record WorkerRecord : Type 0 where
  pub identity : WorkerIdentity
  pub capability : WorkerCapability
  pub profiling_endpoint : Option String

unfoldable pub check_worker_record : WorkerRecord → Checked
check_worker_record r = do
  raise_if (is_empty r.identity.worker_id) value_error
  raise_if (present_and_empty r.profiling_endpoint) value_error

abbrev pub Registry : Type 0
Registry = Dict WorkerRecord

unfoldable pub upsert :
    WorkerIdentity → WorkerCapability → Option String → Registry → Result Registry
upsert identity capability endpoint m = do
  let r : WorkerRecord = record {
    identity = identity;
    capability = capability;
    profiling_endpoint = endpoint;
  }
  check_worker_record r
  ok (put identity.worker_id r m)

abbrev or_key_error {ℓ} : {A : Type ℓ} → Option A → Result A
or_key_error none = err key_error
or_key_error (some a) = ok a

-- `registry.get`, which raises `KeyError`; `registry.find` is the dictionary's `get`.
unfoldable pub get_record : String → Registry → Result WorkerRecord
get_record worker_id m = or_key_error (get worker_id m)

-- `tuple(self._records[key] for key in ids)`
unfoldable pub select : List String → Registry → List WorkerRecord
select [] m = []
select (i ∷ ids) m = let rest = select ids m in elim (get i m) [ none ↦ rest | some r ↦ r ∷ rest ]

unfoldable pub list_workers : Registry → List WorkerRecord
list_workers m = select (sorted (keys m)) m

unfoldable pub worker_count : Registry → ℕ
worker_count m = length m
