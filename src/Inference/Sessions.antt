-- ===== src/Inference/Sessions.antt =====
-- The sessions of src/edgeshard/inference/session.py, shard.py and pipeline.py: the table of a shard
-- module, and opening and closing one session on every stage of a pipeline. The adapter's native
-- cache is of a type that the code never looks into.
pub mod Rollback
use edge_shard_v.Shared.{
  ℕ, String, Option, none, some, List, [], ◌∷◌, ◌++◌, Result, Checked, ok, err, session_error,
}
use edge_shard_v.Shared.Dict.{Dict, get, put, remove}
use edge_shard_v.Inference.Spec.{ShardSpec}

pub record ShardSession (Cache : Type 0) : Type 0 where
  pub session_id : String
  pub kv_cache : Cache
  pub sequence_length : ℕ
  pub step : ℕ

-- `ShardModule`, on its shard and its session table; `new_cache` is what its adapter's `new_cache()` does next.
pub record ShardModule (Cache : Type 0) : Type 0 where
  pub shard_spec : ShardSpec
  pub new_cache : Result Cache
  pub sessions : Dict (ShardSession Cache)

module _ {Cache : Type 0} where
  unfoldable pub session : String → ShardModule Cache → Result (ShardSession Cache)
  unfolding get
  session session_id m = elim (get session_id m.sessions) [
    | none ↦ err session_error
    | some s ↦ ok s
  ]

  unfoldable pub create_session : String → ShardModule Cache → Result (ShardModule Cache)
  unfolding get put
  create_session session_id m = elim (get session_id m.sessions) [
    | some _ ↦ err session_error
    | none ↦ elim m.new_cache [
      | err e ↦ err e
      | ok cache ↦
          let opened : ShardSession Cache = record {
            session_id = session_id;
            kv_cache = cache;
            sequence_length = 0;
            step = 0;
          } in
          ok (record m { sessions = put session_id opened m.sessions })
    ]
  ]

  unfoldable pub close_session : String → ShardModule Cache → Result (ShardModule Cache)
  unfolding get remove
  close_session session_id m = elim (get session_id m.sessions) [
    | none ↦ err session_error
    | some _ ↦ ok (record m { sessions = remove session_id m.sessions })
  ]

  -- `for shard in stages: shard.close_session(session_id)`: the first exception ends the loop.
  unfoldable pub close_stages :
      String → List (ShardModule Cache) → Checked × List (ShardModule Cache)
  unfolding close_session
  close_stages session_id [] = (ok tt, [])
  close_stages session_id (m ∷ ms) =
      let later = close_stages session_id ms in
      elim (close_session session_id m) [
        | err e ↦ (err e, m ∷ ms)
        | ok closed ↦ (later.0, closed ∷ later.1)
      ]

  -- The `try` block of `LocalPipeline.create_session`: its outcome, the stages in `created`, and
  -- those that the loop did not get to change.
  unfoldable pub open_stages :
      String
      → List (ShardModule Cache)
      → Checked × List (ShardModule Cache) × List (ShardModule Cache)
  unfolding create_session
  open_stages session_id [] = (ok tt, [], [])
  open_stages session_id (m ∷ ms) =
      let later = open_stages session_id ms in
      elim (create_session session_id m) [
        | err e ↦ (err e, [], m ∷ ms)
        | ok opened ↦ (later.0, opened ∷ later.1, later.2)
      ]

  -- `LocalPipeline.create_session`. An exception of the rollback replaces the first one.
  unfoldable pub open_pipeline :
      String → List (ShardModule Cache) → Checked × List (ShardModule Cache)
  unfolding open_stages close_stages
  open_pipeline session_id stages =
      let attempt = open_stages session_id stages in
      let undone = close_stages session_id attempt.1 in
      elim attempt.0 [
        | ok tt ↦ (ok tt, attempt.1 ++ attempt.2)
        | err e ↦ elim undone.0 [
          | ok tt ↦ (err e, undone.1 ++ attempt.2)
          | err f ↦ (err f, undone.1 ++ attempt.2)
        ]
      ]
