-- ===== src/Inference/Steps/History.antt =====
-- The calls of a shard module, and their sequences.
use edge_shard_v.Shared.{ℕ, String, ◌≢◌, Option, List, [], ◌∷◌, Result, ok, err}
use edge_shard_v.Inference.Protocol.{LogitsMode}
use edge_shard_v.Inference.Sessions.{ShardModule, create_session, close_session}
use edge_shard_v.Inference.Steps.{Kernel, run_prefill, run_decode}

-- The other calls of a shard module between two prefills of a session.
pub data Call (Hidden : Type 0) : Type 0 where
  prefills : String → Option (List ℕ) → Option Hidden → LogitsMode → Call Hidden
  decodes : String → Option ℕ → Option Hidden → Call Hidden
  creates : String → Call Hidden
  closes : String → Call Hidden

-- The call does not close the session `i`.
abbrev pub Keeps : {Hidden : Type 0} → String → Call Hidden → Type 0
Keeps i (closes j) = j ≢ i
Keeps i _ = Unit

module _ {Cache Hidden Logits : Type 0} (k : Kernel Cache Hidden Logits) where
  -- A method that raises before it replaces the module leaves the module as it was.
  abbrev pub replaced : ShardModule Cache → Result (ShardModule Cache) → ShardModule Cache
  replaced m (ok n) = n
  replaced m (err x) = m

  unfoldable pub apply : ShardModule Cache → Call Hidden → ShardModule Cache
  apply m (prefills i ids hs mode) = (run_prefill k i ids hs mode m).1
  apply m (decodes i token hs) = (run_decode k i token hs m).1
  apply m (creates i) = replaced m (create_session i m)
  apply m (closes i) = replaced m (close_session i m)

  unfoldable pub run : ShardModule Cache → List (Call Hidden) → ShardModule Cache
  run m [] = m
  run m (c ∷ cs) = run (apply m c) cs
