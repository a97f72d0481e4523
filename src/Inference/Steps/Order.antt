-- ===== src/Inference/Steps/Order.antt =====
-- The order of the steps of a session: one prefill, then decodes.
use edge_shard_v.Shared.{
  ℕ, ◌≤◌, ◌<◌, String, ◌≡◌, ◌⊎◌, inl, inr, Option, some, List, [], ◌∷◌, ok, err, session_error, All,
  arith, eq_iff, Option-cases, Result-cases, Bool-cases, ==_refl, ==_of_ne, ◌==ₙ◌, ◌==◌,
}
use mathlib.Core.Path.{subst}
use edge_shard_v.Shared.Dict.{get, put, get-put, get-remove}
use edge_shard_v.Inference.Protocol.{InferencePhase, LogitsMode, prefill, decode, full}
use edge_shard_v.Inference.Sessions.{ShardSession, ShardModule, create_session, close_session}
use edge_shard_v.Inference.Steps.{
  Kernel, ShardResult, enter, advance, advanced, run_prefill, run_decode, one_token,
}
use edge_shard_v.Inference.Steps.History.{
  Call, prefills, decodes, creates, closes, Keeps, replaced, apply, run,
}

module _ {Cache Hidden Logits : Type 0} (k : Kernel Cache Hidden Logits) where
  -- What a step does to the sessions: nothing, or it rewrites its own session, whose step does not
  -- go back.
  Stepped : String → ShardModule Cache → ShardModule Cache → Type 0
  Stepped i m n =
      (n ≡ m)
      ⊎ ((s : ShardSession Cache) × (s' : ShardSession Cache) × (get i m.sessions ≡ some s)
          × (s.step ≤ s'.step)
          × (n ≡ record m { sessions = put i s' m.sessions }))

  nothing : (i : String) (m n : ShardModule Cache) → n ≡ m → Stepped i m n
  unfolding Stepped
  nothing i m n e = inl e

  advance-Stepped :
      (i : String) (s : ShardSession Cache) (hidden : Hidden) (phase : InferencePhase)
      (mode : LogitsMode) (m : ShardModule Cache)
      → get i m.sessions ≡ some s
      → Stepped i m (advance k i s hidden phase mode m).1
  unfolding advance Stepped
  advance-Stepped i s hidden phase mode m g =
      let cache = (k.forward_blocks hidden s.sequence_length s.kv_cache).1 in
      elim (Result-cases (k.forward_blocks hidden s.sequence_length s.kv_cache).0) [
        | inl (h, e) ↦
            inr (s, advanced k (k.length hidden) cache s, g, omega arith, ground (arith, e))
        | inr (x, e) ↦ inr (s, record s { kv_cache = cache }, g, omega arith, ground (arith, e))
      ]

  prefill-Stepped :
      (i : String) (ids : Option (List ℕ)) (hs : Option Hidden) (mode : LogitsMode)
      (m : ShardModule Cache)
      → Stepped i m (run_prefill k i ids hs mode m).1
  unfolding run_prefill
  prefill-Stepped i ids hs mode m = elim (Option-cases (get i m.sessions)) [
    | inl gone ↦ nothing i m _ (ground arith)
    | inr (s, g) ↦ elim (Bool-cases (s.step ==ₙ 0)) [
      | inr z ↦ nothing i m _ (ground arith)
      | inl z ↦ elim (Result-cases (enter k m.shard_spec.include_input_stage ids hs)) [
        | inr (x, e) ↦ nothing i m _ (ground arith)
        | inl (h, e) ↦ subst (Stepped i m) (ground arith) (advance-Stepped i s h prefill mode m g)
      ]
    ]
  ]

  decode-Stepped :
      (i : String) (token : Option ℕ) (hs : Option Hidden) (m : ShardModule Cache)
      → Stepped i m (run_decode k i token hs m).1
  unfolding run_decode
  decode-Stepped i token hs m = elim (Option-cases (get i m.sessions)) [
    | inl gone ↦ nothing i m _ (ground arith)
    | inr (s, g) ↦ elim (Bool-cases (s.step ==ₙ 0)) [
      | inl z ↦ nothing i m _ (ground arith)
      | inr z ↦
          elim (Result-cases (enter k m.shard_spec.include_input_stage (one_token k token) hs)) [
            | inr (x, e) ↦ nothing i m _ (ground arith)
            | inl (h, e) ↦
                subst (Stepped i m) (ground arith) (advance-Stepped i s h decode full m g)
          ]
    ]
  ]

  -- The session `i` is there and a step of it has run.
  abbrev Started : String → ShardModule Cache → Type 0
  Started i m = (s : ShardSession Cache) × (get i m.sessions ≡ some s) × (0 < s.step)

  Stepped-Started :
      (i j : String) (m n : ShardModule Cache) → Stepped j m n → Started i m → Started i n
  unfolding Stepped
  Stepped-Started i j m n (inl same) v = rw same v
  Stepped-Started i j m n (inr (s, s', g, le, e)) (t, h, lt) = elim (Bool-cases (j == i)) [
    | inl x ↦ (s', ground (arith, e, get-put j i s' m.sessions), ground (arith, eq_iff j i))
    | inr x ↦ (t, ground (arith, e, get-put j i s' m.sessions), lt)
  ]

  create-keeps :
      (i j : String) (m : ShardModule Cache) (t : ShardSession Cache)
      → get i m.sessions ≡ some t
      → get i (replaced k m (create_session j m)).sessions ≡ some t
  unfolding create_session
  create-keeps i j m t h = elim (Option-cases (get j m.sessions)) [
    | inr (s, g) ↦ ground (arith, g)
    | inl g ↦ elim (Result-cases m.new_cache) [
      | inr (x, e) ↦ ground (arith, g, e)
      | inl (c, e) ↦
          let s : ShardSession Cache = record {
            session_id = j;
            kv_cache = c;
            sequence_length = 0;
            step = 0;
          } in
          ground (arith, g, e, eq_iff j i, get-put j i s m.sessions)
    ]
  ]

  apply-Started :
      (i : String) (m : ShardModule Cache) (c : Call Hidden)
      → Keeps i c
      → Started i m
      → Started i (apply k m c)
  unfolding apply create_session close_session
  apply-Started i m (prefills j ids hs mode) _ v =
      Stepped-Started i j m (run_prefill k j ids hs mode m).1 (prefill-Stepped j ids hs mode m) v
  apply-Started i m (decodes j token hs) _ v =
      Stepped-Started i j m (run_decode k j token hs m).1 (decode-Stepped j token hs m) v
  apply-Started i m (creates j) _ (t, h, lt) = (t, create-keeps i j m t h, lt)
  apply-Started i m (closes j) ne (t, h, lt) =
      (t, ground (arith, get-remove j i m.sessions, ==_of_ne j i ne), lt)

  run-Started :
      (i : String) (m : ShardModule Cache) (cs : List (Call Hidden))
      → All (Keeps i) cs
      → Started i m
      → Started i (run k m cs)
  unfolding run
  run-Started i m [] _ v = v
  run-Started i m (c ∷ cs) a v = run-Started i (apply k m c) cs a.1 (apply-Started i m c a.0 v)

  Started-refuses :
      (i : String) (m : ShardModule Cache) (ids : Option (List ℕ)) (hs : Option Hidden)
      (mode : LogitsMode)
      → Started i m
      → run_prefill k i ids hs mode m ≡ (err session_error, m)
  unfolding run_prefill
  Started-refuses i m ids hs mode (s, g, lt) = ground arith

  prefill-Started :
      (i : String) (ids : Option (List ℕ)) (hs : Option Hidden) (mode : LogitsMode)
      (m : ShardModule Cache) (out : ShardResult Hidden Logits)
      → (run_prefill k i ids hs mode m).0 ≡ ok out
      → Started i (run_prefill k i ids hs mode m).1
  unfolding run_prefill
  prefill-Started i ids hs mode m out e = elim (Option-cases (get i m.sessions)) [
    | inl gone ↦ absurd (ground arith)
    | inr (s, g) ↦ elim (Bool-cases (s.step ==ₙ 0)) [
      | inr z ↦ absurd (ground arith)
      | inl z ↦ elim (Result-cases (enter k m.shard_spec.include_input_stage ids hs)) [
        | inr (x, q) ↦ absurd (ground arith)
        | inl (h, q) ↦ elim (Result-cases (k.forward_blocks h s.sequence_length s.kv_cache).0) [
          | inr (x, f) ↦ absurd (ground arith)
          | inl (h', f) ↦
              let cache = (k.forward_blocks h s.sequence_length s.kv_cache).1 in
              let s' = advanced k (k.length h) cache s in
              (s', ground (arith, get-put i i s' m.sessions, ==_refl i), omega arith)
        ]
      ]
    ]
  ]

  -- A session is prefilled at most once. After a prefill that returned, whatever steps and sessions
  -- follow, as long as the session is not closed, every further prefill of it raises a session error
  -- and changes nothing.
  pub prefill_once :
      (i : String) (ids : Option (List ℕ)) (hs : Option Hidden) (mode : LogitsMode)
      (m : ShardModule Cache) (out : ShardResult Hidden Logits)
      → (run_prefill k i ids hs mode m).0 ≡ ok out
      → (cs : List (Call Hidden)) → All (Keeps i) cs
      → (ids' : Option (List ℕ)) (hs' : Option Hidden) (mode' : LogitsMode)
      → let m' = run k (run_prefill k i ids hs mode m).1 cs in
        run_prefill k i ids' hs' mode' m' ≡ (err session_error, m')
  prefill_once i ids hs mode m out e cs a ids' hs' mode' =
      Started-refuses i (run k (run_prefill k i ids hs mode m).1 cs) ids' hs' mode' (
        run-Started i (run_prefill k i ids hs mode m).1 cs a
          (prefill-Started i ids hs mode m out e))
