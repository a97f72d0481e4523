-- ===== src/Inference/Sessions/Rollback.antt =====
-- Opening a session on a pipeline happens on every stage or on none.
use edge_shard_v.Shared.{
  String, ◌≡◌, ◌⊎◌, inl, inr, refl, sym, false, none, Option-cases, List, [], ◌∷◌, ◌++◌, All,
  Result-cases, Checked-cases, ok, is_ok, arith, ==_refl,
}
use mathlib.Core.Path.{subst}
use edge_shard_v.Shared.Dict.{get, put, get-put, remove-put_self, remove_absent}
use edge_shard_v.Inference.Sessions.{
  ShardSession, ShardModule, session, create_session, close_session, close_stages, open_stages,
  open_pipeline,
}

module _ {Cache : Type 0} where
  -- The stage has the session, and no step of it has run.
  abbrev pub IsFresh : String → ShardModule Cache → Type 0
  IsFresh i m =
      (s : ShardSession Cache) × (session i m ≡ ok s)
      × (s.session_id ≡ i)
      × (s.step ≡ 0)
      × (s.sequence_length ≡ 0)

  abbrev fresh : String → Cache → ShardSession Cache
  fresh i c = record { session_id = i; kv_cache = c; sequence_length = 0; step = 0 }

  create_session-parts :
      (i : String) (m n : ShardModule Cache)
      → create_session i m ≡ ok n
      → (get i m.sessions ≡ none)
        × ((c : Cache) × (n ≡ record m { sessions = put i (fresh i c) m.sessions }))
  unfolding create_session
  create_session-parts i m n e = elim (Option-cases (get i m.sessions)) [
    | inl p ↦ elim (Result-cases m.new_cache) [
      | inl (c, q) ↦ (p, (c, ground (arith, p, q)))
      | inr (x, q) ↦ ground (arith, p, q)
    ]
    | inr (s, p) ↦ ground (arith, p)
  ]

  session-put :
      (i : String) (c : Cache) (m : ShardModule Cache)
      → session i (record m { sessions = put i (fresh i c) m.sessions }) ≡ ok (fresh i c)
  unfolding session
  session-put i c m = ground (arith, get-put i i (fresh i c) m.sessions, ==_refl i)

  close_put :
      (i : String) (c : Cache) (m : ShardModule Cache)
      → get i m.sessions ≡ none
      → close_session i (record m { sessions = put i (fresh i c) m.sessions }) ≡ ok m
  unfolding close_session
  close_put i c m p = ground (
    arith,
    get-put i i (fresh i c) m.sessions,
    ==_refl i,
    remove-put_self i (fresh i c) m.sessions,
    remove_absent i m.sessions p,
  )

  create_session-IsFresh :
      (i : String) (m n : ShardModule Cache) → create_session i m ≡ ok n → IsFresh i n
  unfolding session
  create_session-IsFresh i m n e =
      let (p, (c, q)) = create_session-parts i m n e in
      (fresh i c, ground (arith, q, session-put i c m), refl, refl, refl)

  close-create :
      (i : String) (m n : ShardModule Cache) → create_session i m ≡ ok n → close_session i n ≡ ok m
  close-create i m n e =
      let (p, (c, q)) = create_session-parts i m n e in ground (arith, q, close_put i c m p)

  opened-step :
      (i : String) (m n : ShardModule Cache) (ms : List (ShardModule Cache))
      → create_session i m ≡ ok n
      → open_stages i (m ∷ ms)
        ≡ ((open_stages i ms).0, n ∷ (open_stages i ms).1, (open_stages i ms).2)
  unfolding open_stages
  opened-step i m n ms p = ground (arith, p)

  opened-IsFresh :
      (i : String) (ms : List (ShardModule Cache))
      → (open_stages i ms).0 ≡ ok tt
      → All (IsFresh i) ((open_stages i ms).1 ++ (open_stages i ms).2)
  unfolding open_stages
  opened-IsFresh i [] e = tt
  opened-IsFresh i (m ∷ ms) e = elim (Result-cases (create_session i m)) [
    | inl (n, p) ↦
        subst (λ a. All (IsFresh i) (a.1 ++ a.2)) (sym (opened-step i m n ms p))
          (
            create_session-IsFresh i m n p,
            opened-IsFresh i ms (ground (arith, e, opened-step i m n ms p)),
          )
    | inr (x, p) ↦ ground (arith, p)
  ]

  undone-restores :
      (i : String) (ms : List (ShardModule Cache))
      → ((close_stages i (open_stages i ms).1).0 ≡ ok tt)
        × ((close_stages i (open_stages i ms).1).1 ++ (open_stages i ms).2 ≡ ms)
  unfolding open_stages close_stages
  undone-restores i [] = (refl, refl)
  undone-restores i (m ∷ ms) = elim (Result-cases (create_session i m)) [
    | inl (n, p) ↦ ground (arith, p, close-create i m n p, undone-restores i ms)
    | inr (x, p) ↦ ground (arith, p)
  ]

  opened-all :
      (i : String) (ms : List (ShardModule Cache))
      → (open_stages i ms).0 ≡ ok tt
      → open_pipeline i ms ≡ (ok tt, (open_stages i ms).1 ++ (open_stages i ms).2)
  unfolding open_pipeline
  opened-all i ms p = ground (arith, p)

  -- Opening a session either succeeds, and then every stage has it with no step run, or raises, and
  -- then every stage is as it was before the call.
  pub open_pipeline_outcome :
      (i : String) (ms : List (ShardModule Cache))
      → (((open_pipeline i ms).0 ≡ ok tt) × All (IsFresh i) (open_pipeline i ms).1)
        ⊎ ((is_ok (open_pipeline i ms).0 ≡ false) × ((open_pipeline i ms).1 ≡ ms))
  unfolding open_pipeline
  open_pipeline_outcome i ms = elim (Checked-cases (open_stages i ms).0) [
    | inl p ↦ inl (
        subst (λ a. (a.0 ≡ ok tt) × All (IsFresh i) a.1) (sym (opened-all i ms p))
          (refl, opened-IsFresh i ms p))
    | inr (x, p) ↦ inr (ground (arith, p, undone-restores i ms))
  ]
