-- ===== src/Worker/Ledger/Cleanup.antt =====
-- The callable that frees a session's model is called at most once, when the session closes.
use edge_shard_v.Shared.{
  String, ◌≡◌, ◌⊎◌, ok, refl, Bool, true, false, ◌==◌, ==_refl, Option, none, some, List, arith,
  eq_iff, contains, has_duplicate, Bool-cases, inl, inr,
}
use edge_shard_v.Shared.Dict.{get, put, get-put}
use edge_shard_v.Worker.Ledger.Records.{ProfilingSessionRecord, Ledger, ModelCleanup}
use edge_shard_v.Worker.Ledger.{empty, close_session}
use edge_shard_v.Worker.Ledger.History.{Call, run}
use edge_shard_v.Worker.Ledger.Moves.{
  Move, stay, opened, shut, wrote, Moves_keep, run-Moves, logged,
}

contains-logged :
    (o : Option ModelCleanup) (s i : String) (log : List String)
    → contains (logged o s log) i ≡ true
    → (s == i) ≡ false
    → contains log i ≡ true
contains-logged none s i log h n = h
contains-logged (some c) s i log h n = ground arith

logged_once :
    (o : Option ModelCleanup) (s : String) (log : List String)
    → contains log s ≡ false
    → has_duplicate log ≡ false
    → has_duplicate (logged o s log) ≡ false
logged_once none s log h n = n
logged_once (some c) s log h n = ground arith

module _ {P R : Type 0} where
  abbrev pub is_closed : Option (ProfilingSessionRecord P R) → Bool
  is_closed none = false
  is_closed (some r) = r.closed

  -- A session whose cleanup was called is closed, and no cleanup was called twice.
  record Once (l : Ledger P R) : Type 0 where
    closed_first : (s : String) → contains l.cleaned s ≡ true → is_closed (get s l.sessions) ≡ true
    once : has_duplicate l.cleaned ≡ false

  Move-Once : (l l' : Ledger P R) → Move P R l l' → Once l → Once l'
  Move-Once l l' (stay p) v = rw p v
  Move-Once l l' (opened s r g n o p) v = rw p (record {
    closed_first = λ i h. ground (arith, eq_iff s i, get-put s i r l.sessions, v.closed_first i h);
    once = v.once;
  })
  Move-Once l l' (shut s r g o p) v = rw p (record {
    closed_first = λ i h. ground (
      arith,
      eq_iff s i,
      get-put s i (record r { closed = true; model_cleanup = none; model_handle = false })
          l.sessions,
      contains-logged r.model_cleanup s i l.cleaned h,
      v.closed_first i,
    );
    once = logged_once r.model_cleanup s l.cleaned (ground (arith, v.closed_first s)) v.once;
  })
  Move-Once l l' (wrote s c r e g o u k p) v = rw p (record {
    closed_first = λ i h. ground (
      arith,
      eq_iff s i,
      get-put s i (record r { cases = put c e r.cases }) l.sessions,
      v.closed_first i h,
    );
    once = v.once;
  })

  empty-Once : Once empty
  empty-Once = record { closed_first = λ s h. cc; once = refl }

  -- After any calls on a new manager, no session's cleanup was called twice, and every session whose
  -- cleanup was called is closed.
  pub cleanup_once :
      (xs : List (Call P R)) (s : String)
      → let l = run {P = P} {R = R} empty xs in
        (has_duplicate l.cleaned ≡ false)
        × ((contains l.cleaned s ≡ false) ⊎ (is_closed (get s l.sessions) ≡ true))
  cleanup_once xs s =
      let v = Moves_keep Once Move-Once (run-Moves empty xs) empty-Once in
      (
        v.once,
        elim (Bool-cases (contains (run empty xs).cleaned s)) [
          | inl c ↦ inr (v.closed_first s c)
          | inr c ↦ inl c
        ],
      )

  -- Closing an open session closes it whatever its cleanup does, calls that cleanup if there is one,
  -- and a second close of it calls nothing and answers that there was nothing to close.
  pub close_twice :
      (s : String) (r : ProfilingSessionRecord P R) (l : Ledger P R)
      → get s l.sessions ≡ some r
      → r.closed ≡ false
      → let l' = (close_session s l).1 in
        (is_closed (get s l'.sessions) ≡ true)
        × (l'.cleaned ≡ logged r.model_cleanup s l.cleaned)
        × (close_session s l' ≡ (ok false, l'))
  unfolding close_session
  close_twice s r l g o =
      let r' : ProfilingSessionRecord P R = record r {
        closed = true;
        model_cleanup = none;
        model_handle = false;
      } in
      let put_law = get-put s s r' l.sessions in
      (
        ground (arith, put_law, ==_refl s),
        ground (arith, put_law, ==_refl s),
        ground (arith, put_law, ==_refl s),
      )
