-- ===== src/Worker/Runner/Closers.antt =====
-- A close and a shutdown, piece by piece, keep every device behind a session.
use edge_shard_v.Shared.{
  ℕ, zero, suc, String, ◌≡◌, refl, Bool, false, ◌==◌, ◌||◌, Option, none, some, List, [], ◌∷◌,
  arith, Option-cases, Bool-cases, Result-cases, inl, inr,
}
use edge_shard_v.Shared.Dict.{get}
use edge_shard_v.Worker.Ledger.Records.{RegistrationTokens}
use edge_shard_v.Worker.Ledger.{close_session}
use edge_shard_v.Worker.Ledger.Status.{status, status-close_session}
use edge_shard_v.Worker.Leases.{release_session}
use edge_shard_v.Worker.Runner.Requests.{Tokens, Runner, Closer, closing, shutting, stopping}
use edge_shard_v.Worker.Runner.{
  validate, close_profiling_session, shutdown, close_in_thread, resume_closer,
}
use edge_shard_v.Worker.Runner.Events.{take_closer, with_closer}
use edge_shard_v.Worker.Runner.Reservations.{
  is_closing, IsBacked, IsBacked-along, Inv, get-release_session,
}

-- The coroutine's own session.
abbrev names : String → Closer → Bool
names i (closing session r) = session == i
names i (shutting session ids error r) = session == i
names i (stopping error) = false

is_closing-cons :
    (i : String) (c : Closer) (cs : List Closer)
    → is_closing i (c ∷ cs) ≡ (names i c || is_closing i cs)
is_closing-cons i (closing session r) cs = refl
is_closing-cons i (shutting session ids error r) cs = refl
is_closing-cons i (stopping error) cs = refl

is_closing-take :
    (i : String) (n : ℕ) (cs ds : List Closer) (c : Closer)
    → take_closer n cs ≡ some (c, ds)
    → is_closing i cs ≡ (names i c || is_closing i ds)
unfolding take_closer
is_closing-take i n [] ds c e = absurd (ground (arith, e))
is_closing-take i zero (c' ∷ cs) ds c e = ground (arith, e, is_closing-cons i c' cs)
is_closing-take i (suc n) (c' ∷ cs) ds c e = elim (Option-cases (take_closer n cs)) [
  | inl f ↦ absurd (ground (arith, e, f))
  | inr ((d, rest), f) ↦ ground (
    arith,
    e,
    f,
    is_closing-take i n cs rest d f,
    is_closing-cons i c' cs,
    is_closing-cons i c' rest,
  )
]

module _ {F R : Type 0} where
  -- More coroutines do no harm.
  added-Inv :
      (c : Closer) (runner : Runner F R)
      → Inv runner
      → Inv (record runner { closers = c ∷ runner.closers })
  added-Inv c runner v = record {
    backed = λ d i e. elim (v.backed d i e) [
      | inl o ↦ inl (
          IsBacked-along runner.ledger runner.ledger runner.closers (c ∷ runner.closers) i refl
            (λ u. ground (arith, u, is_closing-cons i c runner.closers)) o)
      | inr p ↦ inr p
    ];
    fresh = v.fresh;
  }

  pub close_profiling_session-Inv :
      (current : Option RegistrationTokens) (tokens : Tokens) (session : String)
      (runner : Runner F R)
      → Inv runner
      → Inv (close_profiling_session current tokens session runner).1
  unfolding close_profiling_session
  close_profiling_session-Inv current tokens session runner v =
      elim (Result-cases (validate current tokens)) [
        | inl (t, e) ↦ rw e (added-Inv (closing session none) runner v)
        | inr (x, e) ↦ rw e v
      ]

  pub shutdown-Inv : (runner : Runner F R) → Inv runner → Inv (shutdown runner)
  unfolding shutdown
  shutdown-Inv runner v = added-Inv _ runner v

  -- The runner while one of its coroutines is at work.
  abbrev Working : Closer → Runner F R → Type 0
  Working c runner = Inv (record runner { closers = c ∷ runner.closers })

  thread-Inv :
      (session : String) (c c' : Closer) (runner : Runner F R)
      → ((i : String) → names i c ≡ (session == i))
      → ((i : String) → names i c' ≡ (session == i))
      → Working c runner
      → Inv (record runner {
        ledger = (close_session session runner.ledger).1;
        closers = c' ∷ runner.closers;
      })
  thread-Inv session c c' runner own own' v =
      let closed_from_open : (i : String)
          → status i runner.ledger ≡ some false
          → IsBacked (close_session session runner.ledger).1 (c' ∷ runner.closers) i =
        λ i o. elim (Bool-cases (session == i)) [
          | inl g ↦ inr (
            ground (arith, o, g, status-close_session session runner.ledger i),
            ground (arith, g, is_closing-cons i c' runner.closers, own' i),
          )
          | inr g ↦ inl (ground (arith, o, g, status-close_session session runner.ledger i))
        ] in
      record {
        backed = λ d i e. elim (v.backed d i e) [
          | inl (inl o) ↦ inl (closed_from_open i o)
          | inl (inr (o, u)) ↦ inl (
              inr (
                ground (arith, o, status-close_session session runner.ledger i),
                ground (
                  arith,
                  u,
                  is_closing-cons i c runner.closers,
                  is_closing-cons i c' runner.closers,
                  own i,
                  own' i,
                ),
              ))
          | inr p ↦ inr p
        ];
        fresh = λ i e. ground (arith, status-close_session session runner.ledger i, v.fresh i e);
      }

  pub close_in_thread-Inv :
      (c : Closer) (runner : Runner F R) → Working c runner → Inv (close_in_thread c runner)
  unfolding close_in_thread
  close_in_thread-Inv (closing session none) runner v =
      thread-Inv session _ _ runner (λ i. refl) (λ i. refl) v
  close_in_thread-Inv (shutting session ids error none) runner v =
      thread-Inv session _ _ runner (λ i. refl) (λ i. refl) v
  close_in_thread-Inv (closing session (some r)) runner v = v
  close_in_thread-Inv (shutting session ids error (some r)) runner v = v
  close_in_thread-Inv (stopping error) runner v = v

  released-Inv :
      (session : String) (c : Closer) (runner : Runner F R)
      → ((i : String) → names i c ≡ (session == i))
      → Working c runner
      → Inv (record runner { leases = (release_session session runner.leases).1 })
  released-Inv session c runner own v = record {
    backed = λ d i e.
        let (held, other) = get-release_session session i d runner.leases e in
        elim (v.backed d i held) [
          | inl o ↦ inl (
              IsBacked-along runner.ledger runner.ledger (c ∷ runner.closers) runner.closers i refl
                (λ u. ground (arith, u, is_closing-cons i c runner.closers, own i, other)) o)
          | inr p ↦ inr p
        ];
    fresh = v.fresh;
  }

  pub resume_closer-Inv :
      (c : Closer) (runner : Runner F R) → Working c runner → Inv (resume_closer c runner).1
  unfolding resume_closer get
  resume_closer-Inv (closing session (some r)) runner v =
      released-Inv session _ runner (λ i. refl) v
  resume_closer-Inv (shutting session ids error (some r)) runner v =
      added-Inv _ _ (released-Inv session _ runner (λ i. refl) v)
  resume_closer-Inv (stopping error) runner v = record {
    backed = λ d i e. ground (arith, e);
    fresh = v.fresh;
  }
  resume_closer-Inv (closing session none) runner v = v
  resume_closer-Inv (shutting session ids error none) runner v = v

  taken-Inv :
      (c : Closer) (cs : List Closer) (n : ℕ) (runner : Runner F R)
      → take_closer n runner.closers ≡ some (c, cs)
      → Inv runner
      → Working c (record runner { closers = cs })
  taken-Inv c cs n runner e v = record {
    backed = λ d i h. elim (v.backed d i h) [
      | inl o ↦ inl (
          IsBacked-along runner.ledger runner.ledger runner.closers (c ∷ cs) i refl
            (λ u.
              ground (arith, u, is_closing-take i n runner.closers cs c e, is_closing-cons i c cs))
            o)
      | inr p ↦ inr p
    ];
    fresh = v.fresh;
  }

  pub with_closer-Inv :
      (n : ℕ) (piece : Closer → Runner F R → Runner F R) (runner : Runner F R)
      → ((c : Closer) (r : Runner F R) → Working c r → Inv (piece c r))
      → Inv runner
      → Inv (with_closer (take_closer n runner.closers) piece runner)
  with_closer-Inv n piece runner f v = elim (Option-cases (take_closer n runner.closers)) [
    | inl e ↦ rw e v
    | inr ((c, cs), e) ↦ rw e (f c (record runner { closers = cs }) (taken-Inv c cs n runner e v))
  ]
