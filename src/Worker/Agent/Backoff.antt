-- ===== src/Worker/Agent/Backoff.antt =====
-- The delays between two attempts to reach the Master.
use mathlib.Core.List.{append-nil, append_assoc}
use edge_shard_v.Shared.{
  ℕ, zero, suc, ◌≡◌, refl, ◌≤◌, ◌*◌, false, Option, none, some, Result, ok, err, Exception, arith,
  master_unavailable, session_invalid, superseded, Result-cases, Bool-cases, inl, inr,
  if◌then◌else◌, leb, List, [], ◌∷◌, ◌++◌, ap, sym, ◌∙◌,
}
use edge_shard_v.Worker.Config.{check_reconnect_config}
use edge_shard_v.Worker.Agent.{World, AgentConfig, AgentSession, register}
use edge_shard_v.Worker.Agent.Run.{
  Phase, registering, beating, returned, raised, Agent, finish, next_delay, back_off,
  registration_turn, after_loss, after_register, after_beat, after_sleep, heartbeat_turn,
  phase_turn, turn, turns, begin,
}

module _ {S : Type 0} (config : AgentConfig) (w : World S) where
  abbrev initial_delay : ℕ
  initial_delay = config.reconnect.initial_delay

  abbrev max_delay : ℕ
  max_delay = config.reconnect.max_delay

  abbrev IsWithin : ℕ → Type 0
  IsWithin delay = (initial_delay ≤ delay) × (delay ≤ max_delay)

  -- The delay that the phase carries is between the two configured ones.
  abbrev pub IsBounded : Phase → Type 0
  IsBounded (registering delay) = IsWithin delay
  IsBounded (beating session sequence delay) = IsWithin delay
  IsBounded returned = Unit
  IsBounded (raised x) = Unit

  -- Exactly in the heartbeat loop the Agent shows a session, the one of the loop.
  abbrev pub ShowsSession : Phase → Option AgentSession → Type 0
  ShowsSession (beating session sequence delay) current = current ≡ some session
  ShowsSession _ current = current ≡ none

  -- The delay is bounded, and the session shown is the one of the phase.
  pub record IsOrderly (a : Agent S) : Type 0 where
    pub bounded : IsBounded a.phase
    pub shown : ShowsSession a.phase a.current_session

  module _ (valid : check_reconnect_config config.reconnect ≡ ok tt) where
    next_delay-IsWithin : (delay : ℕ) → IsWithin delay → IsWithin (next_delay config w delay)
    unfolding next_delay check_reconnect_config
    next_delay-IsWithin delay b = ground arith

    initial_delay-IsWithin : IsWithin initial_delay
    unfolding check_reconnect_config
    initial_delay-IsWithin = ground arith

    finish_raised : (x : Exception) (s : S) → IsOrderly (finish config w (raised x) s)
    unfolding finish
    finish_raised x s = elim (Result-cases (w.close s).0) [
      | inl (u, e) ↦ rw e (record { bounded = tt; shown = refl })
      | inr (y, e) ↦ rw e (record { bounded = tt; shown = refl })
    ]

    finish_returned : (s : S) → IsOrderly (finish config w returned s)
    unfolding finish
    finish_returned s = elim (Result-cases (w.close s).0) [
      | inl (u, e) ↦ rw e (record { bounded = tt; shown = refl })
      | inr (y, e) ↦ rw e (record { bounded = tt; shown = refl })
    ]

    back_off-IsOrderly :
        (delay : ℕ) (s : S) → IsWithin delay → IsOrderly (back_off config w delay s)
    unfolding back_off
    back_off-IsOrderly delay s b = elim (Result-cases (w.sleep delay s).0) [
      | inl (u, e) ↦ rw e (record { bounded = next_delay-IsWithin delay b; shown = refl })
      | inr (y, e) ↦ rw e (finish_raised y _)
    ]

    after_loss-IsOrderly :
        (delay : ℕ) (x : Exception) (s : S)
        → IsWithin delay
        → IsOrderly (after_loss config w delay x s)
    unfolding after_loss
    after_loss-IsOrderly delay master_unavailable s b = back_off-IsOrderly delay s b
    after_loss-IsOrderly delay session_invalid s b = record { bounded = b; shown = refl }
    after_loss-IsOrderly delay superseded s b = finish_returned s
    after_loss-IsOrderly delay x s b = finish_raised x s

    not_reached-IsOrderly :
        (delay : ℕ) (x : Exception) (s : S)
        → IsWithin delay
        → IsOrderly (after_register config w delay (err x) s)
    unfolding after_register
    not_reached-IsOrderly delay master_unavailable s b = back_off-IsOrderly delay s b
    not_reached-IsOrderly delay x s b = finish_raised x s

    registration_turn-IsOrderly :
        (delay : ℕ) (s : S) → IsWithin delay → IsOrderly (registration_turn config w delay s)
    unfolding registration_turn after_register
    registration_turn-IsOrderly delay s b = elim (Bool-cases (w.is_stopping s)) [
      | inl e ↦ rw e (finish_returned s)
      | inr e ↦ elim (Result-cases (register config w s).0) [
        | inl (session, f) ↦ rw (e, f) (record { bounded = initial_delay-IsWithin; shown = refl })
        | inr (x, f) ↦ rw (e, f) (not_reached-IsOrderly delay x _ b)
      ]
    ]

    beaten-IsOrderly :
        (sequence : ℕ) (delay : ℕ) (r : Result AgentSession) (s : S)
        → IsWithin delay
        → IsOrderly (after_beat config w sequence delay r s)
    unfolding after_beat
    beaten-IsOrderly sequence delay (ok session) s b = record { bounded = b; shown = refl }
    beaten-IsOrderly sequence delay (err x) s b = after_loss-IsOrderly delay x s b

    heartbeat_turn-IsOrderly :
        (session : AgentSession) (sequence delay : ℕ) (s : S)
        → IsWithin delay
        → IsOrderly (heartbeat_turn config w session sequence delay s)
    unfolding heartbeat_turn after_sleep
    heartbeat_turn-IsOrderly session sequence delay s b = elim (Bool-cases (w.is_stopping s)) [
      | inl e ↦ rw e (finish_returned s)
      | inr e ↦ elim (Result-cases (w.sleep session.heartbeat_interval s).0) [
        | inr (x, f) ↦ rw (e, f) (after_loss-IsOrderly delay x _ b)
        | inl (u, f) ↦ elim (Bool-cases (w.is_stopping (w.sleep session.heartbeat_interval s).1)) [
          | inl g ↦ rw (e, f, g) (finish_returned _)
          | inr g ↦ rw (e, f, g) (beaten-IsOrderly sequence delay _ _ b)
        ]
      ]
    ]

    phase_turn-IsOrderly :
        (phase : Phase) (a : Agent S)
        → IsBounded phase
        → IsOrderly a
        → IsOrderly (phase_turn config w phase a)
    unfolding phase_turn
    phase_turn-IsOrderly (registering delay) a b o = registration_turn-IsOrderly delay a.world b
    phase_turn-IsOrderly (beating session sequence delay) a b o =
        heartbeat_turn-IsOrderly session sequence delay a.world b
    phase_turn-IsOrderly returned a b o = o
    phase_turn-IsOrderly (raised x) a b o = o

    begin-IsOrderly : (s : S) → IsOrderly (begin config w s)
    unfolding begin
    begin-IsOrderly s = elim (Result-cases (w.start s).0) [
      | inl (u, e) ↦ rw e (record { bounded = initial_delay-IsWithin; shown = refl })
      | inr (x, e) ↦ rw e (finish_raised x _)
    ]

    -- At every turn of an Agent with a valid configuration, whatever its world does, the delay of its
    -- next retry is between the two configured ones, and it shows a registration session exactly while
    -- it is in the heartbeat loop of that session.
    pub turns-IsOrderly : (n : ℕ) (s : S) → IsOrderly (turns config w n (begin config w s))
    unfolding turns turn
    turns-IsOrderly zero s = begin-IsOrderly s
    turns-IsOrderly (suc n) s = let o = turns-IsOrderly n s in phase_turn-IsOrderly _ _ o.bounded o

  -- `initial * 2 ** k`, but no more than the maximum.
  unfoldable pub doubled : ℕ → ℕ
  doubled zero = initial_delay
  doubled (suc k) = doubled k * 2

  abbrev capped : ℕ → ℕ
  capped n = if leb n max_delay then n else max_delay

  next_delay-capped : (n : ℕ) → next_delay config w (capped n) ≡ capped (n * 2)
  unfolding next_delay
  next_delay-capped n = ground arith

  -- The first `n` delays of an outage: the initial delay doubled again and again, up to the maximum.
  abbrev pub waits : ℕ → List ℕ
  waits zero = []
  waits (suc n) = waits n ++ capped (doubled n) ∷ []

  -- No attempt to register reaches the Master, and nobody stops the Agent. `log` reads off the world
  -- the sleeps that it was asked for.
  pub record IsOutage (log : S → List ℕ) : Type 0 where
    pub starts : (s : S) → ((w.start s).0 ≡ ok tt) × (log (w.start s).1 ≡ log s)
    pub unreachable :
        (s : S)
        → ((register config w s).0 ≡ err master_unavailable) × (log (register config w s).1 ≡ log s)
    pub sleeps :
        (d : ℕ) (s : S) → ((w.sleep d s).0 ≡ ok tt) × (log (w.sleep d s).1 ≡ log s ++ d ∷ [])
    pub not_stopping : (s : S) → w.is_stopping s ≡ false

  module _ (log : S → List ℕ) (o : IsOutage log) where
    unreached_turn :
        (delay : ℕ) (s : S)
        → ((registration_turn config w delay s).phase ≡ registering (next_delay config w delay))
          × (log (registration_turn config w delay s).world ≡ log s ++ delay ∷ [])
    unfolding registration_turn after_register back_off
    unreached_turn delay s =
        let sleep = o.sleeps delay (register config w s).1 in
        (
          rw (o.not_stopping s, (o.unreachable s).0, sleep.0) refl,
          rw (o.not_stopping s, (o.unreachable s).0, sleep.0)
              (sleep.1 ∙ ap (λ l. l ++ delay ∷ []) (o.unreachable s).1),
        )

    -- While no attempt to register reaches the Master, the Agent sleeps after each attempt: `n` turns
    -- ask for the initial delay, its double and so on, each no longer than the maximum, and for no
    -- other sleep. The `n`th delay is also the one that the next retry starts from.
    pub outage_delays :
        (n : ℕ) (s : S)
        → check_reconnect_config config.reconnect ≡ ok tt
        → ((turns config w n (begin config w s)).phase ≡ registering (capped (doubled n)))
          × (log (turns config w n (begin config w s)).world ≡ log s ++ waits n)
    unfolding turns turn begin check_reconnect_config doubled
    outage_delays zero s valid = (
      rw (o.starts s).0 (ground arith),
      rw (o.starts s).0 ((o.starts s).1 ∙ sym (append-nil (log s))),
    )
    outage_delays (suc n) s valid =
        let before = outage_delays n s valid in
        let step =
          unreached_turn (capped (doubled n)) (turns config w n (begin config w s)).world in
        (
          rw (before.0, step.0, next_delay-capped (doubled n)) refl,
          rw (before.0) (
              step.1
              ∙ ap (λ l. l ++ capped (doubled n) ∷ []) before.1
              ∙ append_assoc (log s) (waits n) (capped (doubled n) ∷ [])),
        )
