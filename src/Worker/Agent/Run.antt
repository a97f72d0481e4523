-- ===== src/Worker/Agent/Run.antt =====
-- src/edgeshard/control/worker/master_client.py: `WorkerAgent.run`. One turn is one round of the outer
-- loop up to the registration, or one round of the heartbeat loop.
use edge_shard_v.Shared.{
  ℕ, zero, suc, Option, none, some, Result, ok, err, ◌+◌, ◌*◌, leb, Exception, master_unavailable,
  session_invalid, superseded, if◌then◌else◌,
}
use edge_shard_v.Worker.Agent.{World, AgentConfig, AgentSession, register, beat}

-- Where `run` stands: before a registration, with the delay of the next retry; in the heartbeat
-- loop; or ended, by a return or by an exception.
pub data Phase : Type 0 where
  registering : ℕ → Phase
  beating : AgentSession → ℕ → ℕ → Phase
  returned : Phase
  raised : Exception → Phase

pub record Agent (S : Type 0) : Type 0 where
  pub phase : Phase
  pub current_session : Option AgentSession
  pub world : S

module _ {S : Type 0} (config : AgentConfig) (w : World S) where
  -- The `finally` of `run`: an exception of `close` replaces the one that was raised.
  abbrev ended : Phase → Result (Unit {0}) → Phase
  ended phase (ok u) = phase
  ended phase (err x) = raised x

  unfoldable pub finish : Phase → S → Agent S
  finish phase s =
      let (r, s') = w.close s in
      record { phase = ended phase r; current_session = none; world = s' }

  -- `min(delay * 2, reconnect.max_delay_s)`
  unfoldable pub next_delay : ℕ → ℕ
  next_delay delay =
      if leb (delay * 2) config.reconnect.max_delay then delay * 2 else config.reconnect.max_delay

  abbrev slept : ℕ → Result (Unit {0}) → S → Agent S
  slept delay (ok u) s = record {
    phase = registering (next_delay delay);
    current_session = none;
    world = s;
  }
  slept delay (err x) s = finish (raised x) s

  -- `except _MasterUnavailable`
  unfoldable pub back_off : ℕ → S → Agent S
  unfolding finish next_delay
  back_off delay s = let (r, s') = w.sleep delay s in slept delay r s'

  -- What follows `_register`.
  unfoldable pub after_register : ℕ → Result AgentSession → S → Agent S
  after_register delay (ok session) s = record {
    phase = beating session 1 config.reconnect.initial_delay;
    current_session = some session;
    world = s;
  }
  after_register delay (err master_unavailable) s = back_off delay s
  after_register delay (err x) s = finish (raised x) s

  unfoldable pub registration_turn : ℕ → S → Agent S
  unfolding register after_register finish
  registration_turn delay s =
      let attempt = register config w s in
      let next = after_register delay attempt.0 attempt.1 in
      if w.is_stopping s then finish returned s else next

  -- The handlers around the heartbeat loop.
  unfoldable pub after_loss : ℕ → Exception → S → Agent S
  unfolding back_off finish
  after_loss delay master_unavailable s = back_off delay s
  after_loss delay session_invalid s = record {
    phase = registering delay;
    current_session = none;
    world = s;
  }
  after_loss delay superseded s = finish returned s
  after_loss delay x s = finish (raised x) s

  -- What follows a round of the heartbeat loop.
  unfoldable pub after_beat : ℕ → ℕ → Result AgentSession → S → Agent S
  after_beat sequence delay (ok session) s = record {
    phase = beating session (sequence + 1) delay;
    current_session = some session;
    world = s;
  }
  after_beat sequence delay (err x) s = after_loss delay x s

  unfoldable pub after_sleep : AgentSession → ℕ → ℕ → Result (Unit {0}) → S → Agent S
  after_sleep session sequence delay (err x) s = after_loss delay x s
  after_sleep session sequence delay (ok u) s =
      let outcome = beat config w session sequence s in
      let next = after_beat sequence delay outcome.0 outcome.1 in
      let left = registration_turn delay s in if w.is_stopping s then left else next

  -- A round of the heartbeat loop. Stopped, the loop returns to the test of the outer loop.
  unfoldable pub heartbeat_turn : AgentSession → ℕ → ℕ → S → Agent S
  unfolding beat registration_turn after_loss
  heartbeat_turn session sequence delay s =
      let rest = w.sleep session.heartbeat_interval s in
      let next = after_sleep session sequence delay rest.0 rest.1 in
      let left = registration_turn delay s in if w.is_stopping s then left else next

  unfoldable pub phase_turn : Phase → Agent S → Agent S
  unfolding heartbeat_turn registration_turn
  phase_turn (registering delay) a = registration_turn delay a.world
  phase_turn (beating session sequence delay) a = heartbeat_turn session sequence delay a.world
  phase_turn returned a = a
  phase_turn (raised x) a = a

  unfoldable pub turn : Agent S → Agent S
  unfolding phase_turn
  turn a = phase_turn a.phase a

  unfoldable pub turns : ℕ → Agent S → Agent S
  unfolding turn
  turns zero a = a
  turns (suc n) a = turn (turns n a)

  abbrev started : Result (Unit {0}) → S → Agent S
  started (ok u) s = record {
    phase = registering config.reconnect.initial_delay;
    current_session = none;
    world = s;
  }
  started (err x) s = finish (raised x) s

  -- `run` up to its outer loop.
  unfoldable pub begin : S → Agent S
  unfolding finish
  begin s = let (r, s') = w.start s in started r s'
