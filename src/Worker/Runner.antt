-- ===== src/Worker/Runner.antt =====
-- src/edgeshard/control/worker/profiling_runner.py: the RPC handlers over the ledger and the leases. A
-- handler is cut where it awaits, so that others can run in between; a preparation is one piece up to
-- the inspector, one up to the executor, and the rest. A close and a
-- shutdown wait for a thread at each session; the thread's piece is one too, and a coroutine that is
-- cancelled while it waits is not modelled. The performance state, whose reader's
-- exceptions are caught, and the environment fingerprints stand in the facts.
pub mod Requests
pub mod Cases
pub mod Events
pub mod Reservations
pub mod Closers
pub mod Authority
pub mod Execution
pub mod Backing
pub mod Histories
use edge_shard_v.Shared.{
  String, Bool, true, false, Option, none, some, List, [], ◌∷◌, Result, ok, err, Exception,
  value_error, runtime_error, cancelled_error, device_busy_error, session_refused,
  ProfilingRejection, session_closed, session_kind_mismatch, device_busy, contains, ◌>>=◌,
  if◌then◌else◌, not,
}
use edge_shard_v.Shared.Dict.{get, put}
use edge_shard_v.Cluster.State.{WorkerState}
use edge_shard_v.Cluster.Snapshot.{Datetime}
use edge_shard_v.Worker.Ledger.Records.{
  RegistrationTokens, validate_tokens, CaseState, CaseOutcome, ModelCleanup, ProfilingSessionRecord,
  Ledger,
}
use edge_shard_v.Worker.Ledger.{create_session, close_session, session_ids}
use edge_shard_v.Worker.Leases.{Leases, LeasePolicy, DeviceLease, acquire, release_session}
use Requests.{
  ProfilingSessionKind, model, is_network, same_kind, Tokens, PrepareRequest, Prepared,
  PrepareResponse, prepared, prepare_refused, prepare_failed, Preparation, rpc_cancelled,
  preparation_raised, handle, Suspended, idle, inspecting, executing, Runner, Closer, closing,
  shutting, stopping,
}

-- `_validate`; the first argument is the answer of the token source.
unfoldable pub validate : Option RegistrationTokens → Tokens → Result RegistrationTokens
unfolding validate_tokens
validate current t = validate_tokens current t.worker_id t.instance_id t.registration_session_id

-- A piece of a handler either answers or goes on to its next await.
abbrev pub Reply : Type 0 → Type 0
Reply F = Result (Option (PrepareResponse F))

-- The exception that `shutdown` raises at its end: the first one of a cleanup.
abbrev first_error : Option Exception → Result Bool → Option Exception
first_error (some x) result = some x
first_error none (ok b) = none
first_error none (err x) = some x

abbrev raised_or : Option Exception → Result (Unit {0})
raised_or none = ok tt
raised_or (some x) = err x

abbrev refuse : {F : Type 0} → ProfilingRejection → Reply F
refuse reason = ok (some (prepare_refused reason))

abbrev pub next_closer : List String → Option Exception → Closer
next_closer [] error = stopping error
next_closer (i ∷ ids) error = shutting i ids error none

module _ {F R : Type 0} where
  unfoldable pub replayed :
      PrepareRequest → Option (ProfilingSessionRecord (Prepared F) R) → Reply F
  replayed q none = ok none
  replayed q (some existing) =
      if existing.closed
      then refuse session_closed
      else if not (same_kind existing.request.kind q.kind)
      then refuse session_kind_mismatch
      else ok (some (prepared existing.request.session_facts))

  unfoldable pub begin_with : Result RegistrationTokens → PrepareRequest → Runner F R → Reply F
  unfolding replayed
  begin_with (ok tokens) q runner = replayed q (get q.profiling_session_id runner.ledger.sessions)
  begin_with (err (session_refused reason)) q runner = refuse reason
  begin_with (err x) q runner = err x

  -- The coroutine answered and left the lock, or it waits at its next await.
  unfoldable pub suspend_at : Suspended → Reply F → Runner F R → Reply F × Runner F R
  suspend_at next (ok none) runner = (ok none, record runner { preparing = next })
  suspend_at next (ok (some response)) runner =
      (ok (some response), record runner { preparing = idle })
  suspend_at next (err x) runner = (err x, record runner { preparing = idle })

  -- `_prepare_profiling_session_locked` up to `inspect`.
  unfoldable pub begin_prepare :
      Option RegistrationTokens → PrepareRequest → Runner F R → Reply F × Runner F R
  unfolding validate begin_with suspend_at
  begin_prepare current q runner =
      suspend_at (inspecting q) (begin_with (validate current q.tokens) q runner) runner

  unfoldable pub acquired : Result (List DeviceLease) × Leases → Runner F R → Reply F × Runner F R
  acquired (ok leases, m) runner = (ok none, record runner { leases = m })
  acquired (err (device_busy_error d), m) runner =
      (refuse device_busy, record runner { leases = m })
  acquired (err x, m) runner = (err x, record runner { leases = m })

  -- The network facts, or the reservation; the inspection has returned this state.
  unfoldable pub reserve :
      LeasePolicy → PrepareRequest → WorkerState → Runner F R → Reply F × Runner F R
  unfolding acquired
  reserve policy q state runner =
      if is_network q.kind
      then (if contains q.network_facts q.tokens.worker_id
          then (ok none, runner)
          else (err value_error, runner))
      else acquired (acquire policy q.profiling_session_id q.device_ids state runner.leases) runner

  abbrev reserved : PrepareRequest → Reply F × Runner F R → Reply F × Runner F R
  reserved q (reply, runner) = suspend_at (executing q) reply runner

  -- `_prepare_profiling_session_locked` from `inspect` to the executor.
  unfoldable pub inspected :
      LeasePolicy → PrepareRequest → Result WorkerState → Runner F R → Reply F × Runner F R
  unfolding reserve suspend_at
  inspected policy q (err x) runner = (err x, record runner { preparing = idle })
  inspected policy q (ok state) runner = reserved q (reserve policy q state runner)

  abbrev release : String → Runner F R → Runner F R
  release session runner =
      let (released, m) = release_session session runner.leases in record runner { leases = m }

  abbrev created :
      Result (Unit {0}) × Ledger (Prepared F) R → Runner F R → Result (Unit {0}) × Runner F R
  created (result, l) runner = (result, record runner { ledger = l })

  unfoldable pub register_session :
      PrepareRequest
      → Option F
      → Bool
      → Option ModelCleanup
      → Runner F R
      → Result (Unit {0}) × Runner F R
  unfolding create_session
  register_session q facts has_handle cleanup runner =
      created
        (create_session q.profiling_session_id
          (record { kind = q.kind; session_facts = facts; network_facts = q.network_facts })
          has_handle cleanup runner.ledger)
        runner

  unfoldable pub set_facts :
      String
      → F
      → Option (ProfilingSessionRecord (Prepared F) R)
      → Ledger (Prepared F) R
      → Ledger (Prepared F) R
  set_facts session facts none l = l
  set_facts session facts (some r) l = record l {
    sessions =
        put session (record r { request = record r.request { session_facts = some facts } })
          l.sessions;
  }

  -- `record.session_facts = dataclasses.replace(...)` of a model session.
  unfoldable pub stamp :
      PrepareRequest → Option F → Result F → Runner F R → Result (PrepareResponse F) × Runner F R
  unfolding set_facts
  stamp q none stamped runner = (err runtime_error, runner)
  stamp q (some facts) (err x) runner = (err x, runner)
  stamp q (some facts) (ok stamped) runner = (
    ok (prepared (some stamped)),
    record runner {
      ledger =
          set_facts q.profiling_session_id stamped
            (get q.profiling_session_id runner.ledger.sessions) runner.ledger;
    },
  )

  unfoldable pub published :
      ProfilingSessionKind
      → PrepareRequest
      → Option F
      → Result F
      → Result (Unit {0}) × Runner F R
      → Result (PrepareResponse F) × Runner F R
  unfolding stamp
  published kind q facts stamped (err x, runner) = (err x, runner)
  published model q facts stamped (ok u, runner) = stamp q facts stamped runner
  published _ q facts stamped (ok u, runner) = (ok (prepared facts), runner)

  -- What follows the executor; a network session has none.
  unfoldable pub concluded :
      PrepareRequest → Preparation F → Runner F R → Result (PrepareResponse F) × Runner F R
  unfolding published register_session
  concluded q rpc_cancelled runner = (err cancelled_error, release q.profiling_session_id runner)
  concluded q (preparation_raised failure) runner =
      (ok (prepare_failed failure), release q.profiling_session_id runner)
  concluded q (handle facts cleanup stamped) runner =
      published q.kind q facts stamped (register_session q facts true (some cleanup) runner)

  unfoldable pub conclude :
      PrepareRequest → Preparation F → Runner F R → Result (PrepareResponse F) × Runner F R
  unfolding published register_session concluded
  conclude q preparation runner =
      if is_network q.kind
      then published q.kind q none (err runtime_error) (register_session q none false none runner)
      else concluded q preparation runner

  -- The coroutine leaves the lock.
  abbrev pub finished :
      Result (PrepareResponse F) × Runner F R → Result (PrepareResponse F) × Runner F R
  finished (result, runner) = (result, record runner { preparing = idle })

  unfoldable pub finish_prepare :
      PrepareRequest → Preparation F → Runner F R → Result (PrepareResponse F) × Runner F R
  unfolding conclude
  finish_prepare q preparation runner = finished (conclude q preparation runner)

  -- The coroutine waits for its thread.
  abbrev close_under :
      Result RegistrationTokens → String → Runner F R → Result (Unit {0}) × Runner F R
  close_under (err x) session runner = (err x, runner)
  close_under (ok tokens) session runner =
      (ok tt, record runner { closers = closing session none ∷ runner.closers })

  -- `close_profiling_session` up to its await; a refusal is an error with its reason.
  unfoldable pub close_profiling_session :
      Option RegistrationTokens → Tokens → String → Runner F R → Result (Unit {0}) × Runner F R
  unfolding validate
  close_profiling_session current tokens session runner =
      close_under (validate current tokens) session runner

  -- `shutdown` up to its first await.
  unfoldable pub shutdown : Runner F R → Runner F R
  unfolding session_ids
  shutdown runner = record runner {
    closers = next_closer (session_ids runner.ledger) none ∷ runner.closers;
  }

  abbrev pub returned :
      (Option (Result Bool) → Closer)
      → Result Bool × Ledger (Prepared F) R
      → Runner F R
      → Runner F R
  returned closer (result, l) runner = record runner {
    ledger = l;
    closers = closer (some result) ∷ runner.closers;
  }

  abbrev pub resumed_with : Closer → Runner F R → Runner F R
  resumed_with closer runner = record runner { closers = closer ∷ runner.closers }

  -- `close_session` in the thread of a coroutine, once; the coroutine is not among the closers.
  unfoldable pub close_in_thread : Closer → Runner F R → Runner F R
  unfolding close_session
  close_in_thread (closing session none) runner =
      returned (closing session) (close_session session runner.ledger) runner
  close_in_thread (shutting session ids error none) runner =
      returned (shutting session ids error) (close_session session runner.ledger) runner
  close_in_thread closer runner = resumed_with closer runner

  -- A coroutine goes on when its thread has returned: a close RPC answers after its release, and a
  -- shutdown goes to its next session, or ends. The coroutine is not among the closers.
  unfoldable pub resume_closer : Closer → Runner F R → Option (Result (Unit {0})) × Runner F R
  resume_closer (closing session (some result)) runner =
      (some (result >>= (λ b. ok tt)), release session runner)
  resume_closer (shutting session ids error (some result)) runner =
      (none, resumed_with (next_closer ids (first_error error result)) (release session runner))
  resume_closer (stopping error) runner = (some (raised_or error), record runner { leases = [] })
  resume_closer closer runner = (none, resumed_with closer runner)
