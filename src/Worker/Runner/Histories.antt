-- ===== src/Worker/Runner/Histories.antt =====
-- The end of a preparation, and any history of a runner's RPCs.
use edge_shard_v.Shared.{
  String, ◌≡◌, refl, Bool, true, false, ==_refl, Option, none, some, List, [], ◌∷◌, Result, ok, err,
  arith, eq_iff, Bool-cases, inl, inr, ◌⊎◌,
}
use edge_shard_v.Shared.Dict.{get, get-put}
use edge_shard_v.Cluster.State.{WorkerState}
use edge_shard_v.Worker.Ledger.Records.{
  RegistrationTokens, ProfilingSessionRecord, Ledger, ModelCleanup,
}
use edge_shard_v.Worker.Ledger.Status.{status, status-create_session}
use edge_shard_v.Worker.Leases.{LeasePolicy, release_session}
use edge_shard_v.Worker.Runner.Requests.{
  is_network, PrepareRequest, Prepared, Preparation, rpc_cancelled, preparation_raised, handle,
  ProfilingSessionKind, model, operator, network, Suspended, idle, inspecting, executing, Runner,
}
use edge_shard_v.Worker.Runner.{
  finished, stamp, published, concluded, set_facts, begin_prepare, finish_prepare, conclude,
  register_session, close_in_thread, resume_closer,
}
use edge_shard_v.Worker.Runner.Events.{
  new_runner, prepare_at, inspect_at, execute_at, Event, prepares, inspects, executes, starts,
  finishes, cancels, closes, shuts_down, thread_closes, closer_resumes, apply, run,
}
use edge_shard_v.Worker.Runner.Reservations.{
  holding, is_closing, Inv, kept, get-release_session, finish_run-Inv, start_run-Inv,
  cancel_profiling_case-Inv,
}
use edge_shard_v.Worker.Runner.Closers.{
  close_profiling_session-Inv, shutdown-Inv, close_in_thread-Inv, resume_closer-Inv,
  with_closer-Inv,
}
use edge_shard_v.Worker.Runner.Backing.{begin_with-Inv, inspected-Inv}

module _ {F R : Type 0} where
  released-Inv :
      (q : PrepareRequest) (runner : Runner F R)
      → runner.preparing ≡ executing q
      → Inv runner
      → Inv (record runner {
        leases = (release_session q.profiling_session_id runner.leases).1;
        preparing = idle;
      })
  released-Inv q runner at v = record {
    backed = λ d i e.
        let (held, other) = get-release_session q.profiling_session_id i d runner.leases e in
        elim (v.backed d i held) [
          | inl o ↦ inl o
          | inr p ↦ absurd (ground (arith, at, p, other, ==_refl i))
        ];
    fresh = λ i e. ground (arith, e);
  }

  -- The session is open from now on.
  registered-Inv :
      (q : PrepareRequest) (facts : Option F) (has_handle : Bool) (cleanup : Option ModelCleanup)
      (runner : Runner F R)
      → runner.preparing ≡ executing q
      → Inv runner
      → Inv (record (register_session q facts has_handle cleanup runner).1 { preparing = idle })
  unfolding register_session
  registered-Inv q facts has_handle cleanup runner at v = record {
    backed = λ d i e.
        let step =
          status-create_session q.profiling_session_id
            (record { kind = q.kind; session_facts = facts; network_facts = q.network_facts })
            has_handle cleanup runner.ledger i in
        let new : status q.profiling_session_id runner.ledger ≡ none =
          v.fresh q.profiling_session_id (rw at refl) in
        elim (v.backed d i e) [
          | inl (inl o) ↦ inl (inl (rw step (ground (arith, o))))
          | inl (inr (c, u)) ↦ inl (inr (rw step (ground (arith, c)), u))
          | inr p ↦ inl (inl (rw step (ground (arith, at, p, new, ==_refl i))))
        ];
    fresh = λ i e. ground (arith, e);
  }

  status-set_facts :
      (session : String) (facts : F) (found : Option (ProfilingSessionRecord (Prepared F) R))
      (l : Ledger (Prepared F) R) (i : String)
      → get session l.sessions ≡ found
      → status i (set_facts session facts found l) ≡ status i l
  unfolding set_facts
  status-set_facts session facts none l i e = refl
  status-set_facts session facts (some r) l i e = grind (arith, e, get-put, eq_iff session i)

  stamp-Inv :
      (q : PrepareRequest) (facts : Option F) (stamped : Result F) (runner : Runner F R)
      → Inv (record runner { preparing = idle })
      → Inv (finished (stamp q facts stamped runner)).1
  unfolding stamp
  stamp-Inv q none stamped runner v = v
  stamp-Inv q (some facts) (err x) runner v = v
  stamp-Inv q (some facts) (ok stamped) runner v =
      kept (record runner { preparing = idle }) _
        (λ i. status-set_facts q.profiling_session_id stamped _ runner.ledger i refl) v

  published-Inv :
      (kind : ProfilingSessionKind) (q : PrepareRequest) (facts : Option F) (stamped : Result F)
      (o : Result (Unit {0}) × Runner F R)
      → Inv (record o.1 { preparing = idle })
      → Inv (finished (published kind q facts stamped o)).1
  unfolding published
  published-Inv kind q facts stamped (err x, runner) v = v
  published-Inv model q facts stamped (ok u, runner) v = stamp-Inv q facts stamped runner v
  published-Inv operator q facts stamped (ok u, runner) v = v
  published-Inv network q facts stamped (ok u, runner) v = v

  concluded-Inv :
      (q : PrepareRequest) (preparation : Preparation F) (runner : Runner F R)
      → runner.preparing ≡ executing q
      → Inv runner
      → Inv (finished (concluded q preparation runner)).1
  unfolding concluded
  concluded-Inv q rpc_cancelled runner at v = released-Inv q runner at v
  concluded-Inv q (preparation_raised failure) runner at v = released-Inv q runner at v
  concluded-Inv q (handle facts cleanup stamped) runner at v =
      published-Inv q.kind q facts stamped _
        (registered-Inv q facts true (some cleanup) runner at v)

  finish_prepare-Inv :
      (q : PrepareRequest) (preparation : Preparation F) (runner : Runner F R)
      → runner.preparing ≡ executing q
      → Inv runner
      → Inv (finish_prepare q preparation runner).1
  unfolding finish_prepare conclude
  finish_prepare-Inv q preparation runner at v = elim (Bool-cases (is_network q.kind)) [
    | inl n ↦ rw n (published-Inv q.kind q none _ _ (registered-Inv q none false none runner at v))
    | inr d ↦ rw d (concluded-Inv q preparation runner at v)
  ]

  module _ (policy : LeasePolicy) where
    prepare_at-Inv :
        (at : Suspended) (current : Option RegistrationTokens) (q : PrepareRequest)
        (runner : Runner F R)
        → runner.preparing ≡ at
        → Inv runner
        → Inv (prepare_at policy at current q runner)
    unfolding begin_prepare
    prepare_at-Inv idle current q runner e v = begin_with-Inv _ q runner (rw e refl) v
    prepare_at-Inv (inspecting _) current q runner e v = v
    prepare_at-Inv (executing _) current q runner e v = v

    inspect_at-Inv :
        (at : Suspended) (state : Result WorkerState) (runner : Runner F R)
        → runner.preparing ≡ at
        → Inv runner
        → Inv (inspect_at policy at state runner)
    inspect_at-Inv idle state runner e v = v
    inspect_at-Inv (inspecting q) state runner e v = inspected-Inv policy q state runner e v
    inspect_at-Inv (executing _) state runner e v = v

    execute_at-Inv :
        (at : Suspended) (preparation : Preparation F) (runner : Runner F R)
        → runner.preparing ≡ at
        → Inv runner
        → Inv (execute_at policy at preparation runner)
    execute_at-Inv idle preparation runner e v = v
    execute_at-Inv (inspecting _) preparation runner e v = v
    execute_at-Inv (executing q) preparation runner e v =
        finish_prepare-Inv q preparation runner e v

    apply-Inv : (runner : Runner F R) (x : Event F R) → Inv runner → Inv (apply policy runner x)
    unfolding apply
    apply-Inv runner (prepares current q) v =
        prepare_at-Inv runner.preparing current q runner refl v
    apply-Inv runner (inspects state) v = inspect_at-Inv runner.preparing state runner refl v
    apply-Inv runner (executes preparation) v =
        execute_at-Inv runner.preparing preparation runner refl v
    apply-Inv runner (starts current q) v = start_run-Inv current q runner v
    apply-Inv runner (finishes q execution now) v = finish_run-Inv q execution now runner v
    apply-Inv runner (cancels current tokens session case_id now) v =
        cancel_profiling_case-Inv current tokens session case_id now runner v
    apply-Inv runner (closes current tokens session) v =
        close_profiling_session-Inv current tokens session runner v
    apply-Inv runner shuts_down v = shutdown-Inv runner v
    apply-Inv runner (thread_closes n) v =
        with_closer-Inv n close_in_thread runner close_in_thread-Inv v
    apply-Inv runner (closer_resumes n) v =
        with_closer-Inv n (λ c r. (resume_closer c r).1) runner resume_closer-Inv v

    run-Inv :
        (runner : Runner F R) (xs : List (Event F R)) → Inv runner → Inv (run policy runner xs)
    unfolding run
    run-Inv runner [] v = v
    run-Inv runner (x ∷ xs) v = run-Inv (apply policy runner x) xs (apply-Inv runner x v)

    -- After any events on a new runner, its RPCs cut at their awaits and interleaved, every reserved
    -- device belongs to an open session, to a closed one of which a close has still to release its
    -- devices, or to the session that is being prepared at the moment. So where no coroutine waits for
    -- its thread, no failed, cancelled or closed session keeps a device.
    pub no_stranded_device :
        (xs : List (Event F R)) (d i : String)
        → let runner = run policy new_runner xs in
          get d runner.leases ≡ some i
          → ((status i runner.ledger ≡ some false)
              ⊎ ((status i runner.ledger ≡ some true) × (is_closing i runner.closers ≡ true)))
            ⊎ (holding runner.preparing ≡ some i)
    unfolding get
    no_stranded_device xs =
        (run-Inv new_runner xs
          (record { backed = λ d i e. ground (arith, e); fresh = λ i e. ground (arith, e) })).backed
