-- ===== src/Worker/Runner/Backing.antt =====
-- A preparation takes devices only for a session that it opens, and frees them where it opens none.
use edge_shard_v.Shared.{
  String, ◌≡◌, refl, sym, ◌∙◌, Option, none, some, List, Result, ok, err, Exception,
  session_refused, device_busy_error, arith, contains, Bool-cases, inl, inr, ◌≢◌,
}
use edge_shard_v.Shared.Dict.{get}
use edge_shard_v.Cluster.State.{WorkerState}
use edge_shard_v.Worker.Ledger.Records.{RegistrationTokens, ProfilingSessionRecord}
use edge_shard_v.Worker.Ledger.Status.{status}
use edge_shard_v.Worker.Leases.{Leases, LeasePolicy, DeviceLease, acquire}
use edge_shard_v.Worker.Leases.Acquire.{acquire_grants, acquire_frame, acquire_refusal_restores}
use edge_shard_v.Worker.Runner.Requests.{
  is_network, same_kind, PrepareRequest, Prepared, Suspended, idle, inspecting, executing, Runner,
}
use edge_shard_v.Worker.Runner.{suspend_at, replayed, begin_with, acquired, inspected, reserve}
use edge_shard_v.Worker.Runner.Reservations.{pending, holding, Inv}

module _ {F R : Type 0} where
  -- The coroutine answers without having touched anything.
  left :
      (runner : Runner F R) (next : Suspended)
      → (holding runner.preparing ≡ none)
      → ((i : String) → pending next ≡ some i → status i runner.ledger ≡ none)
      → Inv runner
      → Inv (record runner { preparing = next })
  left runner next free fresh v = record {
    backed =
        λ d i e. elim (v.backed d i e) [ inl o ↦ inl o | inr p ↦ absurd (ground (arith, free, p)) ];
    fresh = fresh;
  }

  replayed-Inv :
      (q : PrepareRequest) (found : Option (ProfilingSessionRecord (Prepared F) R))
      (runner : Runner F R)
      → get q.profiling_session_id runner.ledger.sessions ≡ found
      → holding runner.preparing ≡ none
      → Inv runner
      → Inv (suspend_at (inspecting q) (replayed q found) runner).1
  unfolding suspend_at replayed
  replayed-Inv q none runner absent free v =
      left runner (inspecting q) free (λ i e. ground (arith, absent, e)) v
  replayed-Inv q (some r) runner there free v =
      let answered = left runner idle free (λ i e. ground (arith, e)) v in
      elim (Bool-cases r.closed) [
        | inl c ↦ rw c answered
        | inr o ↦ elim (Bool-cases (same_kind r.request.kind q.kind)) [
          | inl k ↦ rw (o, k) answered
          | inr k ↦ rw (o, k) answered
        ]
      ]

  pub begin_with-Inv :
      (t : Result RegistrationTokens) (q : PrepareRequest) (runner : Runner F R)
      → holding runner.preparing ≡ none
      → Inv runner
      → Inv (suspend_at (inspecting q) (begin_with t q runner) runner).1
  unfolding suspend_at begin_with
  begin_with-Inv (ok tokens) q runner free v = replayed-Inv q _ runner refl free v
  begin_with-Inv (err (session_refused reason)) q runner free v =
      left runner idle free (λ i e. ground (arith, e)) v
  begin_with-Inv (err x) q runner free v = left runner idle free (λ i e. ground (arith, e)) v

  -- The session of a preparation holds nothing yet.
  holds_nothing :
      (q : PrepareRequest) (runner : Runner F R) (d : String)
      → runner.preparing ≡ inspecting q
      → Inv runner
      → get d runner.leases ≢ some q.profiling_session_id
  holds_nothing q runner d at v e =
      let new : status q.profiling_session_id runner.ledger ≡ none =
        v.fresh q.profiling_session_id (rw at refl) in
      elim (v.backed d q.profiling_session_id e) [
        | inl (inl o) ↦ absurd (ground (arith, new, o))
        | inl (inr (c, u)) ↦ absurd (ground (arith, new, c))
        | inr p ↦ absurd (ground (arith, at, p))
      ]

  granted-Inv :
      (policy : LeasePolicy) (q : PrepareRequest) (state : WorkerState) (runner : Runner F R)
      (ls : List DeviceLease) (m : Leases)
      → runner.preparing ≡ inspecting q
      → acquire policy q.profiling_session_id q.device_ids state runner.leases ≡ (ok ls, m)
      → Inv runner
      → Inv (record runner { leases = m; preparing = executing q })
  granted-Inv policy q state runner ls m at e v = record {
    backed = λ d i held. elim (Bool-cases (contains q.device_ids d)) [
      | inl c ↦
          let own =
            (acquire_grants policy q.profiling_session_id state runner.leases m q.device_ids ls e d
              c).0 in
          inr (sym own ∙ held)
      | inr c ↦
          let frame =
            acquire_frame policy q.profiling_session_id state runner.leases m q.device_ids ls e d
              c in
          elim (v.backed d i (sym frame ∙ held)) [
            | inl o ↦ inl o
            | inr p ↦ absurd (ground (arith, at, p))
          ]
    ];
    fresh = λ i p. v.fresh i (rw at p);
  }

  refused-Inv :
      (q : PrepareRequest) (runner : Runner F R) (x : Exception) (m : Leases)
      → runner.preparing ≡ inspecting q
      → m ≡ runner.leases
      → Inv runner
      → Inv
          (suspend_at (executing q) (acquired (err x, m) runner).0 (acquired (err x, m) runner).1).1
  unfolding acquired suspend_at
  refused-Inv q runner (device_busy_error d) m at same v =
      rw same (left runner idle (rw at refl) (λ i e. ground (arith, e)) v)
  refused-Inv q runner x m at same v =
      rw same (left runner idle (rw at refl) (λ i e. ground (arith, e)) v)

  acquired-Inv :
      (policy : LeasePolicy) (q : PrepareRequest) (state : WorkerState) (runner : Runner F R)
      (o : Result (List DeviceLease) × Leases)
      → runner.preparing ≡ inspecting q
      → acquire policy q.profiling_session_id q.device_ids state runner.leases ≡ o
      → Inv runner
      → Inv (suspend_at (executing q) (acquired o runner).0 (acquired o runner).1).1
  unfolding acquired suspend_at
  acquired-Inv policy q state runner (ok ls, m) at e v =
      granted-Inv policy q state runner ls m at e v
  acquired-Inv policy q state runner (err x, m) at e v =
      refused-Inv q runner x m at
        (acquire_refusal_restores policy q.profiling_session_id state runner.leases m q.device_ids x
          (λ d c. holds_nothing q runner d at v) e)
        v

  -- A network session takes no device.
  network-Inv :
      (q : PrepareRequest) (runner : Runner F R)
      → runner.preparing ≡ inspecting q
      → Inv runner
      → Inv (record runner { preparing = executing q })
  network-Inv q runner at v = left runner (executing q) (rw at refl) (λ i p. v.fresh i (rw at p)) v

  pub inspected-Inv :
      (policy : LeasePolicy) (q : PrepareRequest) (state : Result WorkerState) (runner : Runner F R)
      → runner.preparing ≡ inspecting q
      → Inv runner
      → Inv (inspected policy q state runner).1
  unfolding inspected reserve
  inspected-Inv policy q (err x) runner at v =
      left runner idle (rw at refl) (λ i e. ground (arith, e)) v
  inspected-Inv policy q (ok state) runner at v = elim (Bool-cases (is_network q.kind)) [
    | inr d ↦ rw d (acquired-Inv policy q state runner _ at refl v)
    | inl n ↦ elim (Bool-cases (contains q.network_facts q.tokens.worker_id)) [
      | inl c ↦ rw (n, c) (network-Inv q runner at v)
      | inr c ↦ rw (n, c) (left runner idle (rw at refl) (λ i e. ground (arith, e)) v)
    ]
  ]
