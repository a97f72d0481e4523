-- ===== src/Worker/Runner/Authority.antt =====
-- What the runner has checked when it executes a case.
use mathlib.Core.Path.{subst}
use edge_shard_v.Shared.{
  ==_refl, String, ◌≡◌, refl, sym, ap, ◌∙◌, true, false, ◌==◌, Option, none, some, [], ◌∷◌, ok, err,
  arith, eq_iff, contains, Option-cases, Bool-cases, Result-cases, inl, inr, ◌⊎◌, All,
  session_refused, Exception, ◌≢◌,
}
use edge_shard_v.Shared.Dict.{get, put, get-put, Distinct}
use edge_shard_v.Worker.Ledger.Records.{
  CaseState, is_terminal, CaseLedgerEntry, RegistrationTokens, ProfilingSessionRecord,
}
use edge_shard_v.Worker.Ledger.{require_open_session, mark_running}
use edge_shard_v.Worker.Leases.{Leases, held_by}
use edge_shard_v.Worker.Leases.Release.{contains-held_by}
use edge_shard_v.Worker.Runner.{validate}
use edge_shard_v.Worker.Runner.Requests.{
  is_network, network, operator, model, ProfilingSessionKind, transformer_layer, module_level,
  operator_level, kind_mismatch, CaseSpec, model_case, network_case, ProfilingCase, Tokens,
  Prepared, RunRequest, Runner,
}
use edge_shard_v.Worker.Runner.Cases.{
  authorized, holds_all, marked, dispatch, start_case, start_run,
}

-- Every device of the case is leased to the session.
abbrev pub Leased : String → Leases → CaseSpec → Type 0
Leased session m (network_case destination) = Unit
Leased session m (model_case granularity ds) = All (λ d. get d m ≡ some session) ds

held_by_sound :
    (session : String) (m : Leases) (d : String)
    → Distinct m
    → contains (held_by session m) d ≡ true
    → get d m ≡ some session
held_by_sound session m d u h = elim (Option-cases (get d m)) [
  | inl e ↦ absurd (ground (arith, h, e, contains-held_by session m d u))
  | inr (i, e) ↦ ground (arith, h, e, contains-held_by session m d u, eq_iff i session)
]

holds_all-Leased :
    (session : String) (m : Leases) (c : CaseSpec)
    → Distinct m
    → holds_all (held_by session m) c ≡ true
    → Leased session m c
unfolding holds_all
holds_all-Leased session m (network_case destination) u h = tt
holds_all-Leased session m (model_case granularity []) u h = tt
holds_all-Leased session m (model_case granularity (d ∷ ds)) u h = (
  held_by_sound session m d u (ground (arith, h)),
  holds_all-Leased session m (model_case granularity ds) u (ground (arith, h)),
)

-- Network cases belong to network sessions, operators to operator sessions, and modules and layers
-- to model sessions.
abbrev pub Fits : ProfilingSessionKind → CaseSpec → Type 0
Fits network (network_case destination) = Unit
Fits operator (model_case operator_level ds) = Unit
Fits model (model_case module_level ds) = Unit
Fits model (model_case transformer_layer ds) = Unit
Fits _ _ = ⊥

-- The registration's three tokens are the request's.
abbrev pub Registered : Option RegistrationTokens → Tokens → Type 0
Registered none tokens = ⊥
Registered (some current) tokens =
    (current.worker_id ≡ tokens.worker_id)
    × (current.instance_id ≡ tokens.instance_id)
    × (current.registration_session_id ≡ tokens.registration_session_id)

validated :
    (current : Option RegistrationTokens) (tokens : Tokens) (t : RegistrationTokens)
    → validate current tokens ≡ ok t
    → Registered current tokens
unfolding validate
validated none tokens t e = absurd (ground (arith, e))
validated (some c) tokens t e = (
  ground (arith, e, eq_iff tokens.worker_id c.worker_id),
  ground (arith, e, eq_iff tokens.instance_id c.instance_id),
  ground (arith, e, eq_iff tokens.registration_session_id c.registration_session_id),
)

fitting : (k : ProfilingSessionKind) (c : CaseSpec) → kind_mismatch k c ≡ false → Fits k c
unfolding kind_mismatch
fitting network (network_case d) e = tt
fitting operator (model_case operator_level ds) e = tt
fitting model (model_case module_level ds) e = tt
fitting model (model_case transformer_layer ds) e = tt
fitting _ _ e = absurd (ground (arith, e))

of_network : (k : ProfilingSessionKind) → is_network k ≡ true → k ≡ network
of_network network e = refl
of_network _ e = absurd (ground (arith, e))

abbrev started_entry : {R : Type 0} → CaseLedgerEntry R
started_entry = record { state = CaseState.running; outcome = none; decided_at = none }

module _ {F R : Type 0} where
  -- The session holds this entry for the case.
  abbrev pub Marked : String → String → Runner F R → Type 0
  Marked session case_id runner =
      (r : ProfilingSessionRecord (Prepared F) R) × (e : CaseLedgerEntry R) × (get session
          runner.ledger.sessions
        ≡ some r)
      × (get case_id r.cases ≡ some e)
      × (e.state ≡ CaseState.running)

  -- The request's tokens are the current registration's, the session is open and of the case's kind,
  -- the case is this Worker's and new in the session, its devices are leased to the session, and it is
  -- running in the ledger afterwards.
  pub record IsAuthorized (current : Option RegistrationTokens) (q : RunRequest)
      (runner : Runner F R) (next : Runner F R) : Type 0 where
    pub session : ProfilingSessionRecord (Prepared F) R
    pub registered : Registered current q.tokens
    pub found : get q.profiling_session_id runner.ledger.sessions ≡ some session
    pub still_open : session.closed ≡ false
    pub own_case : q.profiling_case.worker_id ≡ q.tokens.worker_id
    pub fits_kind : Fits session.request.kind q.profiling_case.spec
    pub unseen : get q.profiling_case.case_id session.cases ≡ none
    pub leased :
        (session.request.kind ≡ network)
        ⊎ Leased q.profiling_session_id runner.leases q.profiling_case.spec
    pub marked_running : Marked q.profiling_session_id q.profiling_case.case_id next

  -- An open session marks a case that it has not seen.
  marks :
      (session case_id : String) (r : ProfilingSessionRecord (Prepared F) R) (runner : Runner F R)
      → get session runner.ledger.sessions ≡ some r
      → r.closed ≡ false
      → get case_id r.cases ≡ none
      → Marked session case_id (marked (mark_running session case_id runner.ledger) runner).1
  unfolding marked mark_running require_open_session
  marks session case_id r runner found opened unseen =
      rw (found, opened, unseen)
        (
          record r { cases = put case_id started_entry r.cases },
          started_entry,
          grind (arith, get-put, ==_refl session),
          grind (arith, get-put, ==_refl case_id),
          refl,
        )

  dispatched :
      (entry : Option (CaseLedgerEntry R)) (r : ProfilingSessionRecord (Prepared F) R)
      (session : String) (c : ProfilingCase) (runner : Runner F R)
      → Distinct runner.leases
      → get session runner.ledger.sessions ≡ some r
      → r.closed ≡ false
      → get c.case_id r.cases ≡ entry
      → (dispatch entry r session c runner).0 ≡ ok none
      → (entry ≡ none)
        × ((r.request.kind ≡ network) ⊎ Leased session runner.leases c.spec)
        × Marked session c.case_id (dispatch entry r session c runner).1
  unfolding dispatch
  dispatched none r session c runner u found opened unseen e =
      let done = marks session c.case_id r runner found opened unseen in
      elim (Bool-cases (is_network r.request.kind)) [
        | inl n ↦ (refl, inl (of_network r.request.kind n), rw n done)
        | inr n ↦ elim (Bool-cases (holds_all (held_by session runner.leases) c.spec)) [
          | inl h ↦ (refl, inr (holds_all-Leased session runner.leases c.spec u h), rw (n, h) done)
          | inr h ↦ absurd (ground (arith, e, n, h))
        ]
      ]
  dispatched (some entry) r session c runner u found opened seen e =
      absurd (elim (Bool-cases (is_terminal entry.state)) [
        | inl t ↦ elim (Option-cases entry.outcome) [
          | inl o ↦ ground (arith, e, t, o)
          | inr (o, f) ↦ ground (arith, e, t, f)
        ]
        | inr t ↦ ground (arith, e, t)
      ])

  refused_start :
      (x : Exception) (q : RunRequest) (runner : Runner F R)
      → (start_case (err x) q runner).0 ≢ ok none
  unfolding start_case
  refused_start (session_refused reason) q runner e = ground (arith, e)
  refused_start x q runner e = ground (arith, e)

  authorized-open :
      (current : Option RegistrationTokens) (tokens : Tokens) (session : String)
      (runner : Runner F R) (r : ProfilingSessionRecord (Prepared F) R)
      → authorized current tokens session runner ≡ ok r
      → (get session runner.ledger.sessions ≡ some r)
        × (r.closed ≡ false)
        × ((t : RegistrationTokens) × (validate current tokens ≡ ok t))
  unfolding authorized require_open_session
  authorized-open current tokens session runner r e =
      elim (Result-cases (validate current tokens)) [
        | inr (x, v) ↦ absurd (ground (arith, e, v))
        | inl (t, v) ↦ elim (Option-cases (get session runner.ledger.sessions)) [
          | inl f ↦ absurd (ground (arith, e, v, f))
          | inr (found, f) ↦ (ground (arith, e, v, f), ground (arith, e, v, f), (t, v))
        ]
      ]

  started :
      (r : ProfilingSessionRecord (Prepared F) R) (q : RunRequest) (runner : Runner F R)
      → Distinct runner.leases
      → get q.profiling_session_id runner.ledger.sessions ≡ some r
      → r.closed ≡ false
      → (start_case (ok r) q runner).0 ≡ ok none
      → (q.profiling_case.worker_id ≡ q.tokens.worker_id)
        × Fits r.request.kind q.profiling_case.spec
        × (get q.profiling_case.case_id r.cases ≡ none)
        × ((r.request.kind ≡ network)
            ⊎ Leased q.profiling_session_id runner.leases q.profiling_case.spec)
        × Marked q.profiling_session_id q.profiling_case.case_id (start_case (ok r) q runner).1
  unfolding start_case
  started r q runner u found opened e =
      elim (Bool-cases (q.profiling_case.worker_id == q.tokens.worker_id)) [
        | inr w ↦ absurd (ground (arith, e, w))
        | inl w ↦ elim (Bool-cases (kind_mismatch r.request.kind q.profiling_case.spec)) [
          | inl k ↦ absurd (ground (arith, e, w, k))
          | inr k ↦
              let step : start_case (ok r) q runner
                  ≡ dispatch (get q.profiling_case.case_id r.cases) r q.profiling_session_id
                      q.profiling_case runner =
                rw (w, k) refl in
              let (unseen, leased, done) =
                dispatched (get q.profiling_case.case_id r.cases) r q.profiling_session_id
                  q.profiling_case runner u found opened refl (sym (ap (λ y. y.0) step) ∙ e) in
              (
                (eq_iff q.profiling_case.worker_id q.tokens.worker_id).0 w,
                fitting r.request.kind q.profiling_case.spec k,
                unseen,
                leased,
                subst (λ y. Marked q.profiling_session_id q.profiling_case.case_id y.1) (sym step)
                    done,
              )
        ]
      ]

  -- A case is executed only under the current registration, in an open session of its kind that has
  -- not seen it, on the Worker that it is assigned to, and with each of its devices leased to that
  -- session; a network case needs no device. The leases name no device twice. The case is running in
  -- the ledger afterwards.
  pub start_run-IsAuthorized :
      (current : Option RegistrationTokens) (q : RunRequest) (runner : Runner F R)
      → Distinct runner.leases
      → (start_run current q runner).0 ≡ ok none
      → IsAuthorized current q runner (start_run current q runner).1
  unfolding start_run
  start_run-IsAuthorized current q runner u e =
      elim (Result-cases (authorized current q.tokens q.profiling_session_id runner)) [
        | inr (x, a) ↦
            absurd (refused_start x q runner (sym (ap (λ y. (start_case y q runner).0) a) ∙ e))
        | inl (r, a) ↦
            let (found, still_open, (t, v)) =
              authorized-open current q.tokens q.profiling_session_id runner r a in
            let (own, kind, unseen, leased, done) =
              started r q runner u found still_open
                (sym (ap (λ y. (start_case y q runner).0) a) ∙ e) in
            record {
              session = r;
              registered = validated current q.tokens t v;
              found = found;
              still_open = still_open;
              own_case = own;
              fits_kind = kind;
              unseen = unseen;
              leased = leased;
              marked_running =
                  subst
                    (λ y.
                      Marked q.profiling_session_id q.profiling_case.case_id
                        (start_case y q runner).1)
                    (sym a) done;
            }
      ]
