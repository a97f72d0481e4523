-- ===== src/Master/Liveness/Ticks.antt =====
-- What the periodic tick of the liveness manager logs.
use edge_shard_v.Shared.{
  ◌-◌, ◌∙◌, All, All-of-contains, ℕ, String, ◌≡◌, refl, ap, sym, true, Option, none, some, List, [],
  ◌∷◌, arith, eq_iff, contains, has_duplicate, if◌then◌else◌, Bool-cases, inl, inr, ==_refl,
}
use edge_shard_v.Shared.Dict.{Dict, get, put, get-put, keys, Distinct, contains-keys, opt_is_some}
use edge_shard_v.Shared.Sorting.{sorted, contains-sorted, has_duplicate-sorted}
use edge_shard_v.Cluster.State.{WorkerStatus, online, suspect, offline}
use edge_shard_v.Master.Config.{MasterConfig}
use edge_shard_v.Master.StateStore.{States, StoredState, select_entries}
use edge_shard_v.Master.Liveness.{
  same_status, is_logged, classify, classify_all, log_transitions, statuses_at, evaluate,
}

same_status_refl : (s : WorkerStatus) → same_status s s ≡ true
same_status_refl online = refl
same_status_refl suspect = refl
same_status_refl offline = refl

same_status_sound : (s t : WorkerStatus) → same_status s t ≡ true → s ≡ t
same_status_sound s t h = ground arith

is_logged_sound : (o : Option WorkerStatus) (s : WorkerStatus) → is_logged o s ≡ true → o ≡ some s
is_logged_sound none s h = cc
is_logged_sound (some p) s h = ap some (same_status_sound p s h)

abbrev pub or_else : Option WorkerStatus → Option WorkerStatus → Option WorkerStatus
or_else none old = old
or_else (some s) old = some s

-- After the loop the log holds the new status of each Worker in the list, and the old one elsewhere.
get-log_transitions :
    (sts : Dict WorkerStatus) (logged : Dict WorkerStatus) (j : String)
    → Distinct sts
    → get j (log_transitions sts logged).0 ≡ or_else (get j sts) (get j logged)
unfolding log_transitions get keys
get-log_transitions [] logged j d = refl
get-log_transitions ((i, s) ∷ sts) logged j d = elim (Bool-cases (is_logged (get i logged) s)) [
  | inl seen ↦ rw seen (
      ground (
        arith,
        eq_iff i j,
        contains-keys i sts,
        is_logged_sound (get i logged) s seen,
        get-log_transitions sts logged j,
      ))
  | inr new ↦ rw new (
      ground (
        arith,
        eq_iff i j,
        contains-keys i sts,
        get-put i j s logged,
        get-log_transitions sts (put i s logged) j,
      ))
]

-- Where the log already holds every status of the list, the loop changes and logs nothing.
log_transitions_settled :
    (sts logged : Dict WorkerStatus)
    → Distinct sts
    → ((j : String) (s : WorkerStatus) → get j sts ≡ some s → get j logged ≡ some s)
    → log_transitions sts logged ≡ (logged, [])
unfolding log_transitions get keys
log_transitions_settled [] logged d k = refl
log_transitions_settled ((i, s) ∷ sts) logged d k =
    let here : get i logged ≡ some s = k i s (ground (arith, ==_refl i)) in
    let seen : is_logged (get i logged) s ≡ true = rw here (same_status_refl s) in
    rw seen (
      rw
        (log_transitions_settled sts logged (ground arith)
          (λ j t e. k j t (ground (arith, eq_iff i j, contains-keys i sts))))
        refl)

abbrev pub changed : Option WorkerStatus → Option WorkerStatus → Option WorkerStatus
changed none old = none
changed (some s) old = if is_logged old s then none else some s

-- A line is logged for each Worker of the list whose status is not the logged one.
get-log_lines :
    (sts logged : Dict WorkerStatus) (j : String)
    → Distinct sts
    → get j (log_transitions sts logged).1 ≡ changed (get j sts) (get j logged)
unfolding log_transitions get keys
get-log_lines [] logged j d = refl
get-log_lines ((i, s) ∷ sts) logged j d = elim (Bool-cases (is_logged (get i logged) s)) [
  | inl seen ↦ rw seen (ground (arith, eq_iff i j, contains-keys i sts, get-log_lines sts logged j))
  | inr new ↦ rw new (
      ground (
        arith,
        eq_iff i j,
        contains-keys i sts,
        get-put i j s logged,
        get-log_lines sts (put i s logged) j,
      ))
]

module _ (c : MasterConfig) (now : ℕ) (states : States) where
  abbrev pub status_of : Option StoredState → Option WorkerStatus
  status_of none = none
  status_of (some e) = some (classify c (now - e.received_monotonic))

  abbrev on : List String → Dict WorkerStatus
  on ids = classify_all c now (select_entries ids states)

  keys_on :
      (ids : List String) → All (λ i. opt_is_some (get i states) ≡ true) ids → keys (on ids) ≡ ids
  unfolding keys
  keys_on [] a = refl
  keys_on (i ∷ ids) a = ground (arith, keys_on ids a.1)

  get_on :
      (ids : List String) (j : String)
      → get j (on ids) ≡ (if contains ids j then status_of (get j states) else none)
  unfolding get
  get_on [] j = refl
  get_on (i ∷ ids) j = ground (arith, get_on ids j, eq_iff i j)

  found :
      (i : String) → contains (sorted (keys states)) i ≡ true → opt_is_some (get i states) ≡ true
  found i e = sym (contains-keys i states) ∙ sym (contains-sorted i (keys states)) ∙ e

  statuses_at-Distinct : Distinct states → Distinct (statuses_at c now states)
  unfolding statuses_at
  statuses_at-Distinct d =
      ap has_duplicate
        (keys_on (sorted (keys states)) (All-of-contains _ (sorted (keys states)) found))
      ∙ has_duplicate-sorted (keys states)
      ∙ d

  get-statuses_at : (j : String) → get j (statuses_at c now states) ≡ status_of (get j states)
  unfolding statuses_at
  get-statuses_at j = ground (
    arith,
    get_on (sorted (keys states)) j,
    contains-sorted j (keys states),
    contains-keys j states,
  )

  -- After one tick the log holds the current status of every Worker with a stored state, and what it
  -- held before of any other. The tick writes a line for exactly the Workers whose status is not the
  -- one logged before, with the new status; and a second tick at the same instant writes no line and
  -- changes nothing.
  pub evaluate_settles :
      (logged : Dict WorkerStatus) (j : String)
      → Distinct states
      → let (logged', lines) = evaluate c now states logged in
        (get j logged' ≡ or_else (status_of (get j states)) (get j logged))
        × (get j lines ≡ changed (status_of (get j states)) (get j logged))
        × (evaluate c now states logged' ≡ (logged', []))
  unfolding evaluate
  evaluate_settles logged j d =
      let sts = statuses_at c now states in
      let once = statuses_at-Distinct d in
      (
        ground (arith, get-log_transitions sts logged j once, get-statuses_at j),
        ground (arith, get-log_lines sts logged j once, get-statuses_at j),
        log_transitions_settled sts (log_transitions sts logged).0 once
            (λ i s e. ground (arith, get-log_transitions sts logged i once)),
      )
