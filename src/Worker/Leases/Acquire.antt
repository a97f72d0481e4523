-- ===== src/Worker/Leases/Acquire.antt =====
-- What `acquire` grants, and what it leaves when it refuses.
use edge_shard_v.Shared.{
  String, ◌≡◌, ◌≢◌, refl, sym, ◌∙◌, ap, true, false, ◌==◌, ==_refl, Option, none, some, List, [],
  ◌∷◌, ◌++◌, Exception, Result, ok, err, arith, eq_iff, is_empty, contains, has_duplicate,
  if◌then◌else◌, Bool-cases, Option-cases, Checked-cases, Result-cases, ==_of_ne, inl, inr,
}
use edge_shard_v.Shared.Dict.{
  Dict, get, put, remove, get-put, get-remove, remove-put_self, remove_absent,
}
use edge_shard_v.Cluster.State.{DeviceState, WorkerState}
use edge_shard_v.Worker.Leases.{
  DeviceLease, LeasePolicy, Leases, dedupe, check_device, roll_back, acquire_loop, acquire,
  held_by_other, is_available, is_serving, exceeds, acquire_requested, index_devices,
}
use edge_shard_v.Worker.Leases.Dedupe.{contains-dedupe, dedupe-distinct}
use edge_shard_v.Worker.Leases.Rollback.{
  roll_back_snoc, roll_back-put, get-roll_back, contains_snoc,
}

-- A device that the Worker reports as available, that serves no runtime and whose utilization, if it
-- is known, is within the floor.
abbrev pub IsIdle : LeasePolicy → Dict DeviceState → String → Type 0
IsIdle p states d =
    (dev : DeviceState) × (get d states ≡ some dev)
    × (is_available dev.availability ≡ true)
    × (is_serving dev.running_runtime_ids ≡ false)
    × (exceeds dev.utilization p.utilization_floor ≡ false)

module _ (p : LeasePolicy) (session : String) (states : Dict DeviceState) (s : WorkerState) where
  check_device_sound :
      (d : String) (m : Leases)
      → check_device p session d states s m ≡ ok tt
      → (held_by_other session (get d m) ≡ false) × IsIdle p states d
  unfolding check_device
  check_device_sound d m e = elim (Option-cases (get d states)) [
    | inl gone ↦ absurd (ground arith)
    | inr (dev, g) ↦ (ground arith, (dev, g, ground arith, ground arith, ground arith))
  ]

  not_held :
      (d : String) (m : Leases) (o : Option String)
      → get d m ≡ o
      → held_by_other session (get d m) ≡ false
      → o ≢ some session
      → o ≡ none
  not_held d m none e h free = refl
  not_held d m (some holder) e h free =
      absurd (free (ap some ((eq_iff holder session).0 (ground arith))))

  loop_grants :
      (acquired ds : List String) (m m' : Leases) (r : List String)
      → acquire_loop p session states s acquired ds m ≡ (ok r, m')
      → (j : String)
      → (get j m' ≡ (if contains ds j then some session else get j m))
        × (contains ds j ≡ true → (held_by_other session (get j m) ≡ false) × IsIdle p states j)
  unfolding acquire_loop
  loop_grants acquired [] m m' r e j = (ground arith, λ c. cc)
  loop_grants acquired (d ∷ ds) m m' r e j =
      elim (Checked-cases (check_device p session d states s m)) [
        | inr (x, c) ↦ absurd (cc (rw (c, acquire_loop) at e))
        | inl c ↦
            let (now, then') =
              loop_grants (acquired ++ d ∷ []) ds (put d session m) m' r (ground arith) j in
            elim (Bool-cases (d == j)) [
              | inl same ↦ (
                ground (arith, get-put d j session m),
                λ _. ground (arith, eq_iff d j, check_device_sound d m c),
              )
              | inr other ↦ (
                ground (arith, get-put d j session m),
                λ h. ground (arith, get-put d j session m, then'),
              )
            ]
      ]

  -- Undoing the devices marked so far gives back the leases at the start, `start`.
  loop_restores :
      (start : Leases) (acquired ds : List String) (m m' : Leases) (x : Exception)
      → roll_back acquired m ≡ start
      → has_duplicate ds ≡ false
      → ((d : String)
          → contains ds d ≡ true
          → (contains acquired d ≡ false) × (get d start ≢ some session))
      → acquire_loop p session states s acquired ds m ≡ (err x, m')
      → m' ≡ start
  unfolding acquire_loop
  loop_restores start acquired [] m m' x b u f e = cc
  loop_restores start acquired (d ∷ ds) m m' x b u f e =
      elim (Checked-cases (check_device p session d states s m)) [
        | inr (y, c) ↦ ground arith
        | inl c ↦
            let (new, free) = f d (ground (arith, ==_refl d)) in
            let same : get d m ≡ get d start =
              rw (← b) (ground (arith, get-roll_back acquired m d, new)) in
            let absent : get d start ≡ none =
              not_held d m (get d start) same (check_device_sound d m c).0 free in
            loop_restores start (acquired ++ d ∷ []) ds (put d session m) m' x
              (roll_back_snoc acquired d (put d session m)
                ∙ ap (remove d) (roll_back-put session acquired d m new ∙ ap (put d session) b)
                ∙ remove-put_self d session start
                ∙ remove_absent d start absent)
              (ground arith) (λ j k. ground (arith, f j, contains_snoc acquired d j, eq_iff d j))
              (ground arith)
      ]

module _ (p : LeasePolicy) (session : String) (s : WorkerState) (m m' : Leases) where
  abbrev Granted : List String → String → Type 0
  Granted ids j =
      (get j m' ≡ (if contains ids j then some session else get j m))
      × (contains ids j ≡ true
          → (held_by_other session (get j m) ≡ false)
            × IsIdle p (index_devices s.device_states []) j)

  requested_grants :
      (ds : List String) (ls : List DeviceLease)
      → acquire_requested p session ds s m ≡ (ok ls, m')
      → (j : String) → Granted ds j
  requested_grants [] ls e j = absurd (ground arith)
  requested_grants (d ∷ ds) ls e j = elim (Result-cases looped.0) [
    | inr (x, q) ↦ absurd (ground arith)
    | inl (r, q) ↦
        loop_grants p session (index_devices s.device_states []) s [] (d ∷ ds) m m' r (ground arith)
          j
  ]
    where
      looped : Result (List String) × Leases
      looped = acquire_loop p session (index_devices s.device_states []) s [] (d ∷ ds) m

  granted :
      (ids : List String) (ls : List DeviceLease)
      → acquire p session ids s m ≡ (ok ls, m')
      → (j : String) → Granted ids j
  unfolding acquire
  granted ids ls e j = elim (Bool-cases (is_empty session)) [
    | inl none_id ↦ absurd (ground arith)
    | inr named_id ↦ rw (← contains-dedupe) (requested_grants (dedupe ids) ls (ground arith) j)
  ]

  -- A granted reservation, at a requested device: it was free or already the session's own, the
  -- Worker reports it as available, serving no runtime and within the utilization floor, and it now
  -- belongs to the session. So a device is never taken from another session.
  pub acquire_grants :
      (ids : List String) (ls : List DeviceLease)
      → acquire p session ids s m ≡ (ok ls, m')
      → (j : String) → contains ids j ≡ true
      → (get j m' ≡ some session)
        × (held_by_other session (get j m) ≡ false)
        × IsIdle p (index_devices s.device_states []) j
  acquire_grants ids ls e j c =
      let (now, before) = granted ids ls e j in
      let (free, idle) = before c in (now ∙ rw c refl, free, idle)

  -- A granted reservation changes the holder of no other device.
  pub acquire_frame :
      (ids : List String) (ls : List DeviceLease)
      → acquire p session ids s m ≡ (ok ls, m')
      → (j : String) → contains ids j ≡ false
      → get j m' ≡ get j m
  acquire_frame ids ls e j c = (granted ids ls e j).0 ∙ rw c refl

  requested_restores :
      (ds : List String) (x : Exception)
      → has_duplicate ds ≡ false
      → ((d : String) → contains ds d ≡ true → get d m ≢ some session)
      → acquire_requested p session ds s m ≡ (err x, m')
      → m' ≡ m
  requested_restores [] x u f e = cc
  requested_restores (d ∷ ds) x u f e = elim (Result-cases looped.0) [
    | inl (r, q) ↦ absurd (ground arith)
    | inr (y, q) ↦
        loop_restores p session (index_devices s.device_states []) s m [] (d ∷ ds) m m' y
          (unfold roll_back in refl) u (λ j k. (refl, f j k)) (ground arith)
  ]
    where
      looped : Result (List String) × Leases
      looped = acquire_loop p session (index_devices s.device_states []) s [] (d ∷ ds) m

  -- A refused reservation of a session that held none of the requested devices leaves the leases as
  -- they were, in the same order.
  pub acquire_refusal_restores :
      (ids : List String) (x : Exception)
      → ((d : String) → contains ids d ≡ true → get d m ≢ some session)
      → acquire p session ids s m ≡ (err x, m')
      → m' ≡ m
  unfolding acquire
  acquire_refusal_restores ids x f e = elim (Bool-cases (is_empty session)) [
    | inl none_id ↦ ground arith
    | inr named_id ↦
        requested_restores (dedupe ids) x (dedupe-distinct ids)
          (λ d c. f d (sym (contains-dedupe ids d) ∙ c)) (ground arith)
  ]

-- Where the session already holds the first of two devices that it asks for again, and the second
-- is refused, the rollback takes the first lease away too: the session loses what it held.
pub reacquire_drops :
    (p : LeasePolicy) (session d e : String) (rest : List String) (s : WorkerState) (m : Leases)
    (x : Exception)
    → is_empty session ≡ false
    → d ≢ e
    → get d m ≡ some session
    → check_device p session d (index_devices s.device_states []) s m ≡ ok tt
    → check_device p session e (index_devices s.device_states []) s (put d session m) ≡ err x
    → (acquire p session (d ∷ e ∷ rest) s m ≡ (err x, remove d m))
      × (get d (acquire p session (d ∷ e ∷ rest) s m).1 ≡ none)
unfolding acquire dedupe acquire_loop roll_back
reacquire_drops p session d e rest s m x n ne held c f =
    let result : acquire p session (d ∷ e ∷ rest) s m ≡ (err x, remove d m) =
      ground (arith, ==_of_ne d e ne, remove-put_self d session m) in
    (result, rw result (ground (arith, get-remove d d m, ==_refl d)))
