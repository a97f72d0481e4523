-- ===== src/Master/Snapshots/Totality.antt =====
-- Under the Master's invariant a snapshot can always be built, and it shows every Worker.
use edge_shard_v.Shared.{
  ℕ, ◌-◌, String, ◌≡◌, refl, sym, ◌∙◌, ap, true, false, some, List, [], ◌∷◌, map, ok, All,
  All-of-contains, contains, has_duplicate, arith, eq_iff, is_empty, Option-cases, inl, inr,
}
use edge_shard_v.Shared.Dict.{get, keys, contains-keys, opt_is_some}
use edge_shard_v.Shared.Sorting.{sorted, contains-sorted, has_duplicate-sorted}
use edge_shard_v.Cluster.Snapshot.{
  Datetime, WorkerSnapshot, check_worker_snapshot, check_cluster_snapshot,
}
use edge_shard_v.Cluster.Revision.{Digest}
use edge_shard_v.Master.Registry.{WorkerRecord, select, list_workers}
use edge_shard_v.Master.Sessions.{SessionInfo}
use edge_shard_v.Master.StateStore.{StoredState}
use edge_shard_v.Master.Liveness.{classify, status_at}
use edge_shard_v.Master.Service.{Master}
use edge_shard_v.Master.Service.Invariant.{Inv}
use edge_shard_v.Master.Snapshots.{worker_snapshot, build_worker, build_workers, build}

-- The snapshot of one Worker shows what the three components hold of it, and its status at `now`.
abbrev pub IsView : Master → ℕ → WorkerSnapshot → Type 0
IsView m now w =
    (r : WorkerRecord) × (e : StoredState) × (s : SessionInfo) × (get w.identity.worker_id
        m.registry
      ≡ some r)
    × (get w.identity.worker_id m.states ≡ some e)
    × (get w.identity.worker_id m.sessions ≡ some s)
    × (w.identity ≡ r.identity)
    × (w.capability ≡ r.capability)
    × (w.state ≡ e.state)
    × (w.last_seen_at ≡ some e.received_wall)
    × (w.session_id ≡ some s.session_id)
    × (w.status ≡ classify m.config (now - e.received_monotonic))

abbrev pub ids_of : List WorkerSnapshot → List String
ids_of = map λ w. w.identity.worker_id

module _ (h : Digest) (m : Master) (now : ℕ) (v : Inv h m) where
  -- A registered Worker has a snapshot.
  build_worker_total :
      (i : String) (r : WorkerRecord)
      → get i m.registry ≡ some r
      → (w : WorkerSnapshot) × (build_worker m now r ≡ ok w)
        × (w.identity.worker_id ≡ i)
        × IsView m now w
  unfolding build_worker status_at check_worker_snapshot
  build_worker_total i r g = elim (Option-cases (get i m.sessions)) [
    | inl none_s ↦ absurd (ground (arith, v.agree i))
    | inr (s, gs) ↦ elim (Option-cases (get i m.states)) [
      | inl none_e ↦ absurd (ground (arith, v.agree i))
      | inr (e, ge) ↦
          let w : WorkerSnapshot =
            worker_snapshot r e (some s) (classify m.config (now - e.received_monotonic)) in
          (
            w,
            ground (arith, v.agree i, eq_iff r.identity.worker_id e.state.worker_id),
            ground (arith, v.agree i),
            (
              r,
              e,
              s,
              ground (arith, v.agree i),
              ground (arith, v.agree i),
              ground (arith, v.agree i),
              refl,
              refl,
              refl,
              refl,
              refl,
              refl,
            ),
          )
    ]
  ]

  build_workers_total :
      (ids : List String)
      → All (λ i. opt_is_some (get i m.registry) ≡ true) ids
      → (ws : List WorkerSnapshot) × (build_workers m now (select ids m.registry) ≡ ok ws)
        × (ids_of ws ≡ ids)
        × All (IsView m now) ws
  unfolding build_workers select
  build_workers_total [] a = ([], refl, refl, tt)
  build_workers_total (i ∷ ids) a = elim (Option-cases (get i m.registry)) [
    | inl e ↦ absurd (ground (arith, a.0))
    | inr (r, e) ↦
        let (w, p, q, k) = build_worker_total i r e in
        let (ws, ps, qs, ks) = build_workers_total ids a.1 in (w ∷ ws, ground (arith), cc, (k, ks))
  ]

  known :
      (i : String)
      → contains (sorted (keys m.registry)) i ≡ true
      → opt_is_some (get i m.registry) ≡ true
  known i c = sym (contains-keys i m.registry) ∙ sym (contains-sorted i (keys m.registry)) ∙ c

  -- Under the invariant, with a snapshot id that is not empty and an aware wall clock, the snapshot is
  -- built. It lists the registered Workers, each once and in the order of their ids, and shows of each
  -- the identity and the capability of its record, its last state with the time of its arrival, the id
  -- of its session, and its status at one instant.
  pub build_total :
      (fresh : String) (wall : Datetime)
      → is_empty fresh ≡ false
      → wall.aware ≡ true
      → (ws : List WorkerSnapshot) × (build m now fresh wall
          ≡ ok (record { snapshot_id = fresh; created_at = wall; workers = ws }))
        × (ids_of ws ≡ sorted (keys m.registry))
        × All (IsView m now) ws
  unfolding build list_workers check_cluster_snapshot
  build_total fresh wall f a =
      let ids = sorted (keys m.registry) in
      let (ws, p, q, k) = build_workers_total ids (All-of-contains _ ids known) in
      let once : has_duplicate (ids_of ws) ≡ false =
        ap has_duplicate q ∙ has_duplicate-sorted (keys m.registry) ∙ v.one_record in
      (ws, ground (arith, p, once), q, k)
