-- ===== src/Worker/Ledger/Forward.antt =====
-- A case ledger only moves forward: a decided case never changes, and neither does a closed session.
use edge_shard_v.Shared.{String, ◌≡◌, true, false, none, some, List, arith, eq_iff}
use edge_shard_v.Shared.Dict.{get, put, get-put}
use edge_shard_v.Worker.Ledger.Records.{
  CaseLedgerEntry, ProfilingSessionRecord, Ledger, is_terminal,
}
use edge_shard_v.Worker.Ledger.{empty, case_entry}
use edge_shard_v.Worker.Ledger.History.{Call, run}
use edge_shard_v.Worker.Ledger.Moves.{
  Move, stay, opened, shut, wrote, Moves_keep, run-Moves, Carries,
}

module _ {P R : Type 0} (session case_id : String) (e : CaseLedgerEntry R) where
  abbrev Held : Ledger P R → Type 0
  Held l = case_entry session case_id l ≡ some e

  Move-Held : is_terminal e.state ≡ true → (l l' : Ledger P R) → Move P R l l' → Held l → Held l'
  unfolding case_entry
  Move-Held t l l' (stay p) h = rw p h
  Move-Held t l l' (opened s r g c o p) h =
      rw p (ground (arith, eq_iff s session, get-put s session r l.sessions))
  Move-Held t l l' (shut s r g o p) h = rw p (
      ground (
        arith,
        eq_iff s session,
        get-put s session (record r { closed = true; model_cleanup = none; model_handle = false })
            l.sessions,
      ))
  Move-Held t l l' (wrote s c r f g o u k p) h = rw p (
      ground (
        arith,
        eq_iff s session,
        eq_iff c case_id,
        get-put s session (record r { cases = put c f r.cases }) l.sessions,
        get-put c case_id f r.cases,
      ))

  -- A decided case stays as it is for good: whatever calls follow, on any session, its entry with its
  -- state, its outcome and its time never changes.
  pub decided_stays :
      (l : Ledger P R) (xs : List (Call P R))
      → is_terminal e.state ≡ true
      → case_entry session case_id l ≡ some e
      → case_entry session case_id (run l xs) ≡ some e
  decided_stays l xs t h = Moves_keep Held (Move-Held t) (run-Moves l xs) h

module _ {P R : Type 0} (session : String) (r : ProfilingSessionRecord P R) where
  abbrev Frozen : Ledger P R → Type 0
  Frozen l = get session l.sessions ≡ some r

  Move-Frozen : r.closed ≡ true → (l l' : Ledger P R) → Move P R l l' → Frozen l → Frozen l'
  Move-Frozen c l l' (stay p) h = rw p h
  Move-Frozen c l l' (opened s r' g n o p) h =
      rw p (ground (arith, eq_iff s session, get-put s session r' l.sessions))
  Move-Frozen c l l' (shut s r' g o p) h = rw p (
      ground (
        arith,
        eq_iff s session,
        get-put s session (record r' { closed = true; model_cleanup = none; model_handle = false })
            l.sessions,
      ))
  Move-Frozen c l l' (wrote s i r' f g o u k p) h = rw p (
      ground (
        arith,
        eq_iff s session,
        get-put s session (record r' { cases = put i f r'.cases }) l.sessions,
      ))

  -- A closed session stays closed with the ledger that it had, whatever calls follow: its id is never
  -- prepared again.
  pub closed_stays :
      (l : Ledger P R) (xs : List (Call P R))
      → r.closed ≡ true
      → get session l.sessions ≡ some r
      → get session (run l xs).sessions ≡ some r
  closed_stays l xs c h = Moves_keep Frozen (Move-Frozen c) (run-Moves l xs) h

module _ {P R : Type 0} (session case_id : String) where
  abbrev Carried : Ledger P R → Type 0
  Carried l = (e : CaseLedgerEntry R) → case_entry session case_id l ≡ some e → Carries e

  Move-Carried : (l l' : Ledger P R) → Move P R l l' → Carried l → Carried l'
  unfolding case_entry get
  Move-Carried l l' (stay p) h = rw p h
  Move-Carried l l' (opened s r g n o p) h =
      rw p (λ e x. ground (arith, eq_iff s session, get-put s session r l.sessions, h e))
  Move-Carried l l' (shut s r g o p) h = rw p (λ e x. ground (
    arith,
    eq_iff s session,
    get-put s session (record r { closed = true; model_cleanup = none; model_handle = false })
        l.sessions,
    h e,
  ))
  Move-Carried l l' (wrote s c r f g o u k p) h = rw p (λ e x. ground (
    arith,
    eq_iff s session,
    eq_iff c case_id,
    get-put s session (record r { cases = put c f r.cases }) l.sessions,
    get-put c case_id f r.cases,
    h e,
  ))

  -- After any calls on a new manager, a case in the ledger is decided exactly when it carries an
  -- outcome, and exactly when it carries the time of the decision.
  pub run-Carries :
      (xs : List (Call P R)) (e : CaseLedgerEntry R)
      → case_entry session case_id (run empty xs) ≡ some e
      → Carries e
  unfolding case_entry get
  run-Carries xs =
      Moves_keep Carried Move-Carried (run-Moves empty xs) (λ e x. absurd (ground arith))
