-- ===== src/Profiling/Experiment/Coverage.antt =====
-- A status is accepted exactly when it covers the cases of its experiment.
use mathlib.Core.Path.{subst}
use edge_shard_v.Shared.{
  ◌≡◌, refl, sym, ◌∙◌, ◌↔◌, String, true, false, ◌&&◌, ◌||◌, ◌==◌, List, [], ◌∷◌, map, ok, contains,
  has_duplicate, Bool-cases, Result-cases, inl, inr, arith, eq_iff, ==_refl,
}
use edge_shard_v.Profiling.Experiment.{
  CaseStatus, ExperimentStatus, check_cases, is_missing, check_experiment_status,
}

abbrev pub ids_of : List CaseStatus → List String
ids_of cs = map (λ c. c.case_id) cs

-- The members of the first list are members of the second.
abbrev Within : List String → List String → Type 0
Within xs ys = (j : String) → contains xs j ≡ true → contains ys j ≡ true

abbrev Apart : List String → List String → Type 0
Apart xs ys = (j : String) → (contains xs j && contains ys j) ≡ false

abbrev IsJoin : List String → List String → List String → Type 0
IsJoin r xs ys = (j : String) → contains r j ≡ (contains xs j || contains ys j)

contains_along : (xs : List String) (i j : String) → (i == j) ≡ true → contains xs i ≡ contains xs j
contains_along xs i j g = subst (λ k. contains xs i ≡ contains xs k) ((eq_iff i j).0 g) refl

check_cases_sound :
    (expected seen : List String) (cs : List CaseStatus) (r : List String)
    → check_cases expected seen cs ≡ ok r
    → (has_duplicate (ids_of cs) ≡ false)
      × Within (ids_of cs) expected
      × Apart (ids_of cs) seen
      × IsJoin r (ids_of cs) seen
unfolding check_cases
check_cases_sound expected seen [] r e =
    (refl, λ j h. absurd (ground (arith, h)), λ j. refl, λ j. ground (arith, e))
check_cases_sound expected seen (c ∷ cs) r e =
    let known : contains expected c.case_id ≡ true = ground (arith, e) in
    let fresh : contains seen c.case_id ≡ false = ground (arith, e) in
    let later : check_cases expected (c.case_id ∷ seen) cs ≡ ok r = ground (arith, e) in
    let (d, w, a, i) = check_cases_sound expected (c.case_id ∷ seen) cs r later in
    (
      ground (arith, d, a c.case_id, ==_refl c.case_id),
      λ j h. elim (Bool-cases (c.case_id == j)) [
        | inl g ↦ sym (contains_along expected c.case_id j g) ∙ known
        | inr g ↦ w j (ground (arith, h, g))
      ],
      λ j. elim (Bool-cases (c.case_id == j)) [
        | inl g ↦ ground (arith, contains_along seen c.case_id j g, fresh)
        | inr g ↦ ground (arith, a j, g)
      ],
      λ j. ground (arith, i j),
    )

check_cases_complete :
    (expected seen : List String) (cs : List CaseStatus)
    → has_duplicate (ids_of cs) ≡ false
    → Within (ids_of cs) expected
    → Apart (ids_of cs) seen
    → (r : List String) × (check_cases expected seen cs ≡ ok r) × IsJoin r (ids_of cs) seen
unfolding check_cases
check_cases_complete expected seen [] d w a = (seen, refl, λ j. ground arith)
check_cases_complete expected seen (c ∷ cs) d w a =
    let known : contains expected c.case_id ≡ true =
      w c.case_id (ground (arith, ==_refl c.case_id)) in
    let fresh : contains seen c.case_id ≡ false = ground (arith, a c.case_id, ==_refl c.case_id) in
    let distinct : has_duplicate (ids_of cs) ≡ false = ground (arith, d) in
    let within : Within (ids_of cs) expected = λ j h. w j (ground (arith, h)) in
    let apart : Apart (ids_of cs) (c.case_id ∷ seen) = λ j. elim (Bool-cases (c.case_id == j)) [
      | inl g ↦ ground (arith, contains_along (ids_of cs) c.case_id j g, d)
      | inr g ↦ ground (arith, a j, g)
    ] in
    let (r, e, i) = check_cases_complete expected (c.case_id ∷ seen) cs distinct within apart in
    (r, rw (known, fresh) e, λ j. ground (arith, i j))

is_missing_sound : (xs ys : List String) → is_missing xs ys ≡ false → Within xs ys
unfolding is_missing
is_missing_sound [] ys e j h = absurd (ground (arith, h))
is_missing_sound (x ∷ xs) ys e j h = elim (Bool-cases (x == j)) [
  | inl g ↦ ground (arith, contains_along ys x j g, e)
  | inr g ↦ is_missing_sound xs ys (ground (arith, e)) j (ground (arith, h, g))
]

is_missing_complete : (xs ys : List String) → Within xs ys → is_missing xs ys ≡ false
unfolding is_missing
is_missing_complete [] ys h = refl
is_missing_complete (x ∷ xs) ys h =
    ground (arith, h x, ==_refl x, is_missing_complete xs ys (λ j k. h j (ground (arith, k))))

accepted :
    (s : ExperimentStatus)
    → check_experiment_status s ≡ ok tt
    → (r : List String) × (check_cases s.experiment.case_ids [] s.cases ≡ ok r)
      × (is_missing s.experiment.case_ids r ≡ false)
unfolding check_experiment_status
accepted s e = elim (Result-cases (check_cases s.experiment.case_ids [] s.cases)) [
  | inl (r, f) ↦ (r, f, ground (arith, e, f))
  | inr (x, f) ↦ absurd (ground (arith, e, f))
]

mutual_Within :
    (xs ys : List String)
    → Within xs ys
    → Within ys xs
    → (i : String) → contains xs i ≡ contains ys i
mutual_Within xs ys f g i = ground (arith, f i, g i)

-- A status is accepted exactly when no case has two statuses, and the cases that have one are the cases
-- of the experiment.
pub status-Covers :
    (s : ExperimentStatus)
    → (check_experiment_status s ≡ ok tt) ↔ (
        (has_duplicate (ids_of s.cases) ≡ false)
        × ((i : String) → contains (ids_of s.cases) i ≡ contains s.experiment.case_ids i))
unfolding check_experiment_status
status-Covers s = (
  λ e.
      let (r, f, m) = accepted s e in
      let (d, w, a, i) = check_cases_sound s.experiment.case_ids [] s.cases r f in
      let back : Within s.experiment.case_ids (ids_of s.cases) =
        λ j h. ground (arith, i j, is_missing_sound s.experiment.case_ids r m j h) in
      (d, mutual_Within (ids_of s.cases) s.experiment.case_ids w back),
  λ h.
      let (r, f, i) =
        check_cases_complete s.experiment.case_ids [] s.cases h.0 (λ j k. sym (h.1 j) ∙ k)
          (λ j. ground arith) in
      let m : is_missing s.experiment.case_ids r ≡ false =
        is_missing_complete s.experiment.case_ids r (λ j k. ground (arith, i j, h.1 j, k)) in
      rw (f, m) refl,
)
