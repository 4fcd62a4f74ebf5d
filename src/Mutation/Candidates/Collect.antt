-- ===== src/Mutation/Candidates/Collect.antt =====
-- What the observer of components/mutation/src/candidates.c collects over a scan.
use p101_test.Base.{
  ℕ, zero, suc, ◌+◌, ◌-◌, ◌≤◌, ◌≡◌, refl, sym, ap, ◌∙◌, Text, Bool, true, false, not, ◌&&◌, ◌||◌,
  Option, none, some, List, [], ◌∷◌, ◌++◌, map, leb, if◌then◌else◌, if_ind, inl, inr, Bool-cases,
  length, length-append, take, append_assoc, append-nil, State, M, ◌>>=◌, return, has_failures,
  arith,
}
use p101_test.System.{System}
use p101_test.Mutation.Types.{path_size, Candidate, Candidates, AnalysisRecord}
use p101_test.Mutation.Candidates.{
  operator_selected, empty_candidate, add_candidate, fill, copy_text, candidate_observer,
}

-- The records that the operators select.
abbrev pub wanted : List ℕ → AnalysisRecord → Bool
wanted operators r = r.is_mutation && operator_selected operators r.mutation

unfoldable pub chosen : List ℕ → List AnalysisRecord → List AnalysisRecord
chosen operators [] = []
chosen operators (r ∷ rs) =
    let rest = chosen operators rs in if wanted operators r then r ∷ rest else rest

abbrev pub candidate_of : (Text → Text) → AnalysisRecord → Candidate
candidate_of resolve r = record {
  path = resolve r.path;
  line = r.line;
  start = r.start_offset;
  end = r.end_offset;
  original = some r.name;
  replacement = some r.replacement;
  kind = r.mutation;
}

-- Paths resolve and fit their buffer, and there is memory.
pub record Works (S : System) (resolve : Text → Text) : Type 0 where
  pub realpath_lem :
      (p : Text) (w : S.World) → S.realpath p w ≡ (some (resolve p), none, (S.realpath p w).2)
  pub snprintf_lem :
      (p : Text) (w : S.World)
      → S.snprintf path_size (resolve p) w
        ≡ ((some (length (resolve p)), resolve p), none, (S.snprintf path_size (resolve p) w).2)
  pub allocate_lem : (n : ℕ) (w : S.World) → S.allocate n w ≡ (true, none, (S.allocate n w).2)

take-nil : (n : ℕ) → take {A = Candidate} n [] ≡ []
take-nil zero = refl
take-nil (suc n) = refl

module _ (S : System) where
  open S use {World}

  -- The scan hands its records to the observer one after another until it says no.
  unfoldable pub observe_all : List AnalysisRecord → Candidates → M World (Bool × Candidates)
  observe_all [] c = return (true, c)
  observe_all (r ∷ rs) c = do
    seen ← candidate_observer S r c
    let rest = observe_all rs seen.1
    if seen.0 then rest else return seen

  fits-add_candidate :
      (c : Candidates) (candidate : Candidate)
      → leb c.capacity (length c.items) ≡ false
      → length (add_candidate c candidate).items ≤ (add_candidate c candidate).capacity
  fits-add_candidate c candidate h = rw (length-append c.items (candidate ∷ [])) (ground arith)

  Within : Bool × Candidates → Type 0
  Within seen = length seen.1.items ≤ seen.1.capacity

  candidate_observer-Within :
      (r : AnalysisRecord) (c : Candidates) (s : State World)
      → length c.items ≤ c.capacity
      → Within (candidate_observer S r c s).0
  unfolding candidate_observer Within
  candidate_observer-Within r c s h =
      elim (Bool-cases (not r.is_mutation || not (operator_selected c.operators r.mutation))) [
        | inl e ↦ rw e h
        | inr e ↦ elim (Bool-cases (leb c.capacity (length c.items))) [
          | inl full ↦ rw (e, full) h
          | inr room ↦ rw (e, room) (filled (S.realpath r.path s.world).0 _ room)
        ]
      ]
    where
      filled :
          (o : Option Text) (t : State World)
          → leb c.capacity (length c.items) ≡ false
          → Within (fill S r c o t).0
      filled none t room = fits-add_candidate c empty_candidate room
      filled (some canonical) t room = fits-add_candidate c _ room

  -- Whatever the calls do, a scan never collects more mutants than there is room for, if it starts so.
  pub observe_all-fits :
      (rs : List AnalysisRecord) (c : Candidates) (s : State World)
      → length c.items ≤ c.capacity
      → length (observe_all rs c s).0.1.items ≤ (observe_all rs c s).0.1.capacity
  unfolding observe_all Within
  observe_all-fits [] c s h = h
  observe_all-fits (r ∷ rs) c s h = elim (Bool-cases (candidate_observer S r c s).0.0) [
    | inl e ↦
        rw e (
          observe_all-fits rs (candidate_observer S r c s).0.1 _
            (candidate_observer-Within r c s h))
    | inr e ↦ rw e (candidate_observer-Within r c s h)
  ]

  module _ (resolve : Text → Text) (W : Works S resolve) where
    -- One record: the candidates that it leaves when everything works.
    abbrev after : AnalysisRecord → Candidates → Candidates
    after r c =
        if wanted c.operators r && not (leb c.capacity (length c.items))
        then add_candidate c (candidate_of resolve r)
        else c

    abbrev Gives : (Bool × Candidates) × State World → Candidates → Type 0
    Gives result c = (has_failures result.1.raised ≡ false) × (result.0 ≡ (true, c))

    fill_lem :
        (r : AnalysisRecord) (c : Candidates) (s : State World)
        → has_failures s.raised ≡ false
        → Gives (fill S r c (some (resolve r.path)) s) (add_candidate c (candidate_of resolve r))
    unfolding fill copy_text
    fill_lem r c s quiet =
        rw
          (
            W.snprintf_lem r.path s.world,
            W.allocate_lem (length r.name + 1),
            W.allocate_lem (length r.replacement + 1),
            quiet,
          )
          (refl, refl)

    observer_lem :
        (r : AnalysisRecord) (c : Candidates) (s : State World)
        → has_failures s.raised ≡ false
        → Gives (candidate_observer S r c s) (after r c)
    unfolding candidate_observer
    observer_lem r c s quiet = elim (Bool-cases r.is_mutation) [
      | inr e ↦ rw e (quiet, refl)
      | inl e ↦ elim (Bool-cases (operator_selected c.operators r.mutation)) [
        | inr e' ↦ rw (e, e') (quiet, refl)
        | inl e' ↦ elim (Bool-cases (leb c.capacity (length c.items))) [
          | inl full ↦ rw (e, e', full) (quiet, refl)
          | inr room ↦ rw (e, e', room, W.realpath_lem r.path s.world) (fill_lem r c _ quiet)
        ]
      ]
    ]

    -- The candidates that a scan should find: the wanted records, as long as there is room.
    abbrev pub collected : List AnalysisRecord → Candidates → List Candidate
    collected rs c =
        c.items
        ++ take (c.capacity - length c.items) (map (candidate_of resolve) (chosen c.operators rs))

    collected-cons :
        (r : AnalysisRecord) (rs : List AnalysisRecord) (c : Candidates)
        → collected rs (after r c) ≡ collected (r ∷ rs) c
    unfolding chosen
    collected-cons r rs c = elim (Bool-cases (wanted c.operators r)) [
      | inr e ↦ rw e refl
      | inl e ↦ elim (Bool-cases (leb c.capacity (length c.items))) [
        | inl full ↦ rw (e, full, no_room full) refl
        | inr room ↦
            rw (e, room, some_room room, length-append c.items (candidate_of resolve r ∷ []))
              (append_assoc c.items (candidate_of resolve r ∷ []) _)
      ]
    ]
      where
        no_room : leb c.capacity (length c.items) ≡ true → c.capacity - length c.items ≡ 0
        no_room full = ground arith

        some_room :
            leb c.capacity (length c.items) ≡ false
            → c.capacity - length c.items ≡ suc (c.capacity - (length c.items + 1))
        some_room room = ground arith

    after-items :
        (r : AnalysisRecord) (c : Candidates) (items : List Candidate)
        → record (after r c) { items = items } ≡ record c { items = items }
    after-items r c items =
        if_ind {A = Candidates} (λ d. record d { items = items } ≡ record c { items = items })
          (wanted c.operators r && not (leb c.capacity (length c.items))) refl refl

    -- When paths resolve and there is memory, a scan that starts without a failure goes on to its end and
    -- collects, behind the mutants that it had, those of the selected records in their order, up to the
    -- capacity.
    pub observe_all_lem :
        (rs : List AnalysisRecord) (c : Candidates) (s : State World)
        → has_failures s.raised ≡ false
        → (observe_all rs c s).0 ≡ (true, record c { items = collected rs c })
    unfolding observe_all chosen
    observe_all_lem [] c s quiet =
        ap (λ items. (true, record c { items = items }))
          (sym (rw (take-nil (c.capacity - length c.items)) (append-nil c.items)))
    observe_all_lem (r ∷ rs) c s quiet =
        let (still, p) = observer_lem r c s quiet in
        rw p (
          observe_all_lem rs (after r c) _ still
          ∙ ap (λ items. (true, record (after r c) { items = items })) (collected-cons r rs c)
          ∙ ap (λ d. (true, d)) (after-items r c (collected (r ∷ rs) c)))
