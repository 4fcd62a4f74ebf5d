-- ===== src/Conformance/Program/Outcome.antt =====
-- When the program of components/conformance/src/main.c ends with which status.
use p101_test.Base.{
  ℕ, ◌+◌, ◌<◌, ◌≡◌, ◌⊎◌, ◌↔◌, inl, inr, refl, ap, sym, ◌∙◌, subst, Text, Bool, true, false, Option,
  none, some, List, [], get_or, drop, All, size_mod, State, call, has_failures, Bool-cases, arith,
}
use p101_test.System.{System}
use p101_test.Conformance.Types.{Conformance, Inputs, ConformanceLibrary}
use p101_test.Conformance.Validation.{validate_conformance}
use p101_test.Conformance.Validation.Verdict.{Conforms, validate_conformance_lem}
use p101_test.Conformance.Outcomes.Matching.{Observed}
use p101_test.Conformance.Receipt.{write_receipt}
use p101_test.Conformance.Invariant.Program.{load_all-IsState}
use p101_test.Conformance.Program.{
  parse_arguments, load_all, status_of, judge, run, main_body, main,
}

-- Nothing was found, every function conforms, and every expected fault was observed.
abbrev pub IsClean : Conformance → Type 0
IsClean c = (c.findings ≡ 0) × All Conforms c.apis × All Observed c.faults

module _ (S : System) (L : ConformanceLibrary S) where
  open S use {World}

  -- The state behind the inputs leaves room for what the validation may find in it.
  abbrev pub HasRoom : Conformance → Type 0
  HasRoom c = c.findings + 24576 < size_mod

  -- The receipt that a judgement writes, behind its validation.
  abbrev pub receipt_written : Inputs → Conformance → State World → Bool
  receipt_written inputs c s =
      let validated = validate_conformance S L inputs c s in
      (write_receipt S L inputs.receipt inputs.library validated.0.1 validated.1).0

  -- A run that came to a judgement: its inputs were loaded, its receipt was written, and its status is 0
  -- exactly when the state is clean, and else 1.
  pub record Judged (inputs : Inputs) (allocated : Bool) (s : State World) (status : ℕ)
      : Type 0 where
    pub loaded : (load_all S L inputs allocated s).0.0 ≡ true
    pub written :
        receipt_written inputs
          (load_all S L inputs allocated s).0.1
          (load_all S L inputs allocated s).1
        ≡ true
    pub passes : (status ≡ 0) ↔ IsClean (load_all S L inputs allocated s).0.1
    pub fails : (status ≡ 0) ⊎ (status ≡ 1)

  status_of-zero : (valid : Bool) → (status_of S L valid true ≡ 0) ↔ (valid ≡ true)
  status_of-zero true = (λ h. refl, λ h. refl)
  status_of-zero false = (λ h. absurd (omega arith), λ h. absurd (cc))

  status_of-cases : (valid : Bool) → (status_of S L valid true ≡ 0) ⊎ (status_of S L valid true ≡ 1)
  status_of-cases true = inl refl
  status_of-cases false = inr refl

  judge-unloaded :
      (inputs : Inputs) (loaded : Bool × Conformance) (s : State World)
      → loaded.0 ≡ false
      → (judge S L inputs loaded s).0 ≡ 2
  unfolding judge
  judge-unloaded inputs (true, c) s e = absurd (cc)
  judge-unloaded inputs (false, c) s e = refl

  judge-loaded :
      (inputs : Inputs) (loaded : Bool × Conformance) (s : State World) (written : Bool)
      → loaded.0 ≡ true
      → receipt_written inputs loaded.1 s ≡ written
      → (judge S L inputs loaded s).0
        ≡ status_of S L (validate_conformance S L inputs loaded.1 s).0.0 written
  unfolding judge
  judge-loaded inputs (true, c) s written e f = ap (status_of S L _) f
  judge-loaded inputs (false, c) s written e f = absurd (cc)

  judge-decided :
      (inputs : Inputs) (allocated : Bool) (s : State World)
      → HasRoom (load_all S L inputs allocated s).0.1
      → let loaded = load_all S L inputs allocated s in
        ((judge S L inputs loaded.0 loaded.1).0 ≡ 2)
        ⊎ Judged inputs allocated s (judge S L inputs loaded.0 loaded.1).0
  judge-decided inputs allocated s room =
      let loaded = load_all S L inputs allocated s in
      let v = load_all-IsState S L inputs allocated s in
      let validated = validate_conformance S L inputs loaded.0.1 loaded.1 in
      let written = receipt_written inputs loaded.0.1 loaded.1 in
      let clean =
        validate_conformance_lem S L inputs loaded.0.1 loaded.1
          (omega (arith, v.few_apis, v.few_faults)) in
      elim (Bool-cases loaded.0.0) [
        | inr e ↦ inl (judge-unloaded inputs loaded.0 loaded.1 e)
        | inl e ↦ elim (Bool-cases written) [
          | inr f ↦ inl (judge-loaded inputs loaded.0 loaded.1 false e f)
          | inl f ↦ inr (
              subst (Judged inputs allocated s)
                (sym (judge-loaded inputs loaded.0 loaded.1 true e f))
                (record {
                  loaded = e;
                  written = f;
                  passes =
                      let zero = status_of-zero validated.0.0 in
                      (λ h. clean.0 (zero.0 h), λ h. zero.1 (clean.1 h));
                  fails = status_of-cases validated.0.0;
                }))
        ]
      ]

  run-decided :
      (program : Text) (allocated : Bool) (parsed : Option Inputs × Bool) (s : State World)
      → ((inputs : Inputs) → parsed.0 ≡ some inputs → HasRoom (load_all S L inputs allocated s).0.1)
      → ((run S L program allocated parsed s).0 ≡ 2)
        ⊎ ((parsed.1 ≡ true) × ((run S L program allocated parsed s).0 ≡ 0))
        ⊎ ((inputs : Inputs) × (parsed.0 ≡ some inputs)
            × Judged inputs allocated s (run S L program allocated parsed s).0)
  unfolding run
  run-decided program allocated (none, true) s room = inr (inl (refl, refl))
  run-decided program allocated (none, false) s room = inl refl
  run-decided program allocated (some inputs, help) s room =
      elim (judge-decided inputs allocated s (room inputs refl)) [
        | inl e ↦ inl e
        | inr j ↦ inr (inr (inputs, refl, j))
      ]

  -- The memory for the state, and the parse of the words behind it.
  abbrev pub allocation : State World → Bool × State World
  allocation s = call (S.allocate L.state_size) s

  abbrev pub parse : List Text → State World → (Option Inputs × Bool) × State World
  parse argv s = parse_arguments S L (drop 1 argv) (allocation s).1

  -- While the outcomes leave room for the findings of the validation, the program ends with 2, or it has no
  -- failure at the end and either help was asked for and the status is 0, or all inputs were given and
  -- loaded and the receipt was written, and the status is 0 exactly when the loaded state is clean, and else
  -- 1.
  pub conformance-decided :
      (argv : List Text) (s : State World)
      → ((inputs : Inputs)
          → (parse argv s).0.0 ≡ some inputs
          → HasRoom (load_all S L inputs (allocation s).0 (parse argv s).1).0.1)
      → ((main S L argv s).0 ≡ 2)
        ⊎ ((has_failures (main_body S L argv s).1.raised ≡ false)
            × (((parse argv s).0.1 ≡ true) × ((main S L argv s).0 ≡ 0)
                ⊎ ((inputs : Inputs) × ((parse argv s).0.0 ≡ some inputs)
                    × Judged inputs (allocation s).0 (parse argv s).1 (main S L argv s).0)))
  unfolding main main_body
  conformance-decided argv s room =
      elim (Bool-cases (has_failures (main_body S L argv s).1.raised)) [
        | inl e ↦ inl (rw e refl)
        | inr e ↦
            let same : (main S L argv s).0 ≡ (main_body S L argv s).0 = rw e refl in
            elim (run-decided (get_or argv 0 []) (allocation s).0 (parse argv s).0 (parse argv s).1
              room) [
                | inl two ↦ inl (same ∙ two)
                | inr (inl (help, zero)) ↦ inr (e, inl (help, same ∙ zero))
                | inr (inr (inputs, given, j)) ↦ inr (
                  e,
                  inr (
                    inputs,
                    given,
                    subst (Judged inputs (allocation s).0 (parse argv s).1) (sym same) j,
                  ),
                )
              ]
      ]
