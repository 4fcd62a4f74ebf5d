-- ===== src/Conformance/Outcomes/Steps.antt =====
-- A line of the outcomes under `load_outcomes` of components/conformance/src/main.c, without effects.
use p101_test.Base.{
  ◌≡◌, refl, inl, inr, Text, codes, Bool, true, false, not, Option, none, some, [], ◌==◌,
  if◌then◌else◌, length, get_or, text_eq, State, Bool-cases,
}
use p101_test.System.{System}
use p101_test.Conformance.Types.{ExpectedFault, Conformance, ConformanceLibrary}
use p101_test.Conformance.Fields.{split_fields}
use p101_test.Conformance.Table.{find_fault}
use p101_test.Conformance.Outcomes.{observe, count_finding, judge_status, outcome_of, outcome_line}

abbrev pub judged : Text → Conformance → Conformance
judged status c = if not (text_eq status (codes "PASS")) then count_finding c else c

-- The state behind a well-formed line.
unfoldable pub matched : Text → Conformance → Option ExpectedFault → Conformance
matched line c none = count_finding c
matched line c (some fault) =
    let fields = split_fields line 10 in
    if fault.observed
    then count_finding c
    else observe (get_or fields 5 []) (get_or fields 6 []) (get_or fields 7 [])
        (judged (get_or fields 9 []) c)

unfoldable pub outcome_step : Text → Conformance → Bool × Conformance
unfolding matched
outcome_step line c =
    let fields = split_fields line 10 in
    if not (length fields == 10)
    then (false, c)
    else if not (text_eq (get_or fields 0 []) (codes "P101WRAPPER"))
    then (false, c)
    else (
      true,
      matched line c
          (find_fault (get_or fields 5 []) (get_or fields 6 []) (get_or fields 7 []) c.faults),
    )

module _ (S : System) (L : ConformanceLibrary S) (path library : Text) where
  open S use {World}

  judge_status-judged :
      (wrapper status : Text) (c : Conformance) (s : State World)
      → (judge_status S L path library wrapper status c s).0 ≡ judged status c
  unfolding judge_status
  judge_status-judged wrapper status c s = elim (Bool-cases (text_eq status (codes "PASS"))) [
    | inl e ↦ rw e refl
    | inr e ↦ rw e refl
  ]

  outcome_of-matched :
      (line : Text) (c : Conformance) (found : Option ExpectedFault) (s : State World)
      → (outcome_of S L path library (split_fields line 10) c found s).0
        ≡ (true, matched line c found)
  unfolding outcome_of matched
  outcome_of-matched line c none s = refl
  outcome_of-matched line c (some fault) s = elim (Bool-cases fault.observed) [
    | inl e ↦ rw e refl
    | inr e ↦
        let fields = split_fields line 10 in
        rw (e, judge_status-judged (get_or fields 5 []) (get_or fields 9 []) c s) refl
  ]

  -- Whatever is written of the findings, the body of the loop gives what the step gives.
  pub outcome_line-step :
      (line : Text) (c : Conformance) (s : State World)
      → (outcome_line S L path library line c s).0 ≡ outcome_step line c
  unfolding outcome_line outcome_step
  outcome_line-step line c s =
      let fields = split_fields line 10 in
      elim (Bool-cases (length fields == 10)) [
        | inr e ↦ rw e refl
        | inl e ↦ elim (Bool-cases (text_eq (get_or fields 0 []) (codes "P101WRAPPER"))) [
          | inr t ↦ rw (e, t) refl
          | inl t ↦ rw (e, t) (outcome_of-matched line c _ s)
        ]
      ]
