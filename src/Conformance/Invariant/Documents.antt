-- ===== src/Conformance/Invariant/Documents.antt =====
-- The loaders of documents and of outcomes of components/conformance/src/main.c, and what they keep.
use p101_test.Base.{
  ℕ, zero, suc, ◌≡◌, refl, Text, codes, Bool, true, false, not, Option, none, some, [], get_or,
  length, text_eq, ◌==◌, State, M, if_cases, arith,
}
use p101_test.System.{System}
use p101_test.Conformance.Types.{ExpectedFault, Conformance, ConformanceLibrary}
use p101_test.Conformance.Fields.{split_fields}
use p101_test.Conformance.Table.{find_fault}
use p101_test.Conformance.Lines.Runs.{read_all-keeps}
use p101_test.Conformance.Documents.{each_row, more_rows, take_row}
use p101_test.Conformance.Outcomes.{count_finding, outcome_line, read_outcomes, load_outcomes}
use p101_test.Conformance.Outcomes.Steps.{judged, matched, outcome_step, outcome_line-step}
use p101_test.Conformance.Invariant.Steps.{IsState, observe-IsState}

count_finding-IsState : (c : Conformance) → IsState c → IsState (count_finding c)
count_finding-IsState c v = record {
  few_apis = v.few_apis;
  few_faults = v.few_faults;
  apis_fit = v.apis_fit;
  faults_fit = v.faults_fit;
  counted = v.counted;
}

judged-faults : (status : Text) (c : Conformance) → (judged status c).faults ≡ c.faults
judged-faults status c = ground arith

judged-IsState : (status : Text) (c : Conformance) → IsState c → IsState (judged status c)
judged-IsState status c v =
    if_cases IsState (not (text_eq status (codes "PASS"))) (λ e. count_finding-IsState c v) (λ e. v)

matched-IsState :
    (line : Text) (c : Conformance) (found : Option ExpectedFault)
    → let fields = split_fields line 10 in
      find_fault (get_or fields 5 []) (get_or fields 6 []) (get_or fields 7 []) c.faults ≡ found
      → IsState c
      → IsState (matched line c found)
unfolding matched
matched-IsState line c none found v = count_finding-IsState c v
matched-IsState line c (some fault) found v =
    let fields = split_fields line 10 in
    let status = get_or fields 9 [] in
    if_cases IsState fault.observed (λ e. count_finding-IsState c v)
      λ e.
        observe-IsState (get_or fields 5 []) (get_or fields 6 []) (get_or fields 7 [])
          (judged status c) fault (rw (judged-faults status c) found) e (judged-IsState status c v)

outcome_step-IsState : (line : Text) (c : Conformance) → IsState c → IsState (outcome_step line c).1
unfolding outcome_step
outcome_step-IsState line c v =
    let fields = split_fields line 10 in
    if_cases (λ (r : Bool × Conformance). IsState r.1) (not (length fields == 10)) (λ e. v)
      λ e.
        if_cases (λ (r : Bool × Conformance). IsState r.1)
          (not (text_eq (get_or fields 0 []) (codes "P101WRAPPER"))) (λ e. v)
          λ e. matched-IsState line c _ refl v

module _ (S : System) (L : ConformanceLibrary S) where
  open S use {World, Stream}
  open L use {Json}

  outcome_line-IsState :
      (path library line : Text) (c : Conformance) (s : State World)
      → IsState c
      → IsState (outcome_line S L path library line c s).0.1
  outcome_line-IsState path library line c s v =
      rw (outcome_line-step S L path library line c s) (outcome_step-IsState line c v)

  pub load_outcomes-IsState :
      (path library : Text) (c : Conformance) (s : State World)
      → IsState c
      → IsState (load_outcomes S L path library c s).0.1
  unfolding load_outcomes
  load_outcomes-IsState path library c s v = opened _ _
    where
      opened :
          (stream : Option Stream) (s' : State World)
          → IsState (read_outcomes S L path library c stream s').0.1
      opened none s' = v
      opened (some stream) s' =
          read_all-keeps S IsState (outcome_line S L path library)
            (outcome_line-IsState path library) stream c s' v

  module _ (document : Json) (array : ℕ) (body : ℕ → Conformance → M World (Bool × Conformance))
      (keep : (row : ℕ) (c : Conformance) (s : State World)
        → IsState c
        → IsState (body row c s).0.1) where
    more_rows-IsState :
        (again : Conformance → M World (Bool × Conformance))
        → ((c : Conformance) (s : State World) → IsState c → IsState (again c s).0.1)
        → (r : Bool × Conformance) (s : State World) → IsState r.1
        → IsState (more_rows S L again r s).0.1
    more_rows-IsState again ih (true, c) s v = ih c s v
    more_rows-IsState again ih (false, c) s v = v

    take_row-IsState :
        (again : Conformance → M World (Bool × Conformance))
        → ((c : Conformance) (s : State World) → IsState c → IsState (again c s).0.1)
        → (row : Option ℕ) (c : Conformance) (s : State World) → IsState c
        → IsState (take_row S L again body c row s).0.1
    take_row-IsState again ih none c s v = v
    take_row-IsState again ih (some row) c s v =
        more_rows-IsState again ih (body row c s).0 (body row c s).1 (keep row c s v)

    pub each_row-IsState :
        (left index : ℕ) (c : Conformance) (s : State World)
        → IsState c
        → IsState (each_row S L document array body left index c s).0.1
    unfolding each_row
    each_row-IsState zero index c s v = v
    each_row-IsState (suc left) index c s v =
        take_row-IsState (each_row S L document array body left (suc index))
          (each_row-IsState left (suc index)) (L.json_array_get document array index) c s v
