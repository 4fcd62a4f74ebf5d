-- ===== src/Tests/Manifests.antt =====
-- The parts of the conformance program on the small shelf.
use mathlib.Core.List.{Mem, Perm}
use p101_test.Base.{
  ℕ, ◌<◌, ◌≡◌, ◌↔◌, refl, Text, codes, Bool, true, false, ◌||◌, some, List, [], ◌∷◌, ◌++◌, map,
  length, drop, text_eq, has_prefix, size_add, State, All, arith, size_mod, Bool-cases, leb, inl,
  inr,
}
use p101_test.Conformance.Types.{Conformance, no_conformance, new_api}
use p101_test.Conformance.Fields.{
  split_fields, split_from, cut_field, list_contains, cut_item, contains_from,
}
use p101_test.Conformance.Fields.Split.{feed, row_text, split_fields-row_text}
use p101_test.Conformance.Fields.Items.{items, list_contains-Mem}
use p101_test.Conformance.Table.{find_first, update_first}
use p101_test.Conformance.Lines.{
  read_all, macro_present, open_macros, read_macros, behind_header, look_for_macro,
}
use p101_test.Conformance.Lines.Runs.{lines_read}
use p101_test.Conformance.Manifests.Ending.{IsFinite, Ends, manifest_loops-Ends}
use p101_test.Conformance.Manifests.{
  api_line, test_line, contract_line, add_api, add_test, test_api,
}
use p101_test.Conformance.Manifests.Rows.{
  api_of, rows_read, is_tested, is_fault_test, named, load_api_manifest-rows,
  load_test_manifest-marks,
}
use p101_test.Conformance.FaultManifest.{new_fault, add_symbols, is_available, add_fault}
use p101_test.Conformance.FaultManifest.Rows.{with_faults, expected_faults, add_symbols-expected}
use p101_test.Conformance.Outcomes.{outcome_line, outcome_of, judge_status, mark_observed}
use p101_test.Conformance.Outcomes.Matching.{
  Observed, Passed, key_of, outcome_key, outcomes_read, load_outcomes-perm,
}
use p101_test.Conformance.Validation.{validate_conformance}
use p101_test.Conformance.Validation.Verdict.{Conforms, validate_conformance_lem}
use p101_test.Tests.{first_line}
use p101_test.Tests.Shelf.{shelf, Shelf, conformance_library, file_lines}
use p101_test.Tests.Conformance.{given}

abbrev reading : Text → State Shelf
reading path = record { raised = []; world = record { lines = file_lines path; document = [] } }

abbrev one_fault : Conformance
one_fault = record no_conformance { faults = new_fault (codes "f") (codes "E") (codes "A") ∷ [] }

abbrev one_observed : Conformance
one_observed = record no_conformance {
  faults = mark_observed (new_fault (codes "f") (codes "E") (codes "A")) ∷ [];
  fault_outcomes_observed = 1;
}

outcomes-end :
    (read_all shelf tt
      (outcome_line shelf conformance_library (codes "out") (codes "lib"))
      one_fault
      (reading (codes "out"))).0
    ≡ (true, one_observed)
unfolding read_all outcome_line outcome_of judge_status find_first update_first split_from cut_field
    text_eq size_add
outcomes-end = refl

outcomes-few :
    length (
      outcomes_read shelf conformance_library
        (codes "out")
        (codes "lib")
        tt
        one_fault
        (reading (codes "out")))
    < size_mod
unfolding lines_read outcome_line outcome_of judge_status find_first update_first split_from
    cut_field text_eq size_add
outcomes-few = omega arith

load_outcomes-perm_example :
    let lines =
      outcomes_read shelf conformance_library
        (codes "out")
        (codes "lib")
        tt
        one_fault
        (reading (codes "out")) in
    All Passed lines × Perm (map key_of one_fault.faults) (map outcome_key lines)
load_outcomes-perm_example =
    load_outcomes-perm shelf conformance_library (codes "out") (codes "lib") tt one_fault
      one_observed (reading (codes "out")) outcomes-end outcomes-few refl (refl, tt) refl (refl, tt)

abbrev called : Conformance
called = record no_conformance {
  apis =
      record (new_api (codes "f") (codes "u")) {
        tested = true;
        conformance_seen = true;
        instrumentation_seen = true;
        trace_applicable = true;
        enters = 2;
        exits = 1;
      }
      ∷ [];
}

validate_conformance_lem_example :
    ((validate_conformance shelf conformance_library given called (reading [])).0.0 ≡ true)
    ↔ ((called.findings ≡ 0) × All Conforms called.apis × All Observed called.faults)
validate_conformance_lem_example =
    validate_conformance_lem shelf conformance_library given called (reading []) (omega arith)

abbrev tests_path : Text
tests_path = codes "r/test/unit-test-manifest.tsv"

abbrev listed : Conformance
listed = record no_conformance { apis = new_api (codes "f") (codes "u") ∷ [] }

abbrev marked : Bool × Conformance
marked = (
  false,
  record no_conformance {
    apis = record (new_api (codes "f") (codes "u")) { tested = true; fault_test = true } ∷ [];
  },
)

tests-end :
    (read_all shelf tt
      (behind_header shelf (test_line shelf))
      (true, listed)
      (reading tests_path)).0
    ≡ (true, marked)
unfolding read_all add_test test_api find_first update_first split_from cut_field text_eq
tests-end = refl

load_test_manifest-marks_example :
    let rows = rows_read shelf (test_line shelf) tt listed (reading tests_path) in
    (is_tested (codes "u") marked.1
      ≡ (named (λ kind. true) (codes "u") rows || is_tested (codes "u") listed))
    × (is_fault_test (codes "u") marked.1 ≡ (
        named (λ kind. text_eq kind (codes "fault")) (codes "u") rows
        || is_fault_test (codes "u") listed))
load_test_manifest-marks_example =
    load_test_manifest-marks shelf tt listed marked (reading tests_path) (codes "u") tests-end

apis-end :
    (read_all shelf tt
      (behind_header shelf (api_line shelf))
      (true, no_conformance)
      (reading (codes "r/api-manifest.tsv"))).0
    ≡ (true, (false, listed))
unfolding read_all add_api split_from cut_field text_eq
apis-end = refl

load_api_manifest-rows_example : listed ≡ record no_conformance {
  apis =
      map api_of
        (rows_read shelf (api_line shelf) tt no_conformance (reading (codes "r/api-manifest.tsv")));
}
load_api_manifest-rows_example =
    load_api_manifest-rows shelf tt no_conformance (false, listed)
      (reading (codes "r/api-manifest.tsv")) apis-end

split_fields-row_text_example :
    split_fields (row_text feed (codes "a") (codes "bc" ∷ [] ∷ [])) 2 ≡ codes "a" ∷ codes "bc" ∷ []
split_fields-row_text_example =
    split_fields-row_text feed (codes "a") (codes "bc" ∷ [] ∷ []) 2 (omega arith)

list_contains-Mem_example :
    (list_contains (codes "a,b") (codes "b") ≡ true) ↔ Mem (codes "b") (items (codes "a,b"))
list_contains-Mem_example = list_contains-Mem (codes "a,b") (codes "b")

-- A file without lines defines no macro.
no_macro : (symbol : Text) (s : State Shelf) → (macro_present shelf (codes "x") symbol s).0 ≡ false
unfolding macro_present open_macros read_macros read_all text_eq
no_macro symbol s = elim (Bool-cases (leb 272 (length (codes "#define " ++ symbol)))) [
  | inl e ↦ rw e refl
  | inr e ↦ rw e refl
]

symbols-end :
    (add_symbols shelf 3
      (codes "x")
      (codes "B")
      (codes "f")
      (codes "E")
      (codes "A,B")
      no_conformance
      (reading [])).0
    ≡ (true, one_fault)
unfolding add_symbols is_available add_fault cut_item list_contains contains_from has_prefix
    macro_present open_macros read_macros read_all text_eq
symbols-end = refl

add_symbols-expected_example :
    one_fault
    ≡ with_faults no_conformance (
        expected_faults (λ symbol. false) (codes "B") (codes "f") (codes "E") (items (codes "A,B")))
add_symbols-expected_example =
    add_symbols-expected shelf (codes "x") (λ symbol. false) no_macro 3 (codes "B") (codes "f")
      (codes "E") (codes "A,B") no_conformance one_fault (reading []) (omega arith) symbols-end

shelf-IsFinite : IsFinite shelf tt
shelf-IsFinite w text e = shorter w.lines e
  where
    shorter :
        (lines : List Text) → first_line lines ≡ some text → length (drop 1 lines) < length lines
    shorter [] h = absurd (cc)
    shorter (l ∷ lines) h = omega arith

manifest_loops-Ends_example :
    Ends shelf tt (behind_header shelf (api_line shelf))
    × Ends shelf tt (behind_header shelf (test_line shelf))
    × Ends shelf tt (behind_header shelf (contract_line shelf))
    × ((n : ℕ) (expected : Text) → Ends shelf tt (look_for_macro shelf n expected))
manifest_loops-Ends_example = manifest_loops-Ends shelf tt shelf-IsFinite
