-- ===== src/Tests/Conformance.antt =====
-- The conformance program on the small shelf.
use p101_test.Base.{
  ◌≡◌, ◌⊎◌, refl, sym, ◌∙◌, subst, codes, true, false, some, [], ◌∷◌, text_eq, has_prefix, decimal,
  size_add, arith, has_failures,
}
use p101_test.Conformance.Types.{Inputs}
use p101_test.Conformance.Program.Outcome.{parse, HasRoom, Judged, conformance-decided}
use p101_test.Conformance.Invariant.Steps.{IsState}
use p101_test.Conformance.Invariant.Program.{load_all-IsState}
use p101_test.Tests.Shelf.{shelf, conformance_library, words, empty_shelf}
use p101_test.Conformance.Program.{
  main, main_body, load_all, parse_arguments, parse_words, set_option,
}
use p101_test.Conformance.Manifests
use p101_test.Conformance.Fields
use p101_test.Conformance.Table
use p101_test.Conformance.FaultManifest
use p101_test.Conformance.Lines
use p101_test.Conformance.Instrumentation
use p101_test.Conformance.Documents
use p101_test.Conformance.Outcomes
use p101_test.Conformance.Program
use p101_test.Conformance.Receipt
use p101_test.Conformance.RunModel
use p101_test.Conformance.Validation

-- The conditional B is not defined, so that the one outcome A is all that is expected.
main-passes : (main shelf conformance_library words empty_shelf).0 ≡ 0
unfolding main text_eq has_prefix decimal size_add p101_test.Conformance.Manifests.load_api_manifest
    p101_test.Conformance.Manifests.add_api p101_test.Conformance.Manifests.load_test_manifest
    p101_test.Conformance.Manifests.add_test
    p101_test.Conformance.Manifests.load_conformance_manifest
    p101_test.Conformance.Manifests.add_contract p101_test.Conformance.Manifests.contract_api
    p101_test.Conformance.Manifests.test_api p101_test.Conformance.Fields.split_from
    p101_test.Conformance.Fields.cut_field p101_test.Conformance.Fields.contains_from
    p101_test.Conformance.Fields.cut_item p101_test.Conformance.Fields.list_contains
    p101_test.Conformance.Table.find_first p101_test.Conformance.Table.update_first
    p101_test.Conformance.FaultManifest.load_fault_manifest
    p101_test.Conformance.FaultManifest.add_fault p101_test.Conformance.FaultManifest.add_outcomes
    p101_test.Conformance.FaultManifest.add_symbols p101_test.Conformance.FaultManifest.fault_line
    p101_test.Conformance.FaultManifest.is_available p101_test.Conformance.FaultManifest.load_faults
    p101_test.Conformance.FaultManifest.platform_columns p101_test.Conformance.Lines.macro_present
    p101_test.Conformance.Lines.macro_line p101_test.Conformance.Lines.load_manifest
    p101_test.Conformance.Lines.open_macros p101_test.Conformance.Lines.open_manifest
    p101_test.Conformance.Lines.read_all p101_test.Conformance.Lines.read_lines
    p101_test.Conformance.Lines.read_macros p101_test.Conformance.Lines.read_manifest
    p101_test.Conformance.Instrumentation.load_instrumentation
    p101_test.Conformance.Instrumentation.capabilities
    p101_test.Conformance.Instrumentation.capability
    p101_test.Conformance.Instrumentation.check_passed
    p101_test.Conformance.Instrumentation.check_schema p101_test.Conformance.Instrumentation.see_api
    p101_test.Conformance.Documents.read_json_file p101_test.Conformance.Documents.each_row
    p101_test.Conformance.Documents.token_boolean p101_test.Conformance.Documents.token_text
    p101_test.Conformance.Documents.token_text_optional p101_test.Conformance.Outcomes.finding
    p101_test.Conformance.Outcomes.judge_status p101_test.Conformance.Outcomes.load_outcomes
    p101_test.Conformance.Outcomes.outcome_line p101_test.Conformance.Outcomes.outcome_of
    p101_test.Conformance.Outcomes.read_outcomes p101_test.Conformance.Outcomes.unexpected
    p101_test.Conformance.Program.judge p101_test.Conformance.Program.load_all
    p101_test.Conformance.Program.main_body p101_test.Conformance.Program.parse_arguments
    p101_test.Conformance.Program.parse_words p101_test.Conformance.Program.run
    p101_test.Conformance.Program.set_option p101_test.Conformance.Receipt.count_calls
    p101_test.Conformance.Receipt.receipt_text p101_test.Conformance.Receipt.write_receipt
    p101_test.Conformance.RunModel.check_schema p101_test.Conformance.RunModel.load_model
    p101_test.Conformance.RunModel.node p101_test.Conformance.RunModel.nodes
    p101_test.Conformance.RunModel.note_call p101_test.Conformance.RunModel.note_enter
    p101_test.Conformance.RunModel.note_exit p101_test.Conformance.Validation.api_checks
    p101_test.Conformance.Validation.check_apis p101_test.Conformance.Validation.check_faults
    p101_test.Conformance.Validation.report_all p101_test.Conformance.Validation.report_when
    p101_test.Conformance.Validation.validate_conformance
main-passes = refl

main-unknown : (main shelf conformance_library (codes "c" ∷ codes "--x" ∷ []) empty_shelf).0 ≡ 2
unfolding main text_eq
main-unknown = refl

abbrev pub given : Inputs
given = record {
  library = codes "lib";
  repo = codes "r";
  instrumentation = codes "ins";
  model = codes "mod";
  outcomes = codes "out";
  platform = codes "linux";
  macros = codes "mac";
  receipt = codes "rec";
}

given-parsed : (parse shelf conformance_library words empty_shelf).0.0 ≡ some given
unfolding parse_arguments parse_words set_option text_eq
given-parsed = refl

given-findings :
    (load_all shelf conformance_library given true
      (parse shelf conformance_library words empty_shelf).1).0.1.findings
    ≡ 0
unfolding main text_eq has_prefix decimal size_add p101_test.Conformance.Manifests.load_api_manifest
    p101_test.Conformance.Manifests.add_api p101_test.Conformance.Manifests.load_test_manifest
    p101_test.Conformance.Manifests.add_test
    p101_test.Conformance.Manifests.load_conformance_manifest
    p101_test.Conformance.Manifests.add_contract p101_test.Conformance.Manifests.contract_api
    p101_test.Conformance.Manifests.test_api p101_test.Conformance.Fields.split_from
    p101_test.Conformance.Fields.cut_field p101_test.Conformance.Fields.contains_from
    p101_test.Conformance.Fields.cut_item p101_test.Conformance.Fields.list_contains
    p101_test.Conformance.Table.find_first p101_test.Conformance.Table.update_first
    p101_test.Conformance.FaultManifest.load_fault_manifest
    p101_test.Conformance.FaultManifest.add_fault p101_test.Conformance.FaultManifest.add_outcomes
    p101_test.Conformance.FaultManifest.add_symbols p101_test.Conformance.FaultManifest.fault_line
    p101_test.Conformance.FaultManifest.is_available p101_test.Conformance.FaultManifest.load_faults
    p101_test.Conformance.FaultManifest.platform_columns p101_test.Conformance.Lines.macro_present
    p101_test.Conformance.Lines.macro_line p101_test.Conformance.Lines.load_manifest
    p101_test.Conformance.Lines.open_macros p101_test.Conformance.Lines.open_manifest
    p101_test.Conformance.Lines.read_all p101_test.Conformance.Lines.read_lines
    p101_test.Conformance.Lines.read_macros p101_test.Conformance.Lines.read_manifest
    p101_test.Conformance.Instrumentation.load_instrumentation
    p101_test.Conformance.Instrumentation.capabilities
    p101_test.Conformance.Instrumentation.capability
    p101_test.Conformance.Instrumentation.check_passed
    p101_test.Conformance.Instrumentation.check_schema p101_test.Conformance.Instrumentation.see_api
    p101_test.Conformance.Documents.read_json_file p101_test.Conformance.Documents.each_row
    p101_test.Conformance.Documents.token_boolean p101_test.Conformance.Documents.token_text
    p101_test.Conformance.Documents.token_text_optional p101_test.Conformance.Outcomes.finding
    p101_test.Conformance.Outcomes.judge_status p101_test.Conformance.Outcomes.load_outcomes
    p101_test.Conformance.Outcomes.outcome_line p101_test.Conformance.Outcomes.outcome_of
    p101_test.Conformance.Outcomes.read_outcomes p101_test.Conformance.Outcomes.unexpected
    p101_test.Conformance.Program.judge p101_test.Conformance.Program.load_all
    p101_test.Conformance.Program.main_body p101_test.Conformance.Program.parse_arguments
    p101_test.Conformance.Program.parse_words p101_test.Conformance.Program.run
    p101_test.Conformance.Program.set_option p101_test.Conformance.Receipt.count_calls
    p101_test.Conformance.Receipt.receipt_text p101_test.Conformance.Receipt.write_receipt
    p101_test.Conformance.RunModel.check_schema p101_test.Conformance.RunModel.load_model
    p101_test.Conformance.RunModel.node p101_test.Conformance.RunModel.nodes
    p101_test.Conformance.RunModel.note_call p101_test.Conformance.RunModel.note_enter
    p101_test.Conformance.RunModel.note_exit p101_test.Conformance.Validation.api_checks
    p101_test.Conformance.Validation.check_apis p101_test.Conformance.Validation.check_faults
    p101_test.Conformance.Validation.report_all p101_test.Conformance.Validation.report_when
    p101_test.Conformance.Validation.validate_conformance
given-findings = refl

words-HasRoom :
    (inputs : Inputs)
    → (parse shelf conformance_library words empty_shelf).0.0 ≡ some inputs
    → HasRoom shelf conformance_library
        (load_all shelf conformance_library inputs true
          (parse shelf conformance_library words empty_shelf).1).0.1
words-HasRoom inputs e =
    let same : given ≡ inputs = some_injective (sym given-parsed ∙ e) in
    subst
      (λ i.
        HasRoom shelf conformance_library
          (load_all shelf conformance_library i true
            (parse shelf conformance_library words empty_shelf).1).0.1)
      same (rw given-findings (omega arith))
  where
    some_injective : {i j : Inputs} → some i ≡ some j → i ≡ j
    some_injective h = cc

conformance-decided_example :
    ((main shelf conformance_library words empty_shelf).0 ≡ 2)
    ⊎ ((has_failures (main_body shelf conformance_library words empty_shelf).1.raised ≡ false)
        × (((parse shelf conformance_library words empty_shelf).0.1 ≡ true)
              × ((main shelf conformance_library words empty_shelf).0 ≡ 0)
            ⊎ ((inputs : Inputs) × ((parse shelf conformance_library words empty_shelf).0.0
                  ≡ some inputs)
                × Judged shelf conformance_library inputs true
                    (parse shelf conformance_library words empty_shelf).1
                    (main shelf conformance_library words empty_shelf).0)))
conformance-decided_example =
    conformance-decided shelf conformance_library words empty_shelf words-HasRoom

load_all-IsState_example : IsState (load_all shelf conformance_library given true empty_shelf).0.1
load_all-IsState_example = load_all-IsState shelf conformance_library given true empty_shelf
