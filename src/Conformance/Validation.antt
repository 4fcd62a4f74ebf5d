-- ===== src/Conformance/Validation.antt =====
-- components/conformance/src/main.c: `validate_conformance`.
pub mod Verdict
use p101_test.Base.{
  Text, codes, Bool, not, ◌&&◌, List, [], ◌∷◌, ltb, ◌==◌, if◌then◌else◌, M, ◌>>=◌, return,
}
use p101_test.System.{System}
use p101_test.Conformance.Types.{ApiRecord, ExpectedFault, Conformance, Inputs, ConformanceLibrary}
use p101_test.Conformance.Outcomes.{finding}

-- An `if` of the loop over the functions: its test, and what `finding` is called with.
pub record Check : Type 0 where
  pub test : Bool
  pub path : Text
  pub message : Text
  pub identity : Text

abbrev pub check : Bool → Text → Text → Text → Check
check test path message identity = record {
  test = test;
  path = path;
  message = message;
  identity = identity;
}

-- The eight tests on a function, in the order of the source.
unfoldable pub api_checks : Inputs → ApiRecord → List Check
api_checks inputs api =
    check (not api.tested) inputs.repo (codes "public API has no unit-test identity") api.usr
    ∷ check (not api.conformance_seen) inputs.repo
        (codes "public API has no generated conformance contract") api.usr
    ∷ check (not api.instrumentation_seen) inputs.instrumentation
        (codes "public API has no instrumentation identity") api.usr
    ∷ check (api.trace_applicable && api.enters == 0) inputs.model
        (codes "traced API has no runtime invocation") api.name
    ∷ check (api.trace_applicable && not (api.enters == api.exits)) inputs.model
        (codes "runtime ENTER/EXIT counts are unbalanced") api.name
    ∷ check (api.fault_test && api.enters == 0) inputs.model (codes "fault test emitted no call")
        api.name
    ∷ check (api.require_arguments && not api.arguments) inputs.model
        (codes "required arguments were not logged") api.name
    ∷ check (api.require_result && not api.result) inputs.model
        (codes "required result was not logged") api.name
    ∷ []

-- The test on an expected fault.
abbrev pub fault_checks : Inputs → ExpectedFault → List Check
fault_checks inputs fault =
    check (not fault.observed) inputs.outcomes (codes "missing direct platform fault outcome")
      fault.wrapper
    ∷ []

module _ (S : System) (L : ConformanceLibrary S) (inputs : Inputs) where
  open S use {World}

  -- `if(test) { finding(...); }`
  unfoldable pub report_when : Check → Conformance → M World Conformance
  unfolding finding
  report_when k c =
      if k.test then finding S L k.path inputs.library k.message k.identity c else return c

  unfoldable pub report_all : List Check → Conformance → M World Conformance
  unfolding report_when
  report_all [] c = return c
  report_all (k ∷ ks) c = do c' ← report_when k c; report_all ks c'

  -- The loop over the functions.
  unfoldable pub check_apis : List ApiRecord → Conformance → M World Conformance
  unfolding report_all api_checks
  check_apis [] c = return c
  check_apis (api ∷ apis) c = do c' ← report_all (api_checks inputs api) c; check_apis apis c'

  unfoldable pub check_faults : List ExpectedFault → Conformance → M World Conformance
  unfolding report_all
  check_faults [] c = return c
  check_faults (fault ∷ faults) c = do
    c' ← report_all (fault_checks inputs fault) c
    check_faults faults c'

  -- Whether the library conforms, and the state with its findings.
  unfoldable pub validate_conformance : Conformance → M World (Bool × Conformance)
  unfolding check_apis check_faults
  validate_conformance c = do
    c' ← check_apis c.apis c
    c'' ← check_faults c.faults c'
    return (c''.findings == 0, c'')
