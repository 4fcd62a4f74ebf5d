-- ===== src/Contract/Program/Answers.antt =====
-- What the contract of a mode in components/command-contract/src/main.c finds, behind the first run.
use p101_test.Base.{ℕ, ◌≡◌, ◌↔◌, ◌⊎◌, Text, Bool, true, false, some, List, [], length, State}
use p101_test.System.{System}
use p101_test.Contract.Types.{
  Mode, determinism, redaction, output_limit, time_limit, recovery, schema_compatibility,
  side_effect_determinism, RunCapture, Timespec, ContractLibrary,
}
use p101_test.Contract.Captured.Search.{IsInside}
use p101_test.Contract.Limits.{output_exceeded, time_exceeded, status_differs}
use p101_test.Contract.Files.{run_command}
use p101_test.Contract.Checks.Verdicts.{check_redaction_lem, check_status_lem}
use p101_test.Contract.Checks.Measured.{
  Measured, check_output-Measured, check_time-Measured, status-Measured,
}
use p101_test.Contract.Program.{check_contract}
use p101_test.Contract.Program.Determinism.{
  AreAlike, EffectsRead, check_determinism_lem, check_side_effects-EffectsRead,
}

module _ (S : System) (L : ContractLibrary S) where
  open S use {World}

  -- The second run of the determinism contract, and its comparison with the first.
  pub record Repeated (command : List Text) (prefix : Text) (first : RunCapture) (s : State World)
      (found : Bool) : Type 0 where
    pub second : RunCapture
    pub ran : (run_command S L command prefix 2 s).0 ≡ some second
    pub exact : (found ≡ false) ↔ AreAlike first second

  -- The answer of each mode: whether something is found is told by a comparison with a second run, by the probe
  -- in the outputs, by the limit, by the status, or by a second run and the effects read around it.
  abbrev pub Answer :
      Mode
      → Text
      → List Text
      → Text
      → Timespec
      → Timespec
      → RunCapture
      → State World
      → Bool
      → Type 0
  Answer determinism value command prefix started finished first s found =
      Repeated command prefix first s found
  Answer redaction value command prefix started finished first s found =
      (¬ (value ≡ []))
      × ((found ≡ true)
          ↔ (IsInside value first.standard_output ⊎ IsInside value first.standard_error))
  Answer output_limit value command prefix started finished first s found =
      Measured S L value found
        (output_exceeded (length first.standard_output) (length first.standard_error))
  Answer time_limit value command prefix started finished first s found =
      Measured S L value found (time_exceeded started finished)
  Answer recovery value command prefix started finished first s found =
      Measured S L value found (status_differs first.status)
  Answer schema_compatibility value command prefix started finished first s found =
      Measured S L value found (status_differs first.status)
  Answer side_effect_determinism value command prefix started finished first s found =
      EffectsRead S L value command prefix first s found

  pub check_contract-Answer :
      (outputs : ℕ) (mode : Mode) (value : Text) (command : List Text) (prefix : Text)
      (started finished : Timespec) (first : RunCapture) (s : State World) (found : Bool)
      → (check_contract S L outputs mode value command prefix started finished first s).0
        ≡ some found
      → Answer mode value command prefix started finished first s found
  unfolding check_contract
  check_contract-Answer outputs determinism value command prefix started finished first s found h =
      let (second, ran, exact) = check_determinism_lem S L outputs command prefix first s found h in
      record { second = second; ran = ran; exact = exact }
  check_contract-Answer outputs redaction value command prefix started finished first s found h =
      check_redaction_lem S L outputs value first s found h
  check_contract-Answer outputs output_limit value command prefix started finished first s found h =
      check_output-Measured S L outputs value first s found h
  check_contract-Answer outputs time_limit value command prefix started finished first s found h =
      check_time-Measured S L outputs value started finished s found h
  check_contract-Answer outputs recovery value command prefix started finished first s found h =
      status-Measured S L value first found (check_status_lem S L outputs value _ _ first s found h)
  check_contract-Answer outputs schema_compatibility value command prefix started finished first s
        found h =
      status-Measured S L value first found (check_status_lem S L outputs value _ _ first s found h)
  check_contract-Answer outputs side_effect_determinism value command prefix started finished first
        s found h =
      check_side_effects-EffectsRead S L outputs value command prefix first s found h
