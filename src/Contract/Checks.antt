-- ===== src/Contract/Checks.antt =====
-- components/command-contract/src/main.c: the contracts on one run.
pub mod Verdicts
pub mod Measured
use p101_test.Base.{
  ℕ, zero, suc, ◌+◌, ◌-◌, ◌%◌, Text, codes, Bool, true, false, not, ◌&&◌, ◌||◌, Option, none, some,
  List, [], ◌∷◌, ◌++◌, leb, ltb, ◌==◌, if◌then◌else◌, length, drop, get_or, text_eq, has_prefix,
  decimal, size_mod, Failure, user, errno, State, M, ◌>>=◌, ◌>>◌, return, call, call_optional,
  raise, has_failures, has_error,
}
use p101_test.System.{System, stdout, stderr}
use p101_test.Contract.Types.{
  prefix_size, exit_finding, exit_trouble, Mode, determinism, redaction, output_limit, time_limit,
  recovery, schema_compatibility, side_effect_determinism, RunCapture, Timespec, ContractLibrary,
}
use p101_test.Contract.Captured.{captured_equal, captured_contains}
use p101_test.Contract.Limits.{output_exceeded, time_exceeded, status_differs}

abbrev pub einval : ℕ
einval = 22

abbrev pub eio : ℕ
eio = 5

module _ (S : System) (L : ContractLibrary S) where
  open S use {
    World, Stream, snprintf, put, getpid, fopen, fclose, fread, fseek_end, fseek_start, ftell,
    allocate, tool_run_capture, getenv,
  }

  emitted : Bool → ℕ → ℕ → M World ℕ
  emitted json status code =
      if not (status == 0)
      then (do raise (errno (if code == 0 then eio else code)); return status)
      else if json
      then (do call (put stdout (b'\n' ∷ [])); return status)
      else return status

  unfoldable pub emit_finding : ℕ → Text → Text → M World ℕ
  unfolding emitted
  emit_finding outputs finding message = do
    result ← call (L.diagnose (L.is_human outputs) (L.is_json outputs) finding message)
    emitted (L.is_json outputs) result.0 result.1

  -- A finding where the test says so: `some` is whether there was one, `none` is `goto done`.
  unfoldable pub report_if : Bool → ℕ → Text → Text → M World (Option Bool)
  report_if false outputs finding message = return (some false)
  report_if true outputs finding message = do
    status ← emit_finding outputs finding message
    return (if status == 0 then some true else none)

  pub refuse : Text → M World (Option Bool)
  refuse message = do raise (user message einval); return none

  -- `p101_parse_unsigned_long_long` with its default 0.
  pub parsed_number : Option ℕ → Text → M World ℕ
  parsed_number none text = do raise (errno (L.parse_errno text)); return 0
  parsed_number (some n) text = return n

  unfoldable pub check_redaction : ℕ → Text → RunCapture → M World (Option Bool)
  unfolding refuse
  check_redaction outputs [] first = refuse (codes "the sensitive probe must not be empty")
  check_redaction outputs (c ∷ probe) first =
      report_if
        (captured_contains first.standard_output (c ∷ probe)
          || captured_contains first.standard_error (c ∷ probe))
        outputs (codes "DATA_001") (codes "command output disclosed the admitted sensitive probe")

  unfoldable pub check_output : ℕ → Text → RunCapture → M World (Option Bool)
  unfolding refuse parsed_number
  check_output outputs value first = do
    maximum ← parsed_number (L.parse_unsigned_long_long value) value
    failed ← has_error
    if failed || not (maximum % size_mod == maximum)
        then refuse (codes "the output limit must be a representable byte count")
        else report_if
            (output_exceeded (length first.standard_output) (length first.standard_error)
              (maximum % size_mod))
            outputs (codes "RESOURCE_006")
            (codes "command output exceeded its admitted byte budget")

  unfoldable pub check_time : ℕ → Text → Timespec → Timespec → M World (Option Bool)
  unfolding refuse parsed_number
  check_time outputs value started finished = do
    maximum ← parsed_number (L.parse_unsigned_long_long value) value
    failed ← has_error
    if failed
        then refuse (codes "the time limit must be a representable millisecond count")
        else report_if (time_exceeded started finished maximum) outputs (codes "TIME_001")
            (codes "command exceeded its admitted monotonic elapsed-time budget")

  unfoldable pub check_status : ℕ → Text → Text → Text → RunCapture → M World (Option Bool)
  unfolding refuse parsed_number
  check_status outputs value finding message first = do
    expected ← parsed_number (L.parse_unsigned_long_long value) value
    failed ← has_error
    if failed || ltb 255 expected
        then refuse (codes "the expected exit status must be between 0 and 255")
        else report_if (status_differs first.status expected) outputs finding message
