-- ===== src/Contract/Program.antt =====
-- components/command-contract/src/main.c: the program.
pub mod Determinism
pub mod Answers
pub mod Outcome
use p101_test.Base.{
  ℕ, zero, suc, ◌+◌, ◌-◌, ◌%◌, Text, codes, Bool, true, false, not, ◌&&◌, ◌||◌, Option, none, some,
  List, [], ◌∷◌, ◌++◌, leb, ltb, ◌==◌, if◌then◌else◌, length, drop, get_or, text_eq, has_prefix,
  decimal, size_mod, Failure, user, errno, State, M, ◌>>=◌, ◌>>◌, return, call, call_optional,
  raise, has_failures, has_error,
}
use p101_test.System.{System, stdout, stderr}
use p101_test.Contract.Types.{
  prefix_size, exit_finding, exit_trouble, Mode, determinism, redaction, output_limit, time_limit,
  recovery, schema_compatibility, side_effect_determinism, RunCapture, Timespec, ContractLibrary,
}
use p101_test.Contract.Captured.{captured_equal}
use p101_test.Contract.Request.{Request, parse_request}
use p101_test.Contract.Usage.{usage_text}
use p101_test.Contract.Files.{run_command, read_file, remove_capture_files, fitting}
use p101_test.Contract.Checks.{
  report_if, check_redaction, check_output, check_time, check_status, einval,
}

-- The two runs differ in their status or their output.
unfoldable pub runs_differ : RunCapture → RunCapture → Bool
runs_differ first second =
    not (first.status == second.status)
    || not (captured_equal first.standard_output second.standard_output)
    || not (captured_equal first.standard_error second.standard_error)

abbrev no_time : Timespec
no_time = record { seconds = 0; nanoseconds = 0 }

-- TMPDIR, or the system's directory where it is not set or empty.
abbrev pub tmp_dir : Text → Option Text → Text
tmp_dir default none = default
tmp_dir default (some []) = default
tmp_dir default (some (c ∷ dir)) = c ∷ dir

module _ (S : System) (L : ContractLibrary S) where
  open S use {
    World, Stream, snprintf, put, getpid, fopen, fclose, fread, fseek_end, fseek_start, ftell,
    allocate, tool_run_capture, getenv,
  }

  pub second_run : ℕ → RunCapture → Option RunCapture → M World (Option Bool)
  second_run outputs first none = return none
  second_run outputs first (some second) =
      report_if S L (runs_differ first second) outputs (codes "TEST_DETERMINISM_001")
        (codes "identical admitted inputs produced different exit status or output bytes")

  unfoldable pub check_determinism : ℕ → List Text → Text → RunCapture → M World (Option Bool)
  unfolding second_run
  check_determinism outputs command prefix first = do
    second ← run_command S L command prefix 2
    second_run outputs first second

  pub compare_effects : ℕ → RunCapture → RunCapture → Text → Option Text → M World (Option Bool)
  compare_effects outputs first second effects none = return none
  compare_effects outputs first second effects (some effects') =
      report_if S L (runs_differ first second || not (captured_equal effects effects')) outputs
        (codes "TEST_SIDE_EFFECT_001")
        (codes
          "identical admitted inputs produced different exit status, output bytes, or declared filesystem-effect manifest bytes")

  pub second_effects : ℕ → Text → RunCapture → Text → Option RunCapture → M World (Option Bool)
  unfolding compare_effects
  second_effects outputs value first effects none = return none
  second_effects outputs value first effects (some second) = do
    effects' ← read_file S L value
    compare_effects outputs first second effects effects'

  pub first_effects : ℕ → Text → List Text → Text → RunCapture → Option Text → M World (Option Bool)
  unfolding second_effects
  first_effects outputs value command prefix first none = return none
  first_effects outputs value command prefix first (some effects) = do
    second ← run_command S L command prefix 2
    second_effects outputs value first effects second

  unfoldable pub check_side_effects :
      ℕ → Text → List Text → Text → RunCapture → M World (Option Bool)
  unfolding first_effects
  check_side_effects outputs value command prefix first = do
    effects ← read_file S L value
    first_effects outputs value command prefix first effects

  -- The contract of the mode, behind the first run.
  unfoldable pub check_contract :
      ℕ → Mode → Text → List Text → Text → Timespec → Timespec → RunCapture → M World (Option Bool)
  unfolding check_determinism check_side_effects
  check_contract outputs determinism value command prefix started finished first =
      check_determinism outputs command prefix first
  check_contract outputs side_effect_determinism value command prefix started finished first =
      check_side_effects outputs value command prefix first
  check_contract outputs redaction value command prefix started finished first =
      check_redaction S L outputs value first
  check_contract outputs output_limit value command prefix started finished first =
      check_output S L outputs value first
  check_contract outputs time_limit value command prefix started finished first =
      check_time S L outputs value started finished
  check_contract outputs recovery value command prefix started finished first =
      check_status S L outputs value (codes "TEST_RECOVERY_001")
        (codes "the admitted fault scenario did not produce the caller's expected recovery status")
        first
  check_contract outputs schema_compatibility value command prefix started finished first =
      check_status S L outputs value (codes "SCHEMA_001")
        (codes "the admitted compatibility fixture did not produce its expected status") first

  -- The clock is read in the mode that needs it.
  pub read_clock : Mode → M World (Option Timespec)
  read_clock time_limit = call L.clock_gettime
  read_clock mode = return (some no_time)

  finished_at : ℕ → Request → Text → Timespec → RunCapture → Option Timespec → M World (Option Bool)
  unfolding check_contract
  finished_at outputs request prefix started first none = return none
  finished_at outputs request prefix started first (some finished) =
      check_contract outputs request.mode request.value request.command prefix started finished
        first

  first_run : ℕ → Request → Text → Timespec → Option RunCapture → M World (Option Bool)
  unfolding finished_at read_clock
  first_run outputs request prefix started none = return none
  first_run outputs request prefix started (some first) = do
    finished ← read_clock request.mode
    finished_at outputs request prefix started first finished

  started_at : ℕ → Request → Text → Option Timespec → M World (Option Bool)
  unfolding first_run
  started_at outputs request prefix none = return none
  started_at outputs request prefix (some started) = do
    first ← run_command S L request.command prefix 1
    first_run outputs request prefix started first

  with_prefix : ℕ → Request → Option Text → M World (Option Bool)
  unfolding started_at read_clock
  with_prefix outputs request none = return none
  with_prefix outputs request (some prefix) = do
    started ← read_clock request.mode
    started_at outputs request prefix started

  -- Whether there was a finding, `none` on `goto done`; and what the prefix's buffer holds.
  unfoldable pub run_request : ℕ → Request → M World (Option Bool × Text)
  unfolding with_prefix
  run_request outputs request = do
    pid ← call_optional getpid
    dir ← (λ s. (tmp_dir L.default_tmpdir (getenv (codes "TMPDIR") s.world), s))
    written ← call (snprintf prefix_size (dir ++ codes "/p101-command-contract-" ++ decimal pid))
    result ← with_prefix outputs request (fitting written)
    return (result, written.1)

  -- The loop over the output options: the selection and the words that are left.
  unfoldable pub parse_options : List Text → ℕ → M World (Option (ℕ × List Text))
  parse_options [] outputs = return (some (outputs, []))
  parse_options (word ∷ words) outputs =
      let again = parse_options words in
      if not (has_prefix word (codes "-d:"))
      then return (some (outputs, word ∷ words))
      else elim (L.parse_outputs (drop 3 word)) [
        | none ↦ do raise (user (codes "invalid diagnostic output selection") einval); return none
        | some selected ↦ again selected
      ]

  answer : Text → ℕ → Option Request → M World (Option Bool × Text)
  unfolding run_request
  answer program outputs none = do
    call_optional (put stderr (usage_text program))
    return (none, [])
  answer program outputs (some request) = run_request outputs request

  selected : Text → Option (ℕ × List Text) → M World (Option Bool × Text)
  unfolding answer
  selected program none = return (none, [])
  selected program (some (outputs, words)) = answer program outputs (parse_request words)

  -- The program up to `done`.
  unfoldable pub main_body : List Text → M World (Option Bool × Text)
  unfolding selected
  main_body argv = do
    options ← parse_options (drop 1 argv) L.default_outputs
    selected (get_or argv 0 []) options

  abbrev pub status_of : Option Bool → ℕ
  status_of none = exit_trouble
  status_of (some true) = exit_finding
  status_of (some false) = 0

  pub report_failure : Text → M World (Unit {0})
  report_failure program s =
      call_optional
        (put stderr (
          program
          ++ codes ":1:1: error: "
          ++ L.error_message s.raised
          ++ codes " [P101-TEST-TROUBLE]"
          ++ (b'\n' ∷ [])))
        s

  unfoldable pub main : List Text → M World ℕ
  unfolding main_body report_failure
  main argv = do
    ended ← main_body argv
    remove_capture_files S L ended.1 2
    remove_capture_files S L ended.1 1
    failed ← has_error
    if failed
        then (do report_failure (get_or argv 0 []); return exit_trouble)
        else return (status_of ended.0)
