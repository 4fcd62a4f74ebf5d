-- ===== src/Tests/Contract.antt =====
-- The contracts of components/command-contract on the small system.
use p101_test.Base.{
  ◌≡◌, ◌<◌, ◌+◌, ◌*◌, ◌↔◌, ◌⊎◌, refl, true, false, codes, none, some, [], ◌∷◌, length, size_add,
  text_eq, decimal, arith,
}
use p101_test.Contract.Types.{RunCapture, Timespec, ContractLibrary}
use p101_test.Contract.Captured.{captured_contains, captured_equal}
use p101_test.Contract.Captured.Search.{IsInside}
use p101_test.Contract.Limits.{output_exceeded, time_exceeded, status_differs}
use p101_test.Contract.Limits.Exact.{total}
use p101_test.Contract.Files.{run_command, read_file}
use p101_test.Contract.Checks.{
  check_redaction, check_output, check_time, check_status, report_if, emit_finding,
}
use p101_test.Contract.Checks.Verdicts.{
  Limited, check_redaction_lem, check_output_lem, check_time_lem,
}
use p101_test.Contract.Program.{check_determinism, check_side_effects, runs_differ}
use p101_test.Base.{if◌then◌else◌, has_failures, List, Bool, Text}
use p101_test.Contract.Types.{output_limit, exit_trouble, exit_finding}
use p101_test.Contract.Request.{parse_request}
use p101_test.Contract.Request.RoundTrip.{request_words, parse_request-request_words}
use p101_test.Contract.Program.{main, main_body}
use p101_test.Contract.Program.Outcome.{Answered, contract-decided}
use p101_test.Contract.Program.Determinism.{
  AreAlike, EffectsRead, check_determinism_lem, check_side_effects-EffectsRead,
}
use p101_test.Tests.{desk, start, digit}

abbrev contract_library : ContractLibrary desk
contract_library = record {
  parse_outputs = λ t. some 1;
  default_outputs = 1;
  is_human = λ n. true;
  is_json = λ n. false;
  diagnose = λ human json finding message w. ((0, 0), none, w);
  parse_unsigned_long_long = digit;
  parse_errno = λ t. 22;
  clock_gettime = λ w. (some (record { seconds = 1; nanoseconds = 0 }), none, w);
  unlink = λ path w. (tt, none, w);
  default_tmpdir = codes "/tmp";
  error_message = λ raised. codes "failed";
}

abbrev chatty : RunCapture
chatty = record { standard_output = codes "key=7"; standard_error = []; status = 256 }

abbrev silent : RunCapture
silent = record { standard_output = []; standard_error = []; status = 0 }

abbrev early : Timespec
early = record { seconds = 1; nanoseconds = 900000000 }

abbrev late : Timespec
late = record { seconds = 3; nanoseconds = 1 }

disclosed : (check_redaction desk contract_library 1 (codes "7") chatty start).0 ≡ some true
unfolding check_redaction report_if emit_finding captured_contains text_eq
disclosed = refl

check_redaction_lem_example :
    ¬ (codes "7" ≡ [])
    × ((true ≡ true) ↔ (
        IsInside (codes "7") chatty.standard_output ⊎ IsInside (codes "7") chatty.standard_error))
check_redaction_lem_example =
    check_redaction_lem desk contract_library 1 (codes "7") chatty start true disclosed

too_long : (check_output desk contract_library 1 (codes "4") chatty start).0 ≡ some true
unfolding check_output report_if emit_finding output_exceeded size_add
too_long = refl

check_output_lem_example :
    Limited desk contract_library
      (codes "4")
      true
      (λ maximum. maximum < length chatty.standard_output + length chatty.standard_error)
check_output_lem_example =
    check_output_lem desk contract_library 1 (codes "4") chatty start true (omega arith)
      (omega arith) too_long

too_slow : (check_time desk contract_library 1 (codes "9") early late start).0 ≡ some true
unfolding check_time report_if emit_finding time_exceeded
too_slow = refl

check_time_lem_example :
    Limited desk contract_library
      (codes "9")
      true
      (λ maximum. total early + 1000000 * maximum < total late)
check_time_lem_example =
    check_time_lem desk contract_library 1 (codes "9") early late start true (omega arith)
      (omega arith) (omega arith) too_slow

recovered :
    (check_status desk contract_library 1 (codes "1") (codes "F") (codes "m") chatty start).0
    ≡ some false
unfolding check_status report_if emit_finding status_differs
recovered = refl

same_twice :
    (check_determinism desk contract_library 1 (codes "true" ∷ []) (codes "/tmp/p") silent start).0
    ≡ some false
unfolding check_determinism run_command read_file report_if runs_differ captured_equal text_eq
    decimal
same_twice = refl

check_determinism_lem_example :
    (second : RunCapture) × ((run_command desk contract_library
        (codes "true" ∷ [])
        (codes "/tmp/p")
        2
        start).0
      ≡ some second)
    × ((false ≡ false) ↔ AreAlike silent second)
check_determinism_lem_example =
    check_determinism_lem desk contract_library 1 (codes "true" ∷ []) (codes "/tmp/p") silent start
      false same_twice

no_effects :
    (check_side_effects desk contract_library 1
      (codes "m")
      (codes "true" ∷ [])
      (codes "/tmp/p")
      silent
      start).0
    ≡ some false
unfolding check_side_effects run_command read_file report_if runs_differ captured_equal text_eq
    decimal
no_effects = refl

check_side_effects-EffectsRead_example :
    EffectsRead desk contract_library
      (codes "m")
      (codes "true" ∷ [])
      (codes "/tmp/p")
      silent
      start
      false
check_side_effects-EffectsRead_example =
    check_side_effects-EffectsRead desk contract_library 1 (codes "m") (codes "true" ∷ [])
      (codes "/tmp/p") silent start false no_effects

parse_request-request_words_example :
    parse_request (request_words output_limit (codes "9") (codes "true" ∷ []))
    ≡ some (record { mode = output_limit; value = codes "9"; command = codes "true" ∷ [] })
parse_request-request_words_example =
    parse_request-request_words output_limit (codes "9") (codes "true") []

abbrev words : List Text
words = codes "test-command-contract" ∷ request_words output_limit (codes "9") (codes "true" ∷ [])

contract-decided_example :
    (((main desk contract_library words start).0 ≡ exit_trouble)
      × ((has_failures (main desk contract_library words start).1.raised ≡ true)
          ⊎ ((main_body desk contract_library words start).0.0 ≡ none)))
    ⊎ ((has_failures (main desk contract_library words start).1.raised ≡ false)
        × ((found : Bool) × ((main desk contract_library words start).0
              ≡ (if found then exit_finding else 0))
            × Answered desk contract_library words start found))
contract-decided_example = contract-decided desk contract_library words start
