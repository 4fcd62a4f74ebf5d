-- ===== src/Faults/Printer.antt =====
-- src/printer.c: the line that is printed for a case.
use p101_test.Base.{
  ℕ, Text, codes, ◌&&◌, [], ◌++◌, ◌==◌, if◌then◌else◌, text_eq, decimal, exited, exit_status,
  term_signal, M, ◌>>◌, call,
}
use p101_test.System.{System, stdout}
use p101_test.Faults.Types.{RunResult}

-- `n == 1 ? "" : "s"`
abbrev pub plural : ℕ → Text
plural n = if n == 1 then codes "" else codes "s"

module _ (S : System) where
  open S use {World, put}

  unfoldable pub print_status_text : ℕ → M World (Unit {0})
  print_status_text status =
      if exited status
      then call (put stdout (codes "exit=" ++ decimal (exit_status status)))
      else call (put stdout (codes "signal=" ++ decimal (term_signal status)))

  print_case : RunResult → M World (Unit {0})
  print_case result =
      if result.fault_index == 0 then call (put stdout (codes "test-faults: baseline ")) else do
        call (put stdout (codes "test-faults: fault " ++ decimal result.fault_index ++ codes " "))
        if result.fault_hit
            then call (
                put stdout (
                  codes "hit="
                  ++ (if text_eq result.fault_name [] then codes "?" else result.fault_name)
                  ++ codes " "))
            else call (put stdout (codes "no-hit "))

  print_resources : RunResult → M World (Unit {0})
  print_resources result =
      if result.resource_log_present && result.resources.parsed
      then call (
          put stdout (
            codes " resources(records="
            ++ decimal result.resources.records
            ++ codes " findings="
            ++ decimal result.resources.findings
            ++ codes ")"))
      else call (put stdout (codes " resources(unavailable)"))

  print_analysis : RunResult → M World (Unit {0})
  print_analysis result =
      if result.analysis.parsed
      then call (
          put stdout (codes " analysis(findings=" ++ decimal result.analysis.findings ++ codes ")"))
      else call (put stdout (codes " analysis(unavailable)"))

  -- `p101_error_path_walk_print_run_result`
  unfoldable pub print_run_result : RunResult → M World (Unit {0})
  unfolding print_case print_resources print_analysis print_status_text
  print_run_result result = do
    print_case result
    call (put stdout (codes "pipeline_"))
    print_status_text result.status
    print_resources result
    print_analysis result
    call (
        put stdout (
          codes " run_dir="
          ++ result.run_dir
          ++ codes " capture="
          ++ result.capture_dir
          ++ codes " analysis="
          ++ result.analysis_dir
          ++ codes " resource_log="
          ++ result.resource_log_path
          ++ codes " call_log="
          ++ result.call_log_path
          ++ codes " report="
          ++ result.report_path
          ++ codes "\n"))
