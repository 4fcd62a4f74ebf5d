-- ===== src/Tests/Faults.antt =====
-- The campaign of src/runner.c on the small system.
use p101_test.Base.{
  ◌≡◌, ◌&&◌, ◌⊎◌, ◌≤◌, refl, ◌==◌, true, false, Bool, has_failures, arith, decimal, text_eq, Text,
  codes, some, List, [], ◌∷◌, ◌<◌, length, if◌then◌else◌, size_add, errno,
}
use p101_test.System.{System}
use p101_test.Faults.Types.{exit_success, exit_trouble, RunResult, name_len}
use p101_test.Faults.Limits.{max_failures_limit}
use p101_test.Faults.Variables.{fault_variables}
use p101_test.Faults.Case.{
  run_one_case, case_body, unless_error, set_and_run, run_and_summarise, run_and_read,
  read_summaries, clear_fault_environment, set_fault_environment, set_optional, run_p101_pipeline,
  tool_prefix, read_analysis, read_resources, set_number, unset_all, new_result,
}
use p101_test.Faults.Paths.{make_log_paths, join_path, file_exists, run_dir_text}
use p101_test.Faults.Paths.FaultLog.{read_fault_hit, scan_log, scan_lines, scan_line}
use p101_test.Faults.Printer.{print_run_result}
use p101_test.Faults.Policy.{
  read_policy_json, read_stream, read_loop, grow_and_read, read_chunk, next_capacity,
}
use p101_test.Faults.Status.{pipeline_status_is_acceptable, analysis_finding_count}
use p101_test.Faults.Groups.{FaultGroup, fault_group_limit, update_fault_group, group_name}
use p101_test.Faults.Groups.Table.{IsTable, update_fault_group-IsTable}
use p101_test.Faults.Groups.Counts.{
  counts_of, is_counted, plus_run, total_findings, counts_of-update_fault_group,
}
use p101_test.Faults.Case.Environment.{
  IsEnvironment, ChildSees, NoFaultLeft, run_one_case-unset, child_environment,
}
use p101_test.Faults.Campaign.{
  walk, run, run_cases, run_case, judge_case, after_case, run_baseline, print_totals,
  count_baseline, count_case, count_hit, print_fault_groups,
}
use p101_test.Faults.Campaign.Outcome.{Cases, verdict, baseline_of, loop_start, run-verdict}
use p101_test.Faults.Campaign.Totals.{walk-findings}
use p101_test.Faults.Cli.{initial_arguments, parse_arguments}
use p101_test.Faults.Cli.Convert.{
  convert_arguments, convert_count, convert_errno, convert_amount, convert_repeat,
}
use p101_test.Faults.Cli.Convert.Numbers.{Conversion, convert_arguments-Conversion}
use p101_test.Faults.Main.{main, main_body}
use p101_test.Faults.Main.Outcome.{Ran, main-decided}
use p101_test.Tests.{desk, library, arguments, start}

baseline_ok : ((run_one_case desk library arguments 0 start).0.0 == exit_success) ≡ true
unfolding run_one_case clear_fault_environment fault_variables unless_error make_log_paths arguments
    decimal case_body set_and_run set_fault_environment set_optional run_and_summarise run_and_read
    read_fault_hit text_eq run_p101_pipeline tool_prefix read_summaries read_analysis read_resources
    set_number unset_all initial_arguments scan_log scan_lines scan_line file_exists run_dir_text
    join_path read_policy_json read_stream read_loop grow_and_read read_chunk next_capacity
    pipeline_status_is_acceptable
baseline_ok = refl

run-verdict_example :
    (results : List RunResult) × (aborted : Bool) × Cases desk library arguments 1 1
      (loop_start desk library arguments start)
      results
      aborted
    × ((run desk library arguments start).0
        ≡ verdict
            (has_failures (run desk library arguments start).1.raised)
            aborted
            (baseline_of desk library arguments start)
            results)
unfolding arguments
run-verdict_example = run-verdict desk library arguments start baseline_ok

no_groups : length (walk desk library arguments start).0.0.groups ≡ 0
unfolding run_one_case clear_fault_environment fault_variables unless_error make_log_paths arguments
    decimal case_body set_and_run set_fault_environment set_optional run_and_summarise run_and_read
    read_fault_hit text_eq run_p101_pipeline tool_prefix read_summaries read_analysis read_resources
    set_number unset_all initial_arguments scan_log scan_lines scan_line file_exists run_dir_text
    join_path read_policy_json read_stream read_loop grow_and_read read_chunk next_capacity
    pipeline_status_is_acceptable walk run_cases run_case judge_case after_case run_baseline
    print_totals count_baseline count_case count_hit print_run_result print_fault_groups
no_groups = refl

table_has_room : length (walk desk library arguments start).0.0.groups < fault_group_limit
table_has_room = omega (arith, no_groups)

walk-findings_example :
    (walk desk library arguments start).0.0.findings
    ≡ size_add
        (size_add 0 (analysis_finding_count (run_one_case desk library arguments 0 start).0.1))
        (total_findings (walk desk library arguments start).0.0.groups)
walk-findings_example = walk-findings desk library arguments start baseline_ok table_has_room

-- A system whose calls of `getpid` fail.
abbrev broken_desk : System
broken_desk = record desk { getpid = λ w. (0, some (errno 1), w) }

baseline_fails : ((run_one_case broken_desk library arguments 0 start).0.0 == exit_success) ≡ false
unfolding run_one_case clear_fault_environment fault_variables unless_error make_log_paths arguments
    decimal case_body set_and_run set_fault_environment set_optional run_and_summarise run_and_read
    read_fault_hit text_eq run_p101_pipeline tool_prefix read_summaries read_analysis read_resources
    set_number unset_all initial_arguments scan_log scan_lines scan_line file_exists run_dir_text
    join_path read_policy_json read_stream read_loop grow_and_read read_chunk next_capacity
    pipeline_status_is_acceptable
baseline_fails = refl

-- A fault that fired in `p101_open`.
abbrev hit_result : RunResult
hit_result = record (new_result 2) { fault_hit = true; fault_name = codes "p101_open" }

abbrev one_group : List FaultGroup
one_group = record { name = codes "p101_read"; runs = 1; findings = 2 } ∷ []

one_group-IsTable : IsTable fault_group_limit one_group
one_group-IsTable = record { fits = omega arith; distinct = (tt, tt); short = (omega arith, tt) }

update_fault_group-IsTable_example :
    IsTable fault_group_limit (update_fault_group one_group hit_result)
update_fault_group-IsTable_example =
    update_fault_group-IsTable one_group hit_result (omega arith) one_group-IsTable

group_name_fits : length (group_name hit_result) < name_len
unfolding group_name text_eq
group_name_fits = omega arith

counts_of-update_fault_group_example :
    counts_of (codes "p101_open") (update_fault_group one_group hit_result) ≡ (
      if text_eq (group_name hit_result) (codes "p101_open") && is_counted one_group hit_result
      then plus_run (analysis_finding_count hit_result) (counts_of (codes "p101_open") one_group)
      else counts_of (codes "p101_open") one_group)
counts_of-update_fault_group_example =
    counts_of-update_fault_group (codes "p101_open") one_group hit_result group_name_fits

desk-IsEnvironment : IsEnvironment desk
desk-IsEnvironment = record {
  getenv-unsetenv = λ j k w. refl;
  getenv-setenv = λ j k v w. refl;
  getenv-snprintf = λ j size t w. refl;
  snprintf_text = λ size t w. refl;
}

run_one_case-unset_example :
    NoFaultLeft desk library desk-IsEnvironment
      (run_one_case desk library arguments 1 start).1.world
run_one_case-unset_example = run_one_case-unset desk library desk-IsEnvironment arguments 1 start

child_environment_example :
    ChildSees desk library desk-IsEnvironment arguments hit_result
      (set_fault_environment desk library arguments hit_result
        (clear_fault_environment desk library start).1).1.world
child_environment_example =
    child_environment desk library desk-IsEnvironment arguments hit_result start

conversion_quiet : has_failures (convert_arguments desk library arguments start).1.raised ≡ false
unfolding convert_arguments arguments initial_arguments convert_count convert_errno convert_amount
    convert_repeat
conversion_quiet = refl

count_bounded : arguments.max_failures ≤ max_failures_limit
unfolding arguments
count_bounded = omega arith

convert_arguments-Conversion_example :
    Conversion library arguments (convert_arguments desk library arguments start).0
convert_arguments-Conversion_example =
    convert_arguments-Conversion desk library arguments start count_bounded refl conversion_quiet

abbrev command_line : List Text
command_line = codes "test-faults" ∷ codes "-n3" ∷ codes "true" ∷ []

main-decided_example :
    ((main desk library command_line start).0 ≡ exit_trouble)
    ⊎ (((main_body desk library command_line start).1.raised ≡ [])
        × ((((parse_arguments desk library command_line initial_arguments start).0.show_help ≡ true)
              × ((main desk library command_line start).0 ≡ exit_success))
            ⊎ Ran desk library
                (parse_arguments desk library command_line initial_arguments start).0
                (main desk library command_line start).0))
main-decided_example = main-decided desk library command_line start
