-- ===== src/Tests/Mutants.antt =====
-- A run of test-mutation (components/mutation) on the small system, in which a mutant is killed.
use p101_test.Base.{
  ℕ, ◌≡◌, refl, ◌⊎◌, true, false, Text, codes, Option, none, some, List, [], ◌∷◌, drop, get_or,
  has_failures, State, has_prefix, text_eq, size_add,
}
use p101_test.Mutation.Types.{Candidate, AnalysisRecord, killed}
use p101_test.Mutation.Run.{
  Processes, Waited, reaped, lost, run_command, result_of, pause, poll, react, spawn_arguments,
}
use p101_test.Mutation.Trees.{FileTree, regular}
use p101_test.Mutation.Trees.Copies.{copy_tree, copy_bytes, copy_file, copy_kind, write_all}
use p101_test.Mutation.Trees.Removal.{remove_tree, remove_kind}
use p101_test.Mutation.Library.{MutationLibrary}
use p101_test.Mutation.Command.{
  CompileFacts, build_compile_command, all_texts, command_observer, copy_texts, until_null,
}
use p101_test.Mutation.Execute.{
  MutationResult, Job, execute, rewrite_words, run_mutant, test_mutant,
}
use p101_test.Mutation.Execute.Soundness.{IsSound, execute-IsSound}
use p101_test.Mutation.Options.{
  parse_arguments, parse_words, single_word, valued_option, parse_size, parse_timeout,
  raise_unknown_operator,
}
use p101_test.Mutation.Program.{asks_help, main, analyse, check_candidates, execute_all}
use p101_test.Mutation.Program.Passing.{Passed, main-passes}
use p101_test.Mutation.Apply.{apply_candidate, edit, is_current, apply_at}
use p101_test.Mutation.Candidates.{copy_text, candidate_observer, operator_selected}
use p101_test.Mutation.Compile.{
  copy_arguments, compile_option_takes_value, is_compile_output_option,
}
use p101_test.Mutation.Paths.{rewrite_path, is_in_project, rewrite_canonical}
use p101_test.Mutation.Report.{
  count_results, outcome_of_run, report_check, report_results, report_survivors,
}
use p101_test.Mutation.Status.{outcome_of, add_outcome, status_from}
use p101_test.Tests.{Desk, desk, clear_desk, first_line}
use p101_test.Tests.Options.{library_with, slow_tree}

-- Each child ends with the status in front of the next line.
abbrev ended : Option Text → Waited
ended none = lost
ended (some line) = reaped (get_or line 0 0)

abbrev children : Processes desk
children = record {
  Time = ℕ;
  Timeout = ℕ;
  is_expired = λ timeout started now. false;
  clock_gettime = λ w. (0, none, w);
  posix_spawnp = λ file arguments w. (true, none, w);
  waitpid_nohang = λ w. (ended (first_line w.lines), none, record w { lines = drop 1 w.lines });
  waitpid = λ w. (tt, none, w);
  kill = λ w. (tt, none, w);
  nanosleep = λ w. (tt, none, w);
}

abbrev library : MutationLibrary desk children
library = library_with children 120

-- A project that is one file.
abbrev one_file : FileTree desk
one_file = record slow_tree { lstat = λ path w. (some (regular 420), none, w) }

abbrev plus : AnalysisRecord
plus = record {
  is_mutation = true;
  mutation = 1;
  path = codes "p.c";
  line = 1;
  start_offset = 1;
  end_offset = 2;
  name = codes "+";
  replacement = codes "-";
}

abbrev facts : CompileFacts desk
facts = record {
  with_compile_command = λ database path observe source.
      observe (codes "/") (codes "cc" ∷ codes "-c" ∷ codes "p.c" ∷ []) source;
  analysis_scan = λ database project observe candidates. observe plus candidates;
  error_message = λ raised. codes "failed";
}

-- The children: the baseline, the compiler, and the test command, which exits with 1.
abbrev three_children : State Desk
three_children = record {
  raised = [];
  world = record clear_desk { lines = (0 ∷ []) ∷ (0 ∷ []) ∷ (256 ∷ []) ∷ []; left = codes "a+b" };
}

abbrev two_children : State Desk
two_children = record {
  raised = [];
  world = record clear_desk { lines = (0 ∷ []) ∷ (256 ∷ []) ∷ []; left = codes "a+b" };
}

abbrev command_line : List Text
command_line =
    codes "test-mutation"
    ∷ codes "--compile-db"
    ∷ codes "db"
    ∷ codes "p.c"
    ∷ codes "--"
    ∷ codes "check"
    ∷ []

abbrev job : Job ℕ
job = record {
  project = codes "p.c";
  compile_database = codes "db";
  timeout = 120;
  test_command = codes "check" ∷ [];
}

abbrev minus : Candidate
minus = record {
  path = codes "p.c";
  line = 1;
  start = 1;
  end = 2;
  original = some (codes "+");
  replacement = some (codes "-");
  kind = 1;
}

abbrev killed_minus : MutationResult
killed_minus = record {
  candidate = minus;
  outcome = killed;
  return_code = some 1;
  timed_out = false;
}

minus_killed :
    (execute desk children one_file facts 1 1 job minus two_children).0 ≡ some (some killed_minus)
unfolding execute has_prefix text_eq remove_tree copy_tree copy_bytes copy_file copy_kind
    remove_kind write_all apply_candidate edit is_current apply_at build_compile_command all_texts
    command_observer copy_texts until_null copy_text copy_arguments compile_option_takes_value
    is_compile_output_option rewrite_path is_in_project rewrite_canonical run_command result_of
    pause poll react spawn_arguments rewrite_words run_mutant test_mutant outcome_of
minus_killed = refl

execute-IsSound_example :
    IsSound desk children one_file facts 1 1 job minus two_children killed_minus
execute-IsSound_example =
    execute-IsSound desk children one_file facts 1 1 job minus two_children killed_minus
      minus_killed

run_passes : (main desk children library one_file facts 1 1 command_line three_children).0 ≡ some 0
unfolding main parse_arguments execute has_prefix text_eq remove_tree copy_tree copy_bytes copy_file
    copy_kind remove_kind write_all apply_candidate edit is_current apply_at build_compile_command
    all_texts command_observer copy_texts until_null copy_text copy_arguments
    compile_option_takes_value is_compile_output_option rewrite_path is_in_project rewrite_canonical
    run_command result_of pause poll react spawn_arguments rewrite_words run_mutant test_mutant
    outcome_of candidate_observer operator_selected parse_words single_word valued_option parse_size
    parse_timeout raise_unknown_operator analyse check_candidates execute_all count_results
    outcome_of_run report_check report_results report_survivors add_outcome status_from size_add
run_passes = refl

main-passes_example :
    let parsed = parse_arguments desk children library command_line three_children in
    (has_failures
        (main desk children library one_file facts 1 1 command_line three_children).1.raised
      ≡ false)
    × ((asks_help command_line ≡ true)
        ⊎ ((parsed.0.0 ≡ true)
            × Passed desk children library one_file facts 1 1 parsed.0.1 parsed.1))
main-passes_example =
    main-passes desk children library one_file facts 1 1 command_line three_children run_passes
