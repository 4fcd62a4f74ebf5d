-- ===== src/Mutation/Program.antt =====
-- components/mutation/src/main.c: the program test-mutation. A result of `none` means that the fuel ran out or
-- that the source goes through a null pointer.
pub mod Killed
pub mod Passing
use p101_test.Base.{
  ℕ, zero, suc, ◌+◌, Text, codes, Bool, true, false, not, ◌&&◌, ◌||◌, Option, none, some, List, [],
  ◌∷◌, ◌++◌, map, ◌==◌, if◌then◌else◌, length, get_or, Failure, State, M, ◌>>=◌, ◌>>◌, return, call,
  call_optional, has_error,
}
use p101_test.System.{System, stderr}
use p101_test.Mutation.Types.{exit_trouble, Candidate, Candidates, Outcome}
use p101_test.Mutation.Candidates.{candidate_observer}
use p101_test.Mutation.Run.{Processes, Ran, run_command}
use p101_test.Mutation.Status.{succeeded, status_from}
use p101_test.Mutation.Trees.{FileTree}
use p101_test.Mutation.Library.{MutationLibrary}
use p101_test.Mutation.Options.{Arguments, is_help, usage, parse_arguments}
use p101_test.Mutation.Report.{Judged, text_or_empty, report_results, list_candidates}
use p101_test.Mutation.Command.{CompileFacts}
use p101_test.Mutation.Execute.{MutationResult, Job, execute}

abbrev pub judged_of : MutationResult → Judged
judged_of r = record { candidate = r.candidate; outcome = r.outcome }

abbrev pub outcome_in : MutationResult → Outcome
outcome_in r = r.outcome

-- The test of `argc` and of the first word.
abbrev pub asks_help : List Text → Bool
asks_help argv = (length argv == 2) && is_help (get_or argv 1 [])

module _ (S : System) (P : Processes S) (L : MutationLibrary S P) (F : FileTree S)
    (C : CompileFacts S) where
  open S use {World, put, allocate}

  -- A null path does not come here: the arguments are complete.
  abbrev pub job_of : Arguments S P L → Job P.Timeout
  job_of a = record {
    project = text_or_empty a.project;
    compile_database = text_or_empty a.compile_database;
    timeout = a.timeout;
    test_command = a.test_command;
  }

  abbrev pub no_candidates : Arguments S P L → Candidates
  no_candidates a = record { items = []; capacity = a.max_mutants; operators = a.operators }

  -- The fuel of `run_command` and the depth of the trees.
  module _ (polls depth : ℕ) where
    abbrev pub Results : Type 0
    Results = Option (Option (List MutationResult))

    abbrev pub add_result : MutationResult → Results → Results
    add_result r none = none
    add_result r (some none) = some none
    add_result r (some (some rs)) = some (some (r ∷ rs))

    abbrev pub when_executed : M World Results → Option (Option MutationResult) → M World Results
    when_executed again none = return none
    when_executed again (some none) = return (some none)
    when_executed again (some (some r)) = do rest ← again; return (add_result r rest)

    -- The loop over the candidates.
    unfoldable pub execute_all : Arguments S P L → List Candidate → M World Results
    execute_all a [] = return (some (some []))
    execute_all a (candidate ∷ candidates) = do
      executed ← execute S P F C polls depth (job_of a) candidate
      when_executed (execute_all a candidates) executed

    abbrev pub conclude : Arguments S P L → Results → M World (Option ℕ)
    conclude a none = return none
    conclude a (some none) = return (some exit_trouble)
    conclude a (some (some results)) = do
      report_results S P L a.human a.json (map judged_of results)
      return (some (status_from 0 (map outcome_in results)))

    abbrev pub execute_with : Arguments S P L → List Candidate → Bool → M World (Option ℕ)
    execute_with a candidates false = return (some exit_trouble)
    execute_with a candidates true = do results ← execute_all a candidates; conclude a results

    abbrev pub baseline_failed : Bool → M World (Option ℕ)
    baseline_failed timed_out = do
      call (
          put stderr (
            codes "test-mutation: baseline test command "
            ++ (if timed_out then codes "timed out" else codes "failed")
            ++ codes "\n"))
      return (some exit_trouble)

    abbrev pub behind_baseline : Arguments S P L → List Candidate → Option Ran → M World (Option ℕ)
    behind_baseline a candidates none = return none
    behind_baseline a candidates (some ran) = do
      failed ← has_error
      if ran.timed_out || not (succeeded ran.result) || failed
          then baseline_failed ran.timed_out
          else (do made ← call (allocate (length candidates)); execute_with a candidates made)

    -- `candidates.count == 0U`
    unfoldable pub check_candidates : Arguments S P L → List Candidate → M World (Option ℕ)
    unfolding execute_all
    check_candidates a [] = do
      call (
          put stderr (
            codes "test-mutation: candidate discovery produced no mutants; "
            ++ codes "refusing a vacuous mutation-check pass\n"))
      return (some exit_trouble)
    check_candidates a (candidate ∷ candidates) = do
      ran ← run_command S P polls a.test_command a.project a.timeout
      behind_baseline a (candidate ∷ candidates) ran

    abbrev pub list_only : Arguments S P L → List Candidate → M World (Option ℕ)
    list_only a candidates = do
      list_candidates S P L a.human a.json candidates
      failed ← has_error
      return (some (if failed then exit_trouble else 0))

    abbrev pub with_scan : Arguments S P L → Bool × Candidates → M World (Option ℕ)
    with_scan a (false, found) = return (some exit_trouble)
    with_scan a (true, found) =
        if a.list_only then list_only a found.items else check_candidates a found.items

    abbrev pub scan : Arguments S P L → Bool → M World (Option ℕ)
    scan a false = return (some exit_trouble)
    scan a true = do
      found ←
          C.analysis_scan (text_or_empty a.compile_database) (text_or_empty a.project)
            (candidate_observer S) (no_candidates a)
      with_scan a found

    abbrev pub refuse : List Text → M World (Option ℕ)
    refuse argv = do
      failed ← has_error
      if failed
          then return (some exit_trouble)
          else if asks_help argv
          then return (some 0)
          else (do usage S P L (get_or argv 0 []) stderr; return (some exit_trouble))

    -- From the arguments to the end of the candidates.
    unfoldable pub analyse : List Text → Bool × Arguments S P L → M World (Option ℕ)
    unfolding check_candidates
    analyse argv (false, a) = refuse argv
    analyse argv (true, a) = do made ← call (allocate a.max_mutants); scan a made

    -- Behind `done`.
    abbrev pub finish : Option ℕ → M World (Option ℕ)
    finish none = return none
    finish (some status) = do
      failed ← has_error
      message ← (λ s. (C.error_message s.raised, s))
      if failed
          then (do
            call_optional (put stderr (codes "test-mutation: " ++ message ++ codes "\n"))
            return (some exit_trouble))
          else return (some status)

    unfoldable pub main : List Text → M World (Option ℕ)
    unfolding analyse
    main argv = do parsed ← parse_arguments S P L argv; status ← analyse argv parsed; finish status
