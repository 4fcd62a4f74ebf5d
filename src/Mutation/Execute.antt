-- ===== src/Mutation/Execute.antt =====
-- components/mutation/src/execution.c: the run of one mutant, in a copy of its project. A result of `none`
-- means that the fuel ran out or that the source goes through a null pointer.
pub mod Soundness
use p101_test.Base.{
  ℕ, suc, ◌+◌, Text, codes, Bool, true, false, not, ◌||◌, Option, none, some, List, [], ◌∷◌, ◌++◌,
  if◌then◌else◌, length, Failure, State, M, ◌>>=◌, ◌>>◌, return, call, has_error,
}
use p101_test.System.{System}
use p101_test.Mutation.Types.{path_size, Candidate, Outcome, inconclusive}
use p101_test.Mutation.Paths.{rewrite_path}
use p101_test.Mutation.Apply.{apply_candidate}
use p101_test.Mutation.Compile.{CommandCopy}
use p101_test.Mutation.Run.{Processes, Ran, run_command}
use p101_test.Mutation.Status.{succeeded, outcome_of}
use p101_test.Mutation.Trees.{FileTree}
use p101_test.Mutation.Trees.Copies.{copy_tree}
use p101_test.Mutation.Trees.Removal.{remove_tree}
use p101_test.Mutation.Command.{CompileFacts, until_null, build_compile_command}

pub record MutationResult : Type 0 where
  pub candidate : Candidate
  pub outcome : Outcome
  pub return_code : Option ℕ
  pub timed_out : Bool

-- The parts of the arguments that a run reads.
pub record Job (Timeout : Type 0) : Type 0 where
  pub project : Text
  pub compile_database : Text
  pub timeout : Timeout
  pub test_command : List Text

abbrev pub result_with : Candidate → Outcome → Ran → MutationResult
result_with candidate outcome ran = record {
  candidate = candidate;
  outcome = outcome;
  return_code = ran.result;
  timed_out = ran.timed_out;
}

module _ (S : System) (P : Processes S) (F : FileTree S) (C : CompileFacts S) where
  open S use {World, snprintf, realpath, allocate}

  -- The fuel of `run_command` and the depth of the trees.
  module _ (polls depth : ℕ) where
    -- No result stands for `false`.
    abbrev pub Executed : Type 0
    Executed = Option (Option MutationResult)

    -- The loop over the test command.
    unfoldable pub rewrite_words : Text → Text → List Text → M World (List (Option Text))
    rewrite_words project copy [] = return []
    rewrite_words project copy (word ∷ words) = do
      failed ← has_error
      let rest = rewrite_words project copy words
      if failed then return [] else (do
        rewritten ← rewrite_path S project copy word
        others ← rest
        return (rewritten ∷ others))

    abbrev pub tested : Candidate → Option Ran → M World Executed
    tested candidate none = return none
    tested candidate (some ran) = return (some (some (result_with candidate (outcome_of ran) ran)))

    abbrev pub run_test : Job P.Timeout → Candidate → Text → List (Option Text) → M World Executed
    run_test job candidate copy words = do
      ran ← run_command S P polls (until_null words) (some copy) job.timeout
      tested candidate ran

    abbrev pub rewrite_test : Job P.Timeout → Candidate → Text → Text → Bool → M World Executed
    rewrite_test job candidate project copy false = do
      failed ← has_error
      return (if failed then some none else none)
    rewrite_test job candidate project copy true = do
      words ← rewrite_words project copy job.test_command
      failed ← has_error
      if failed then return (some none) else run_test job candidate copy words

    unfoldable pub test_mutant : Job P.Timeout → Candidate → Text → Text → M World Executed
    unfolding rewrite_words
    test_mutant job candidate project copy = do
      made ← call (allocate (length job.test_command + 1))
      rewrite_test job candidate project copy made

    abbrev pub compiled : Job P.Timeout → Candidate → Text → Text → Option Ran → M World Executed
    compiled job candidate project copy none = return none
    compiled job candidate project copy (some ran) =
        if ran.timed_out || not (succeeded ran.result)
        then return (some (some (result_with candidate inconclusive ran)))
        else test_mutant job candidate project copy

    abbrev pub compile :
        Job P.Timeout → Candidate → Text → Text → Option (Bool × CommandCopy) → M World Executed
    compile job candidate project copy none = return none
    compile job candidate project copy (some (false, command)) = return (some none)
    compile job candidate project copy (some (true, command)) = do
      ran ← run_command S P polls (until_null command.arguments) command.directory job.timeout
      compiled job candidate project copy ran

    abbrev pub build : Job P.Timeout → Candidate → Text → Text → Bool → M World Executed
    build job candidate project copy false = return (some none)
    build job candidate project copy true = do
      built ← build_compile_command S C job.compile_database job.project candidate copy
      compile job candidate project copy built

    abbrev pub mutate : Job P.Timeout → Candidate → Text → Text → Option Bool → M World Executed
    mutate job candidate project copy none = return none
    mutate job candidate project copy (some false) = return (some none)
    mutate job candidate project copy (some true) = do
      applied ← apply_candidate S job.project candidate copy
      build job candidate project copy applied

    unfoldable pub run_mutant : Job P.Timeout → Candidate → Text → Option Text → M World Executed
    unfolding test_mutant
    run_mutant job candidate temp none = return (some none)
    run_mutant job candidate temp (some project) = do
      copy ← call (snprintf path_size (temp ++ codes "/project"))
      copied ← copy_tree S F depth project copy.1
      mutate job candidate project copy.1 copied

    -- Whether the removal did its work is dropped.
    abbrev pub when_removed : Executed → Option Bool → Executed
    when_removed executed none = none
    when_removed executed (some removed) = executed

    abbrev pub execute_in : Job P.Timeout → Candidate → Option Text → M World Executed
    execute_in job candidate none = return (some none)
    execute_in job candidate (some temp) = do
      canonical ← call (realpath job.project)
      executed ← run_mutant job candidate temp canonical
      removed ← remove_tree S F depth temp
      return (when_removed executed removed)

    -- `p101_mutation_execute`
    unfoldable pub execute : Job P.Timeout → Candidate → M World Executed
    unfolding run_mutant
    execute job candidate = do
      temp ← call (F.mkdtemp (codes "/tmp/test-mutation.XXXXXX"))
      execute_in job candidate temp
