-- ===== src/Mutation/Status.antt =====
-- How test-mutation judges a mutant and its whole run: `p101_mutation_execute` of
-- components/mutation/src/execution.c and `main` of components/mutation/src/main.c.
pub mod Verdict
use p101_test.Base.{
  ℕ, Text, codes, Bool, true, false, Option, none, some, List, [], ◌∷◌, ◌==◌, if◌then◌else◌, ◌&&◌,
}
use p101_test.Mutation.Types.{Outcome, inconclusive, survived, killed, exit_findings, exit_trouble}
use p101_test.Mutation.Run.{Ran}

-- `status == 0`
abbrev pub succeeded : Option ℕ → Bool
succeeded none = false
succeeded (some n) = n == 0

-- The outcome of a mutant from the run of its test command.
unfoldable pub outcome_of : Ran → Outcome
outcome_of ran =
    if ran.timed_out then inconclusive else if succeeded ran.result then survived else killed

unfoldable pub outcome_name : Outcome → Text
outcome_name inconclusive = codes "inconclusive"
outcome_name survived = codes "survived"
outcome_name killed = codes "killed"

-- The body of the last loop of `main`, on the return value.
unfoldable pub add_outcome : ℕ → Outcome → ℕ
add_outcome status inconclusive = exit_trouble
add_outcome status survived = if status == 0 then exit_findings else status
add_outcome status killed = status

-- The loop over the results.
unfoldable pub status_from : ℕ → List Outcome → ℕ
unfolding add_outcome
status_from status [] = status
status_from status (outcome ∷ outcomes) = status_from (add_outcome status outcome) outcomes
