-- ===== src/Faults/Campaign.antt =====
-- src/runner.c: the campaign of `p101_error_path_walk_run` and its printed groups.
pub mod Outcome
pub mod Totals
use p101_test.Base.{
  ℕ, zero, suc, ◌+◌, ◌-◌, ◌<◌, Text, codes, Bool, true, false, not, ◌&&◌, ◌||◌, List, [], ◌∷◌, ◌++◌,
  ltb, ◌==◌, if◌then◌else◌, decimal, size_add, State, M, ◌>>=◌, ◌>>◌, return, call, has_error,
}
use p101_test.System.{System, stdout}
use p101_test.Faults.Types.{Arguments, RunResult, exit_success, exit_findings, exit_trouble}
use p101_test.Faults.Library.{FaultLibrary}
use p101_test.Faults.Status.{
  status_is_success, analysis_finding_count, analysis_summary_unavailable,
}
use p101_test.Faults.Groups.{FaultGroup, update_fault_group}
use p101_test.Faults.Printer.{print_run_result, plural}
use p101_test.Faults.Case.{run_one_case, reset_run_environment}

-- The variables of the loop.
pub record Campaign : Type 0 where
  pub runs : ℕ
  pub findings : ℕ
  pub groups : List FaultGroup
  pub trouble : Bool

abbrev pub no_runs : Campaign
no_runs = record { runs = 0; findings = 0; groups = []; trouble = false }

unfoldable pub is_unusable : RunResult → Bool
is_unusable result = not result.pipeline_ok || analysis_summary_unavailable result

-- The baseline is trouble too when it fails and no finding explains it.
unfoldable pub baseline_trouble : RunResult → Bool
unfolding is_unusable
baseline_trouble result =
    is_unusable result
    || (not (status_is_success result.status) && analysis_finding_count result == 0)

-- The campaign behind its baseline.
unfoldable pub count_baseline : RunResult → Campaign
count_baseline result = record {
  runs = 1;
  findings = size_add 0 (analysis_finding_count result);
  groups = [];
  trouble = baseline_trouble result;
}

-- A case that ran: `runs++` and the test for trouble, which come before the test on the hit.
unfoldable pub count_case : Campaign → RunResult → Campaign
count_case c result = record c {
  runs = size_add c.runs 1;
  trouble = if is_unusable result then true else c.trouble;
}

-- What a hit adds.
unfoldable pub count_hit : Campaign → RunResult → Campaign
count_hit c result = record c {
  findings = size_add c.findings (analysis_finding_count result);
  groups = update_fault_group c.groups result;
}

-- The status that is returned, from what the error object and the loop left.
unfoldable pub campaign_status : Bool → Campaign → ℕ
campaign_status failed c =
    if failed || c.trouble
    then exit_trouble
    else if ltb 0 c.findings
    then exit_findings
    else exit_success

module _ (S : System) (L : FaultLibrary) where
  open S use {World, put}

  unfoldable pub print_groups : List FaultGroup → M World (Unit {0})
  print_groups [] = return tt
  print_groups (g ∷ groups) = do
    call (
        put stdout (
          codes "  "
          ++ g.name
          ++ codes ": "
          ++ decimal g.runs
          ++ codes " run"
          ++ plural g.runs
          ++ codes ", "
          ++ decimal g.findings
          ++ codes " policy finding"
          ++ plural g.findings
          ++ codes "\n"))
    print_groups groups

  unfoldable pub print_fault_groups : List FaultGroup → M World (Unit {0})
  unfolding print_groups
  print_fault_groups [] = return tt
  print_fault_groups (g ∷ groups) = do
    call (put stdout (codes "test-faults: grouped by faulted wrapper:\n"))
    print_groups (g ∷ groups)

  unfoldable pub print_exhausted : ℕ → M World (Unit {0})
  print_exhausted calls = call (
      put stdout (
        codes "test-faults: exhausted after "
        ++ decimal calls
        ++ codes " fault-capable call"
        ++ plural calls
        ++ codes ".\n"))

  -- The end of a run of the loop: the campaign, and whether it was left by `goto done`.
  abbrev pub Loop : Type 0
  Loop = M World (Campaign × Bool)

  -- Behind the test for trouble: stop when no fault fired, or count the hit and go on.
  unfoldable pub after_case : (Campaign → Loop) → Campaign → ℕ → RunResult → Loop
  after_case rest c index result =
      if not result.fault_hit
      then (do print_exhausted (index - 1); return (c, false))
      else rest (count_hit c result)

  unfoldable pub judge_case : (Campaign → Loop) → Campaign → ℕ → ℕ × RunResult → Loop
  unfolding after_case
  judge_case rest c index (status, result) =
      if not (status == exit_success)
      then return (record c { trouble = true }, true)
      else do print_run_result S result; after_case rest (count_case c result) index result

  -- The body of the loop; `rest` makes the later rounds.
  unfoldable pub run_case : (Campaign → Loop) → Arguments → ℕ → Campaign → Loop
  unfolding judge_case
  run_case rest args index c = do
    failed ← has_error
    if failed
        then return (c, false)
        else do ran ← run_one_case S L args index; judge_case rest c index ran

  -- `for(index = ...; index <= args->max_failures; index++)` with the rounds left. The arguments were
  -- converted, so the bound is at most MAX_FAILURES_LIMIT and the index does not wrap.
  unfoldable pub run_cases : ℕ → Arguments → ℕ → Campaign → Loop
  unfolding run_case
  run_cases zero args index c = return (c, false)
  run_cases (suc left) args index c = run_case (run_cases left args (suc index)) args index c

  unfoldable pub run_baseline : Arguments → ℕ × RunResult → Loop
  unfolding run_cases
  run_baseline args (status, result) =
      if not (status == exit_success)
      then return (record no_runs { trouble = true }, true)
      else do print_run_result S result; run_cases args.max_failures args 1 (count_baseline result)

  -- The two reports, which a `goto done` skips.
  unfoldable pub print_totals : Campaign × Bool → M World (Unit {0})
  print_totals (c, true) = return tt
  print_totals (c, false) = do
    call (
        put stdout (
          codes "test-faults: "
          ++ decimal c.runs
          ++ codes " run"
          ++ plural c.runs
          ++ codes ", "
          ++ decimal c.findings
          ++ codes " policy finding"
          ++ plural c.findings
          ++ codes ".\n"))
    print_fault_groups c.groups

  -- The campaign up to `done`.
  unfoldable pub walk : Arguments → Loop
  unfolding run_baseline
  walk args = do
    ran ← run_one_case S L args 0
    ended ← run_baseline args ran
    print_totals ended
    return ended

  -- `p101_error_path_walk_run`
  unfoldable pub run : Arguments → M World ℕ
  unfolding walk campaign_status
  run args = do
    ended ← walk args
    reset_run_environment S L
    failed ← has_error
    return (campaign_status failed ended.0)
