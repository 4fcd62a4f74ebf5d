-- ===== src/Mutation/Status/Verdict.antt =====
-- The exit status of test-mutation over the runs of its mutants.
use p101_test.Base.{
  ℕ, ◌≡◌, ◌<◌, inl, inr, ◌∙◌, Bool, false, not, ◌&&◌, ◌||◌, List, [], ◌∷◌, map, ◌==◌, if◌then◌else◌,
  Bool-cases, arith,
}
use p101_test.Mutation.Types.{exit_findings, exit_trouble}
use p101_test.Mutation.Run.{Ran}
use p101_test.Mutation.Status.{succeeded, outcome_of, add_outcome, status_from}

abbrev pub any : (Ran → Bool) → List Ran → Bool
any test [] = false
any test (ran ∷ runs) = test ran || any test runs

abbrev pub survives : Ran → Bool
survives ran = not ran.timed_out && succeeded ran.result

-- The status that the runs call for, whatever their order.
abbrev pub verdict : List Ran → ℕ
verdict runs =
    if any (λ ran. ran.timed_out) runs
    then exit_trouble
    else if any survives runs
    then exit_findings
    else 0

status_from-runs :
    (status : ℕ) (runs : List Ran)
    → status < 3
    → status_from status (map outcome_of runs) ≡ (
        if any (λ ran. ran.timed_out) runs
        then exit_trouble
        else if (status == 0) && any survives runs
        then exit_findings
        else status)
unfolding status_from outcome_of add_outcome
status_from-runs status [] h = ground arith
status_from-runs status (ran ∷ runs) h = elim (Bool-cases ran.timed_out) [
  | inl e ↦ rw e (status_from-runs exit_trouble runs (omega arith) ∙ ground arith)
  | inr e ↦ elim (Bool-cases (succeeded ran.result)) [
    | inl e' ↦ rw (e, e') (status_from-runs _ runs (ground arith) ∙ ground arith)
    | inr e' ↦ rw (e, e') (status_from-runs status runs h)
  ]
]

-- A run over mutants starts with EXIT_SUCCESS and ends with trouble when a test command timed out, with
-- findings when none timed out and one succeeded on its mutant, and with EXIT_SUCCESS when every test
-- command failed.
pub status_from-verdict : (runs : List Ran) → status_from 0 (map outcome_of runs) ≡ verdict runs
status_from-verdict runs = status_from-runs 0 runs (omega arith)
