-- ===== src/Mutation/Report/Summary.antt =====
-- The counters of components/mutation/src/output.c, and the outcome of the report.
use p101_test.Base.{
  ℕ, ◌+◌, ◌<◌, ◌≡◌, refl, ap, ◌∙◌, List, [], ◌∷◌, map, length, size_mod, size_add-eq-add, arith,
}
use p101_test.Mutation.Types.{Outcome, inconclusive, survived, killed, exit_findings, exit_trouble}
use p101_test.Mutation.Library.{ToolOutcome, clean, findings, tool_error}
use p101_test.Mutation.Status.{status_from, add_outcome}
use p101_test.Mutation.Report.{
  Judged, Counters, no_counters, add_counter, count_results, outcome_of_run,
}

abbrev pub outcomes : List Judged → List Outcome
outcomes = map (λ (r : Judged). r.outcome)

-- The exit status that an outcome stands for.
abbrev pub status_of : ToolOutcome → ℕ
status_of clean = 0
status_of findings = exit_findings
status_of tool_error = exit_trouble

abbrev total : Counters → ℕ
total c = c.killed + (c.survived + c.inconclusive)

add_counter-total :
    (c : Counters) (outcome : Outcome)
    → total c + 1 < size_mod
    → total (add_counter c outcome) ≡ total c + 1
add_counter-total c killed h = omega (arith, size_add-eq-add c.killed 1)
add_counter-total c survived h = omega (arith, size_add-eq-add c.survived 1)
add_counter-total c inconclusive h = omega (arith, size_add-eq-add c.inconclusive 1)

add_counter-status :
    (c : Counters) (outcome : Outcome)
    → total c + 1 < size_mod
    → status_of (outcome_of_run (add_counter c outcome))
      ≡ add_outcome (status_of (outcome_of_run c)) outcome
unfolding outcome_of_run add_outcome
add_counter-status c killed h = refl
add_counter-status c survived h = ground (arith, size_add-eq-add c.survived 1)
add_counter-status c inconclusive h = ground (arith, size_add-eq-add c.inconclusive 1)

-- Every result is counted once.
count_results-total :
    (results : List Judged) (c : Counters)
    → total c + length results < size_mod
    → total (count_results results c) ≡ total c + length results
unfolding count_results
count_results-total [] c h = omega arith
count_results-total (result ∷ results) c h =
    let one = add_counter-total c result.outcome (omega arith) in
    let rest = count_results-total results (add_counter c result.outcome) (omega arith) in
    omega arith

count_results-status :
    (results : List Judged) (c : Counters)
    → total c + length results < size_mod
    → status_of (outcome_of_run (count_results results c))
      ≡ status_from (status_of (outcome_of_run c)) (outcomes results)
unfolding count_results status_from
count_results-status [] c h = refl
count_results-status (result ∷ results) c h =
    let one = add_counter-total c result.outcome (omega arith) in
    count_results-status results (add_counter c result.outcome) (omega arith)
    ∙ ap (λ n. status_from n (outcomes results)) (add_counter-status c result.outcome (omega arith))

-- For fewer than 2 ^ 64 results, the report counts each of them once, as killed, survived or inconclusive,
-- and the outcome that it ends with stands for the exit status that main computes from the results.
pub count_results-status_from :
    (results : List Judged)
    → length results < size_mod
    → let c = count_results results no_counters in
      (c.killed + (c.survived + c.inconclusive) ≡ length results)
      × (status_of (outcome_of_run c) ≡ status_from 0 (outcomes results))
unfolding outcome_of_run
count_results-status_from results h = (
  count_results-total results no_counters (omega arith) ∙ omega arith,
  count_results-status results no_counters (omega arith),
)
