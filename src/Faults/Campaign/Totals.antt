-- ===== src/Faults/Campaign/Totals.antt =====
-- The table and the findings of a campaign of src/runner.c.
use p101_test.Base.{
  ℕ, suc, ◌<◌, ◌≡◌, Bool, true, false, List, ◌==◌, size_add, size_add_assoc, size_add_zero,
  size_add-lt, subst, length, State, arith, sym, ap, ◌∙◌, if_cases,
}
use p101_test.System.{System}
use p101_test.Faults.Types.{Arguments, RunResult, exit_success}
use p101_test.Faults.Library.{FaultLibrary}
use p101_test.Faults.Status.{analysis_finding_count}
use p101_test.Faults.Groups.{fault_group_limit}
use p101_test.Faults.Groups.Table.{IsTable, update_fault_group-IsTable}
use p101_test.Faults.Groups.Counts.{
  total_findings, total_findings-of_hit, length-le-update_fault_group,
}
use p101_test.Faults.Case.{run_one_case}
use p101_test.Faults.Case.Result.{IsResultOf, run_one_case-IsResultOf}
use p101_test.Faults.Campaign.{Campaign, count_baseline, count_case, count_hit, walk}
use p101_test.Faults.Campaign.Outcome.{
  absorb, absorb_all, close, run_cases-Explains, run_baseline-ok, baseline_of, loop_start, Cases,
  spent, stopped, broken, missed, fired,
}

-- The table is well formed, and while it has room the campaign's findings are those that stood
-- before the loop and those of all groups together.
pub record Balanced (base : ℕ) (c : Campaign) : Type 0 where
  pub table : IsTable fault_group_limit c.groups
  pub balance :
      length c.groups < fault_group_limit → c.findings ≡ size_add base (total_findings c.groups)

absorb-Balanced :
    (base index : ℕ) (c : Campaign) (result : RunResult)
    → IsResultOf (suc index) result
    → Balanced base c
    → Balanced base (absorb c result)
unfolding count_case count_hit
absorb-Balanced base index c result r b =
    if_cases (Balanced base) result.fault_hit
      (λ hit. record {
        table = update_fault_group-IsTable c.groups result r.short b.table;
        balance = λ room.
            ap (λ f. size_add f (analysis_finding_count result))
              (b.balance (omega (arith, length-le-update_fault_group c.groups result)))
            ∙ size_add_assoc base (total_findings c.groups) (analysis_finding_count result)
            ∙ ap (size_add base)
                (sym (total_findings-of_hit c.groups result (ground (arith, r.index)) hit room));
      })
      (λ no_hit. record { table = b.table; balance = b.balance })

module _ (S : System) (L : FaultLibrary) (args : Arguments) where
  absorb_all-Balanced :
      (base left index : ℕ) (c : Campaign) (s : State S.World) {results : List RunResult}
      {aborted : Bool}
      → Cases S L args left (suc index) s results aborted
      → Balanced base c
      → Balanced base (absorb_all c results)
  absorb_all-Balanced base left index c s (spent i t) b = b
  absorb_all-Balanced base left index c s (stopped l i t e) b = b
  absorb_all-Balanced base left index c s (broken l i t e f) b = b
  absorb_all-Balanced base left index c s (missed l i t e f g) b =
      absorb-Balanced base index c _ (run_one_case-IsResultOf S L (suc index) args s) b
  absorb_all-Balanced base left index c s (fired l i t e f g cases) b =
      absorb_all-Balanced base l (suc index) _ _ cases
        (absorb-Balanced base index c _ (run_one_case-IsResultOf S L (suc index) args s) b)

close-Balanced :
    (base : ℕ) (aborted : Bool) (c : Campaign) → Balanced base c → Balanced base (close aborted c)
close-Balanced base true c b = record { table = b.table; balance = b.balance }
close-Balanced base false c b = b

count_baseline-Balanced :
    (result : RunResult)
    → Balanced (size_add 0 (analysis_finding_count result)) (count_baseline result)
unfolding count_baseline total_findings
count_baseline-Balanced result = record {
  table = record { fits = omega arith; distinct = tt; short = tt };
  balance = λ room. sym (size_add_zero _ (size_add-lt 0 (analysis_finding_count result)));
}

module _ (S : System) (L : FaultLibrary) (args : Arguments) (s : State S.World) where
  walk-Balanced :
      ((run_one_case S L args 0 s).0.0 == exit_success) ≡ true
      → Balanced
          (size_add 0 (analysis_finding_count (run_one_case S L args 0 s).0.1))
          (walk S L args s).0.0
  unfolding walk
  walk-Balanced ok =
      let b = baseline_of S L args s in
      let (results, aborted, cases, p) =
        run_cases-Explains S L args args.max_failures 1 (count_baseline b)
          (loop_start S L args s) in
      subst (λ ended. Balanced (size_add 0 (analysis_finding_count b)) ended.0)
        (sym (run_baseline-ok S L args s ok ∙ p))
        (close-Balanced _ aborted _ (
          absorb_all-Balanced S L args _ args.max_failures 0 _ _ cases (count_baseline-Balanced b)))

  -- Behind a baseline that ran, a table with room at the end counts everything: the findings of the
  -- baseline and those of all groups are the total, in `size_t`.
  pub walk-findings :
      ((run_one_case S L args 0 s).0.0 == exit_success) ≡ true
      → length (walk S L args s).0.0.groups < fault_group_limit
      → (walk S L args s).0.0.findings
        ≡ size_add
            (size_add 0 (analysis_finding_count (run_one_case S L args 0 s).0.1))
            (total_findings (walk S L args s).0.0.groups)
  walk-findings ok room = (walk-Balanced ok).balance room

  -- Behind a baseline that ran, the table of wrappers is well formed at the end: it fits its array, no
  -- name heads two groups, and every name fits its field.
  pub walk-IsTable :
      ((run_one_case S L args 0 s).0.0 == exit_success) ≡ true
      → IsTable fault_group_limit (walk S L args s).0.0.groups
  walk-IsTable ok = (walk-Balanced ok).table
