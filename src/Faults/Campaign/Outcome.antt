-- ===== src/Faults/Campaign/Outcome.antt =====
-- The campaign of src/runner.c against the cases that it runs.
use p101_test.Base.{
  ℕ, zero, suc, ◌<◌, ◌≡◌, Bool, true, false, ◌||◌, List, [], ◌∷◌, ltb, ◌==◌, if◌then◌else◌,
  size_add, size_add_assoc, size_add-lt, size_mod, size_add_zero, size_add-zero_add, State,
  has_failures, arith, refl, sym, ap, ◌∙◌, Bool-cases, inl, inr,
}
use p101_test.System.{System}
use p101_test.Faults.Types.{Arguments, RunResult, exit_success, exit_findings, exit_trouble}
use p101_test.Faults.Library.{FaultLibrary}
use p101_test.Faults.Status.{analysis_finding_count}
use p101_test.Faults.Printer.{print_run_result}
use p101_test.Faults.Case.{run_one_case}
use p101_test.Faults.Campaign.{
  Campaign, is_unusable, baseline_trouble, count_baseline, count_case, count_hit, campaign_status,
  run_cases, run_baseline, run,
}

-- What a case adds to the campaign: its findings and its group only if its fault fired.
abbrev pub absorb : Campaign → RunResult → Campaign
absorb c result =
    if result.fault_hit then count_hit (count_case c result) result else count_case c result

abbrev pub absorb_all : Campaign → List RunResult → Campaign
absorb_all c [] = c
absorb_all c (result ∷ results) = absorb_all (absorb c result) results

-- The loop left by `goto done` is trouble.
abbrev pub close : Bool → Campaign → Campaign
close true c = record c { trouble = true }
close false c = c

module _ (S : System) (L : FaultLibrary) (args : Arguments) where
  open S use {World}

  abbrev pub case_at : ℕ → State World → (ℕ × RunResult) × State World
  case_at index s = run_one_case S L args index s

  -- The cases that the loop runs from an index and a state on, with the rounds left, and whether it
  -- is left by `goto done`: it stops before a case when a failure was raised, at a case that fails,
  -- behind a case whose fault did not fire, and when the rounds are used up.
  pub data Cases : ℕ → ℕ → State World → List RunResult → Bool → Type 0 where
    spent : (index : ℕ) (s : State World) → Cases zero index s [] false
    stopped :
        (left index : ℕ) (s : State World)
        → has_failures s.raised ≡ true
        → Cases (suc left) index s [] false
    broken :
        (left index : ℕ) (s : State World)
        → has_failures s.raised ≡ false
        → ((case_at index s).0.0 == exit_success) ≡ false
        → Cases (suc left) index s [] true
    missed :
        (left index : ℕ) (s : State World)
        → has_failures s.raised ≡ false
        → ((case_at index s).0.0 == exit_success) ≡ true
        → (case_at index s).0.1.fault_hit ≡ false
        → Cases (suc left) index s ((case_at index s).0.1 ∷ []) false
    fired :
        (left index : ℕ) (s : State World) {results : List RunResult} {aborted : Bool}
        → has_failures s.raised ≡ false
        → ((case_at index s).0.0 == exit_success) ≡ true
        → (case_at index s).0.1.fault_hit ≡ true
        → Cases left
            (suc index)
            (print_run_result S (case_at index s).0.1 (case_at index s).1).1
            results
            aborted
        → Cases (suc left) index s ((case_at index s).0.1 ∷ results) aborted

  abbrev pub Explains : ℕ → ℕ → State World → Campaign × Bool → Campaign → Type 0
  Explains left index s ended c =
      (results : List RunResult) × (aborted : Bool) × Cases left index s results aborted
      × (ended ≡ (close aborted (absorb_all c results), aborted))

  fired-Explains :
      (left index : ℕ) (c : Campaign) (s : State World) (ended : Campaign × Bool)
      → has_failures s.raised ≡ false
      → ((case_at index s).0.0 == exit_success) ≡ true
      → (case_at index s).0.1.fault_hit ≡ true
      → Explains left
          (suc index)
          (print_run_result S (case_at index s).0.1 (case_at index s).1).1
          ended
          (count_hit (count_case c (case_at index s).0.1) (case_at index s).0.1)
      → Explains (suc left) index s ended c
  fired-Explains left index c s ended fine ok e (results, aborted, cases, p) =
      ((case_at index s).0.1 ∷ results, aborted, fired left index s fine ok e cases, rw e p)

  -- The loop's campaign is that of the cases that it runs.
  pub run_cases-Explains :
      (left index : ℕ) (c : Campaign) (s : State World)
      → Explains left index s (run_cases S L left args index c s).0 c
  unfolding run_cases
  run_cases-Explains zero index c s = ([], false, spent index s, refl)
  run_cases-Explains (suc left) index c s = elim (Bool-cases (has_failures s.raised)) [
    | inl e ↦ rw e ([], false, stopped left index s e, refl)
    | inr fine ↦ rw fine (elim (Bool-cases ((case_at index s).0.0 == exit_success)) [
      | inr e ↦ rw e ([], true, broken left index s fine e, refl)
      | inl ok ↦ rw ok (elim (Bool-cases (case_at index s).0.1.fault_hit) [
        | inr e ↦ rw e ((case_at index s).0.1 ∷ [], false, missed left index s fine ok e, rw e)
        | inl e ↦
            rw e
              (fired-Explains left index c s _ fine ok e (run_cases-Explains left (suc index) _ _))
      ])
    ])
  ]

-- One unusable case makes the campaign trouble.
abbrev pub any_unusable : List RunResult → Bool
any_unusable [] = false
any_unusable (result ∷ results) = is_unusable result || any_unusable results

-- The findings of the cases whose fault fired, in `size_t`.
abbrev pub hit_findings : List RunResult → ℕ
hit_findings [] = 0
hit_findings (result ∷ results) =
    if result.fault_hit
    then size_add (analysis_finding_count result) (hit_findings results)
    else hit_findings results

absorb_all-trouble :
    (c : Campaign) (results : List RunResult)
    → (absorb_all c results).trouble ≡ (any_unusable results || c.trouble)
unfolding count_case count_hit
absorb_all-trouble c [] = refl
absorb_all-trouble c (result ∷ results) =
    absorb_all-trouble (absorb c result) results ∙ ground arith

absorb_all-findings :
    (c : Campaign) (results : List RunResult)
    → size_add (absorb_all c results).findings 0 ≡ size_add c.findings (hit_findings results)
unfolding count_case count_hit
absorb_all-findings c [] = refl
absorb_all-findings c (result ∷ results) =
    absorb_all-findings (absorb c result) results
    ∙ ground
        (arith, size_add_assoc c.findings (analysis_finding_count result) (hit_findings results))

absorb_all-findings-lt :
    (c : Campaign) (results : List RunResult)
    → c.findings < size_mod
    → (absorb_all c results).findings < size_mod
unfolding count_case count_hit
absorb_all-findings-lt c [] h = h
absorb_all-findings-lt c (result ∷ results) h =
    absorb_all-findings-lt (absorb c result) results
      (ground (arith, size_add-lt c.findings (analysis_finding_count result)))

close-trouble : (aborted : Bool) (c : Campaign) → (close aborted c).trouble ≡ (aborted || c.trouble)
close-trouble true c = refl
close-trouble false c = refl

close-findings : (aborted : Bool) (c : Campaign) → (close aborted c).findings ≡ c.findings
close-findings true c = refl
close-findings false c = refl

-- The exit status that the cases call for: trouble before findings before success.
unfoldable pub verdict : Bool → Bool → RunResult → List RunResult → ℕ
verdict failed aborted baseline results =
    if failed || aborted || any_unusable results || baseline_trouble baseline
    then exit_trouble
    else if ltb 0 (size_add (analysis_finding_count baseline) (hit_findings results))
    then exit_findings
    else exit_success

campaign_status-close :
    (failed aborted : Bool) (baseline : RunResult) (results : List RunResult)
    → campaign_status failed (close aborted (absorb_all (count_baseline baseline) results))
      ≡ verdict failed aborted baseline results
unfolding campaign_status verdict count_baseline
campaign_status-close failed aborted baseline results =
    rw (close-trouble aborted, close-findings aborted, absorb_all-trouble, total) (ground arith)
  where
    total :
        (absorb_all (count_baseline baseline) results).findings
        ≡ size_add (analysis_finding_count baseline) (hit_findings results)
    total =
        sym (
          size_add_zero _
            (absorb_all-findings-lt (count_baseline baseline) results (size_add-lt 0 _)))
        ∙ absorb_all-findings (count_baseline baseline) results
        ∙ size_add-zero_add (analysis_finding_count baseline) (hit_findings results)

module _ (S : System) (L : FaultLibrary) (args : Arguments) (s : State S.World) where
  -- The baseline, and the state in which the loop starts.
  abbrev pub baseline_of : RunResult
  baseline_of = (run_one_case S L args 0 s).0.1

  abbrev pub loop_start : State S.World
  loop_start = (print_run_result S baseline_of (run_one_case S L args 0 s).1).1

  pub run_baseline-ok :
      ((run_one_case S L args 0 s).0.0 == exit_success) ≡ true
      → (run_baseline S L args (run_one_case S L args 0 s).0 (run_one_case S L args 0 s).1).0
        ≡ (run_cases S L args.max_failures args 1 (count_baseline baseline_of) loop_start).0
  unfolding run_baseline
  run_baseline-ok ok = rw ok

  -- The exit status of a campaign whose baseline ran: that of its baseline and of the cases that the
  -- loop runs behind it, with the failures that stand in the error object at the end.
  pub run-verdict :
      ((run_one_case S L args 0 s).0.0 == exit_success) ≡ true
      → (results : List RunResult) × (aborted : Bool) × Cases S L args args.max_failures 1
          loop_start results aborted
        × ((run S L args s).0
            ≡ verdict (has_failures (run S L args s).1.raised) aborted baseline_of results)
  unfolding run
  run-verdict ok =
      let (results, aborted, cases, p) =
        run_cases-Explains S L args args.max_failures 1 (count_baseline baseline_of) loop_start in
      (
        results,
        aborted,
        cases,
        ap (λ ended. campaign_status (has_failures (run S L args s).1.raised) ended.0)
              (run_baseline-ok ok ∙ p)
            ∙ campaign_status-close (has_failures (run S L args s).1.raised) aborted baseline_of
                results,
      )

  -- A campaign whose baseline does not run is trouble.
  pub run-baseline_failed :
      ((run_one_case S L args 0 s).0.0 == exit_success) ≡ false → (run S L args s).0 ≡ exit_trouble
  unfolding run
  run-baseline_failed e = rw e (ground arith)
