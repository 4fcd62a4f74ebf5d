-- ===== src/Mutation/Program/Passing.antt =====
-- When the program of components/mutation/src/main.c ends with EXIT_SUCCESS.
use p101_test.Base.{
  ℕ, ◌≡◌, ◌≢◌, ◌⊎◌, refl, ap, sym, ◌∙◌, inl, inr, Text, Bool, true, false, not, ◌||◌, Option, none,
  some, List, [], ◌∷◌, map, length, All, if◌then◌else◌, State, call, has_failures, Bool-cases,
  arith,
}
use p101_test.System.{System}
use p101_test.Mutation.Types.{Candidate, Candidates}
use p101_test.Mutation.Candidates.{candidate_observer}
use p101_test.Mutation.Run.{Processes, Ran, run_command}
use p101_test.Mutation.Status.{succeeded, status_from}
use p101_test.Mutation.Trees.{FileTree}
use p101_test.Mutation.Library.{MutationLibrary}
use p101_test.Mutation.Options.{Arguments, parse_arguments}
use p101_test.Mutation.Report.{text_or_empty}
use p101_test.Mutation.Command.{CompileFacts}
use p101_test.Mutation.Execute.{MutationResult, Job, execute}
use p101_test.Mutation.Execute.Soundness.{Succeeds, IsSound, succeeded_iff, execute-IsSound}
use p101_test.Mutation.Program.{
  outcome_in, asks_help, job_of, no_candidates, Results, add_result, when_executed, execute_all,
  conclude, execute_with, behind_baseline, check_candidates, list_only, with_scan, scan, refuse,
  analyse, finish, main,
}
use p101_test.Mutation.Program.Killed.{
  candidate_in, IsKilled, Noticed, status_from-zero, killed-both, Covers,
}

module _ (S : System) (P : Processes S) (L : MutationLibrary S P) (F : FileTree S)
    (C : CompileFacts S) (polls depth : ℕ) where
  open S use {World, allocate}

  add_result-Covers :
      (candidate : Candidate) (candidates : List Candidate) (r : MutationResult)
      → r.candidate ≡ candidate
      → Noticed r
      → (rest : Results S P L F C polls depth) → Covers candidates rest
      → Covers (candidate ∷ candidates) (add_result S P L F C polls depth r rest)
  add_result-Covers candidate candidates r named noticed none h = tt
  add_result-Covers candidate candidates r named noticed (some none) h = tt
  add_result-Covers candidate candidates r named noticed (some (some results)) (same, all) = (
    ap (λ c. c ∷ map candidate_in results) named ∙ ap (λ cs. candidate ∷ cs) same,
    (noticed, all),
  )

  IsSound-Noticed :
      (job : Job P.Timeout) (candidate : Candidate) (s : State World) (r : MutationResult)
      → IsSound S P F C polls depth job candidate s r
      → Noticed r
  IsSound-Noticed job candidate s r sound h = elim sound.runs.outcome [
    | inl (fails, inconclusive', reported) ↦ absurd (cc)
    | inr (succeeds, test) ↦
        let (in_time, other) = test.verdict.when_killed.0 h in
        let (code, time) = test.verdict.reported in (time ∙ in_time, λ e. other (sym code ∙ e))
  ]

  module _ (a : Arguments S P L) where
    when_executed-Covers :
        (candidate : Candidate) (candidates : List Candidate)
        → ((s : State World)
            → Covers candidates (execute_all S P L F C polls depth a candidates s).0)
        → (executed : Option (Option MutationResult)) (s : State World)
        → ((r : MutationResult) → executed ≡ some (some r) → (r.candidate ≡ candidate) × Noticed r)
        → Covers
            (candidate ∷ candidates)
            (when_executed S P L F C polls depth
              (execute_all S P L F C polls depth a candidates)
              executed
              s).0
    when_executed-Covers candidate candidates ih none s h = tt
    when_executed-Covers candidate candidates ih (some none) s h = tt
    when_executed-Covers candidate candidates ih (some (some r)) s h =
        let (named, noticed) = h r refl in
        add_result-Covers candidate candidates r named noticed
          (execute_all S P L F C polls depth a candidates s).0 (ih s)

    execute_all-Covers :
        (candidates : List Candidate) (s : State World)
        → Covers candidates (execute_all S P L F C polls depth a candidates s).0
    unfolding execute_all
    execute_all-Covers [] s = (refl, tt)
    execute_all-Covers (candidate ∷ candidates) s =
        let job = job_of S P L F C a in
        let executed = execute S P F C polls depth job candidate s in
        when_executed-Covers candidate candidates (execute_all-Covers candidates) executed.0
          executed.1
          (λ r e.
            let sound = execute-IsSound S P F C polls depth job candidate s r e in
            (sound.same, IsSound-Noticed job candidate s r sound))

    abbrev baseline_at : State World → Option Ran × State World
    baseline_at = run_command S P polls a.test_command a.project a.timeout

    -- The runs of the mutants behind the baseline.
    abbrev results_at : List Candidate → State World → Results S P L F C polls depth × State World
    results_at candidates s =
        execute_all S P L F C polls depth a candidates
          (call (allocate (length candidates)) (baseline_at s).1).1

    -- From a state, there are candidates, the test command succeeded on the project itself, and then every
    -- candidate was executed, with the results; each of them is killed.
    pub record AllKilled (candidates : List Candidate) (s : State World) : Type 0 where
      pub some_found : length candidates ≢ 0
      pub baseline : Ran
      pub baseline_ran : (baseline_at s).0 ≡ some baseline
      pub baseline_passes : Succeeds baseline
      pub results : List MutationResult
      pub executed : (results_at candidates s).0 ≡ some (some results)
      pub same : map candidate_in results ≡ candidates
      pub killed_all : All IsKilled results

    -- What the end of the runs says of their results.
    abbrev Executed : List Candidate → Results S P L F C polls depth → Type 0
    Executed candidates ended =
        (results : List MutationResult) × (ended ≡ some (some results))
        × (map candidate_in results ≡ candidates)
        × All IsKilled results

    conclude-zero :
        (candidates : List Candidate) (ended : Results S P L F C polls depth) (s : State World)
        → Covers candidates ended
        → (conclude S P L F C polls depth a ended s).0 ≡ some 0
        → Executed candidates ended
    conclude-zero candidates none s covers h = absurd (cc)
    conclude-zero candidates (some none) s covers h = absurd (cc)
    conclude-zero candidates (some (some results)) s (same, noticed) h =
        let ended : status_from 0 (map outcome_in results) ≡ 0 = cc in
        let (start, all) = status_from-zero 0 results ended in
        (results, refl, same, killed-both results all noticed)

    execute_with-zero :
        (candidates : List Candidate) (made : Bool) (s : State World)
        → (execute_with S P L F C polls depth a candidates made s).0 ≡ some 0
        → Executed candidates (execute_all S P L F C polls depth a candidates s).0
    execute_with-zero candidates false s h = absurd (cc)
    execute_with-zero candidates true s h =
        let r = execute_all S P L F C polls depth a candidates s in
        conclude-zero candidates r.0 r.1 (execute_all-Covers candidates s) h

    behind_baseline-zero :
        (candidates : List Candidate) (s : State World)
        → length candidates ≢ 0
        → (ran : Option Ran) → (baseline_at s).0 ≡ ran
        → (behind_baseline S P L F C polls depth a candidates ran (baseline_at s).1).0 ≡ some 0
        → AllKilled candidates s
    behind_baseline-zero candidates s found none e = λ h. absurd (cc)
    behind_baseline-zero candidates s found (some ran) e =
        elim (Bool-cases
          (ran.timed_out || not (succeeded ran.result) || has_failures (baseline_at s).1.raised)) [
            | inl e' ↦ rw e' (λ h. absurd (cc))
            | inr e' ↦ rw e' (λ h.
                let in_time : ran.timed_out ≡ false = ground arith in
                let passed : succeeded ran.result ≡ true = ground arith in
                let made = call (allocate (length candidates)) (baseline_at s).1 in
                let (results, executed, same, all) = execute_with-zero candidates made.0 made.1 h in
                record {
                  some_found = found;
                  baseline = ran;
                  baseline_ran = e;
                  baseline_passes = (in_time, (succeeded_iff ran.result).0 passed);
                  results = results;
                  executed = executed;
                  same = same;
                  killed_all = all;
                })
          ]

    check_candidates-zero :
        (candidates : List Candidate) (s : State World)
        → (check_candidates S P L F C polls depth a candidates s).0 ≡ some 0
        → AllKilled candidates s
    unfolding check_candidates
    check_candidates-zero [] s h = absurd (cc)
    check_candidates-zero (candidate ∷ candidates) s h =
        behind_baseline-zero (candidate ∷ candidates) s (ground arith) (baseline_at s).0 refl h

    -- What the scan finds, behind the allocation, and the state that it leaves.
    abbrev found_by : State World → (Bool × Candidates) × State World
    found_by s =
        C.analysis_scan (text_or_empty a.compile_database) (text_or_empty a.project)
          (candidate_observer S) (no_candidates S P L F C a) (call (allocate a.max_mutants) s).1

    -- The scan went through, and either its candidates are only listed, or all of them are killed.
    pub record Passed (s : State World) : Type 0 where
      pub scanned : (found_by s).0.0 ≡ true
      pub listed_or_killed : (a.list_only ≡ true) ⊎ AllKilled (found_by s).0.1.items (found_by s).1

    with_scan-zero :
        (found : Bool × Candidates) (s : State World)
        → (with_scan S P L F C polls depth a found s).0 ≡ some 0
        → (found.0 ≡ true) × ((a.list_only ≡ true) ⊎ AllKilled found.1.items s)
    with_scan-zero (false, found) s = λ h. absurd (cc)
    with_scan-zero (true, found) s = listed a.list_only refl
      where
        listed :
            (list : Bool)
            → a.list_only ≡ list
            → ((if list
                  then list_only S P L F C polls depth a found.items
                  else check_candidates S P L F C polls depth a found.items)
                s).0
              ≡ some 0
            → (true ≡ true) × ((a.list_only ≡ true) ⊎ AllKilled found.items s)
        listed true e h = (refl, inl e)
        listed false e h = (refl, inr (check_candidates-zero found.items s h))

    scan-zero :
        (s : State World)
        → (let made = call (allocate a.max_mutants) s in
            (scan S P L F C polls depth a made.0 made.1).0 ≡ some 0)
        → Passed s
    scan-zero s = elim (Bool-cases (call (allocate a.max_mutants) s).0) [
      | inl e ↦ rw e (λ h'.
          let found = found_by s in
          let (scanned, rest) = with_scan-zero found.0 found.1 h' in
          record { scanned = scanned; listed_or_killed = rest })
      | inr e ↦ rw e (λ h'. absurd (cc))
    ]

  refuse-zero :
      (argv : List Text) (s : State World)
      → (refuse S P L F C polls depth argv s).0 ≡ some 0
      → asks_help argv ≡ true
  refuse-zero argv s = elim (Bool-cases (has_failures s.raised)) [
    | inl e ↦ rw e (λ h. absurd (cc))
    | inr e ↦ elim (Bool-cases (asks_help argv)) [
      | inl e' ↦ λ h. e'
      | inr e' ↦ rw (e, e') (λ h. absurd (cc))
    ]
  ]

  analyse-zero :
      (argv : List Text) (parsed : Bool × Arguments S P L) (s : State World)
      → (analyse S P L F C polls depth argv parsed s).0 ≡ some 0
      → ((asks_help argv ≡ true) ⊎ ((parsed.0 ≡ true) × Passed parsed.1 s))
  unfolding analyse
  analyse-zero argv (false, a) s h = inl (refuse-zero argv s h)
  analyse-zero argv (true, a) s h = inr (refl, scan-zero a s h)

  finish-zero :
      (status : Option ℕ) (s : State World)
      → (finish S P L F C polls depth status s).0 ≡ some 0
      → (status ≡ some 0) × (has_failures (finish S P L F C polls depth status s).1.raised ≡ false)
  finish-zero none s = λ h. absurd (cc)
  finish-zero (some status) s = elim (Bool-cases (has_failures s.raised)) [
    | inl e ↦ rw e (λ h. absurd (cc))
    | inr e ↦ rw e (λ h. (h, e))
  ]

  -- The program ends with EXIT_SUCCESS only without a failure at its end, and only if it was asked for help
  -- alone, or its arguments were taken, the scan went through, and either its candidates were only to be
  -- listed, or there are candidates, the test command succeeded on the project itself, and the results that
  -- the executions of the candidates then gave are one for each candidate, in order, and all killed: the test
  -- command was not stopped at the timeout, and its result is not 0.
  pub main-passes :
      (argv : List Text) (s : State World)
      → (main S P L F C polls depth argv s).0 ≡ some 0
      → let parsed = parse_arguments S P L argv s in
        (has_failures (main S P L F C polls depth argv s).1.raised ≡ false)
        × ((asks_help argv ≡ true) ⊎ ((parsed.0.0 ≡ true) × Passed parsed.0.1 parsed.1))
  unfolding main
  main-passes argv s h =
      let parsed = parse_arguments S P L argv s in
      let status = analyse S P L F C polls depth argv parsed.0 parsed.1 in
      let (ended, quiet) = finish-zero status.0 status.1 h in
      (quiet, analyse-zero argv parsed.0 parsed.1 ended)
