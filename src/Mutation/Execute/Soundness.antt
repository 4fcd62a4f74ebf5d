-- ===== src/Mutation/Execute/Soundness.antt =====
-- What the run of one mutant in components/mutation/src/execution.c says of the mutant.
use p101_test.Base.{
  ℕ, zero, suc, ◌+◌, ◌≡◌, ◌≢◌, ◌⊎◌, ◌↔◌, refl, subst, inl, inr, Text, codes, Bool, true, false, not,
  ◌||◌, Option, none, some, List, ◌++◌, length, State, call, has_failures, Bool-cases, Option-cases,
  arith,
}
use p101_test.System.{System}
use p101_test.Mutation.Types.{path_size, Candidate, inconclusive, survived, killed}
use p101_test.Mutation.Apply.{apply_candidate}
use p101_test.Mutation.Compile.{CommandCopy}
use p101_test.Mutation.Run.{Processes, Ran, run_command}
use p101_test.Mutation.Status.{succeeded, outcome_of}
use p101_test.Mutation.Trees.{FileTree}
use p101_test.Mutation.Trees.Copies.{copy_tree}
use p101_test.Mutation.Trees.Removal.{remove_tree}
use p101_test.Mutation.Command.{CompileFacts, build_compile_command, until_null}
use p101_test.Mutation.Execute.{
  MutationResult, Job, result_with, Executed, rewrite_words, run_test, test_mutant, compiled,
  compile, build, mutate, run_mutant, when_removed, execute_in, execute,
}

-- A run that was not stopped at the timeout and has the result 0.
abbrev pub Succeeds : Ran → Type 0
Succeeds ran = (ran.timed_out ≡ false) × (ran.result ≡ some 0)

-- A run that was not stopped at the timeout and has another result, or none.
abbrev pub Fails : Ran → Type 0
Fails ran = (ran.timed_out ≡ false) × (ran.result ≢ some 0)

-- The result has what the run gave.
abbrev pub Reports : Ran → MutationResult → Type 0
Reports ran r = (r.return_code ≡ ran.result) × (r.timed_out ≡ ran.timed_out)

-- The result of a run of the test command.
pub record IsVerdict (ran : Ran) (r : MutationResult) : Type 0 where
  pub reported : Reports ran r
  pub when_killed : (r.outcome ≡ killed) ↔ Fails ran
  pub when_survived : (r.outcome ≡ survived) ↔ Succeeds ran
  pub when_inconclusive : (r.outcome ≡ inconclusive) ↔ (ran.timed_out ≡ true)

pub succeeded_iff : (result : Option ℕ) → (succeeded result ≡ true) ↔ (result ≡ some 0)
succeeded_iff none = (λ h. cc, λ h. cc)
succeeded_iff (some zero) = (λ h. refl, λ h. refl)
succeeded_iff (some (suc n)) =
    (λ h. absurd (ground arith), λ h. let e : suc n ≡ 0 = cc in absurd (omega arith))

succeeded-false : (result : Option ℕ) → (succeeded result ≡ false) → (result ≢ some 0)
succeeded-false result e h = let t = (succeeded_iff result).1 h in cc

result_with-IsVerdict :
    (candidate : Candidate) (ran : Ran) → IsVerdict ran (result_with candidate (outcome_of ran) ran)
unfolding outcome_of
result_with-IsVerdict candidate ran = elim (Bool-cases ran.timed_out) [
  | inl e ↦ record {
    reported = (refl, refl);
    when_killed = (λ h. absurd (cc), λ h. absurd (cc));
    when_survived = (λ h. absurd (cc), λ h. absurd (cc));
    when_inconclusive = (λ h. e, λ h. cc);
  }
  | inr e ↦ elim (Bool-cases (succeeded ran.result)) [
    | inl e' ↦
        let zero' = (succeeded_iff ran.result).0 e' in
        record {
          reported = (refl, refl);
          when_killed = (λ h. absurd (cc), λ h. absurd (h.1 zero'));
          when_survived = (λ h. (e, zero'), λ h. cc);
          when_inconclusive = (λ h. absurd (cc), λ h. absurd (cc));
        }
    | inr e' ↦
        let other = succeeded-false ran.result e' in
        record {
          reported = (refl, refl);
          when_killed = (λ h. (e, other), λ h. cc);
          when_survived = (λ h. absurd (cc), λ h. absurd (other h.1));
          when_inconclusive = (λ h. absurd (cc), λ h. absurd (cc));
        }
  ]
]

module _ (S : System) (P : Processes S) (F : FileTree S) (C : CompileFacts S) (polls depth : ℕ)
    (job : Job P.Timeout) (candidate : Candidate) where
  open S use {World}

  -- The words of the test command on the copy, behind the allocation.
  abbrev words_at : Text → Text → State World → List (Option Text) × State World
  words_at project copy s =
      rewrite_words S P F C polls depth project copy job.test_command
        (call (S.allocate (length job.test_command + 1)) s).1

  -- From a state, the test command with the paths of the project rewritten was run in the copy, and gave the
  -- result.
  pub record TestRun (project copy : Text) (s : State World) (r : MutationResult) : Type 0 where
    pub run : Ran
    pub rewritten : has_failures (words_at project copy s).1.raised ≡ false
    pub ran :
        (run_command S P polls
          (until_null (words_at project copy s).0)
          (some copy)
          job.timeout
          (words_at project copy s).1).0
        ≡ some run
    pub verdict : IsVerdict run r

  abbrev compile_at : CommandCopy → State World → Option Ran × State World
  compile_at command =
      run_command S P polls (until_null command.arguments) command.directory job.timeout

  abbrev built_at : Text → State World → Option (Bool × CommandCopy) × State World
  built_at copy = build_compile_command S C job.compile_database job.project candidate copy

  -- From a state, the mutant was compiled: without success, and then the result is inconclusive, or with
  -- success, and then the test command gave the result.
  pub record CompileRun (project copy : Text) (s : State World) (r : MutationResult) : Type 0 where
    pub command : CommandCopy
    pub run : Ran
    pub built : (built_at copy s).0 ≡ some (true, command)
    pub ran : (compile_at command (built_at copy s).1).0 ≡ some run
    pub outcome :
        ((¬ (Succeeds run)) × (r.outcome ≡ inconclusive) × Reports run r)
        ⊎ (Succeeds run × TestRun project copy (compile_at command (built_at copy s).1).1 r)

  abbrev temp_at : State World → Option Text × State World
  temp_at = call (F.mkdtemp (codes "/tmp/test-mutation.XXXXXX"))

  abbrev project_at : State World → Option Text × State World
  project_at s = call (S.realpath job.project) (temp_at s).1

  abbrev copy_at : Text → State World → (Option ℕ × Text) × State World
  copy_at temp s = call (S.snprintf path_size (temp ++ codes "/project")) (project_at s).1

  abbrev copied_at : Text → Text → State World → Option Bool × State World
  copied_at temp project s = copy_tree S F depth project (copy_at temp s).0.1 (copy_at temp s).1

  abbrev applied_at : Text → Text → State World → Bool × State World
  applied_at temp project s =
      apply_candidate S job.project candidate (copy_at temp s).0.1 (copied_at temp project s).1

  -- The project was copied into a temporary directory, the candidate was applied to the copy, and the compiler
  -- and the test command gave the result.
  pub record IsSound (s : State World) (r : MutationResult) : Type 0 where
    pub temp : Text
    pub project : Text
    pub made : (temp_at s).0 ≡ some temp
    pub resolved : (project_at s).0 ≡ some project
    pub copied : (copied_at temp project s).0 ≡ some true
    pub applied : (applied_at temp project s).0 ≡ true
    pub same : r.candidate ≡ candidate
    pub runs : CompileRun project (copy_at temp s).0.1 (applied_at temp project s).1 r

  -- What a stage gives, where it gives a result.
  abbrev Gives : Option (Option MutationResult) → (MutationResult → Type 0) → Type 0
  Gives executed Q = (r : MutationResult) → executed ≡ some (some r) → Q r

  tested-TestRun :
      (project copy : Text) (s : State World)
      → has_failures (words_at project copy s).1.raised ≡ false
      → Gives
          (run_test S P F C polls depth job candidate copy
            (words_at project copy s).0
            (words_at project copy s).1).0
          (λ r. (r.candidate ≡ candidate) × TestRun project copy s r)
  tested-TestRun project copy s quiet r h =
      let words = words_at project copy s in
      elim (Option-cases
        (run_command S P polls (until_null words.0) (some copy) job.timeout words.1).0) [
          | inl e ↦ absurd (let h' = rw e at h in cc)
          | inr (run, e) ↦
              let same : result_with candidate (outcome_of run) run ≡ r =
                let h' = rw e at h in cc in
              subst (λ r. (r.candidate ≡ candidate) × TestRun project copy s r) same
                (
                  refl,
                  record {
                    run = run;
                    rewritten = quiet;
                    ran = e;
                    verdict = result_with-IsVerdict candidate run;
                  },
                )
        ]

  test_mutant-TestRun :
      (project copy : Text) (s : State World)
      → Gives
          (test_mutant S P F C polls depth job candidate project copy s).0
          (λ r. (r.candidate ≡ candidate) × TestRun project copy s r)
  unfolding test_mutant
  test_mutant-TestRun project copy s r = elim (Bool-cases made.0) [
    | inr e ↦ elim (Bool-cases (has_failures made.1.raised)) [
      | inl e' ↦ rw (e, e') (λ h. absurd (cc))
      | inr e' ↦ rw (e, e') (λ h. absurd (cc))
    ]
    | inl e ↦ elim (Bool-cases (has_failures (words_at project copy s).1.raised)) [
      | inl e' ↦ rw (e, e') (λ h. absurd (cc))
      | inr e' ↦ rw (e, e') (tested-TestRun project copy s e' r)
    ]
  ]
    where
      made : Bool × State World
      made = call (S.allocate (length job.test_command + 1)) s

  compiled-outcome :
      (project copy : Text) (run : Ran) (s : State World)
      → Gives (compiled S P F C polls depth job candidate project copy (some run) s).0 (λ r.
        (r.candidate ≡ candidate)
        × (((¬ (Succeeds run)) × (r.outcome ≡ inconclusive) × Reports run r)
            ⊎ (Succeeds run × TestRun project copy s r)))
  compiled-outcome project copy run s r =
      elim (Bool-cases (run.timed_out || not (succeeded run.result))) [
        | inl e ↦ rw e (λ h.
            let same : result_with candidate inconclusive run ≡ r = cc in
            subst
              (λ r.
                (r.candidate ≡ candidate)
                × (((¬ (Succeeds run)) × (r.outcome ≡ inconclusive) × Reports run r)
                    ⊎ (Succeeds run × TestRun project copy s r)))
              same
              (
                refl,
                inl (
                  (λ g. let t = (succeeded_iff run.result).1 g.1 in let u = g.0 in ground arith),
                  refl,
                  (refl, refl),
                ),
              ))
        | inr e ↦ rw e (λ h.
            let (same, test) = test_mutant-TestRun project copy s r h in
            let a : run.timed_out ≡ false = ground arith in
            let b : succeeded run.result ≡ true = ground arith in
            (same, inr ((a, (succeeded_iff run.result).0 b), test)))
      ]

  build-CompileRun :
      (project copy : Text) (applied : Bool) (s : State World)
      → Gives
          (build S P F C polls depth job candidate project copy applied s).0
          (λ r. (applied ≡ true) × (r.candidate ≡ candidate) × CompileRun project copy s r)
  build-CompileRun project copy false s r = λ h. absurd (cc)
  build-CompileRun project copy true s r = go (built_at copy s).0 refl
    where
      run_of :
          (command : CommandCopy)
          → (built_at copy s).0 ≡ some (true, command)
          → (run : Option Ran) → (compile_at command (built_at copy s).1).0 ≡ run
          → (compiled S P F C polls depth job candidate project copy run
              (compile_at command (built_at copy s).1).1).0
            ≡ some (some r)
          → (true ≡ true) × (r.candidate ≡ candidate) × CompileRun project copy s r
      run_of command e none e' h = absurd (cc)
      run_of command e (some run) e' h =
          let (same, outcome) =
            compiled-outcome project copy run (compile_at command (built_at copy s).1).1 r h in
          (
            refl,
            same,
            record { command = command; run = run; built = e; ran = e'; outcome = outcome },
          )

      go :
          (built : Option (Bool × CommandCopy))
          → (built_at copy s).0 ≡ built
          → (compile S P F C polls depth job candidate project copy built (built_at copy s).1).0
            ≡ some (some r)
          → (true ≡ true) × (r.candidate ≡ candidate) × CompileRun project copy s r
      go none e h = absurd (cc)
      go (some (false, command)) e h = absurd (cc)
      go (some (true, command)) e h =
          run_of command e (compile_at command (built_at copy s).1).0 refl h

  when_removed-some :
      (executed : Executed S P F C polls depth) (removed : Option Bool) (r : MutationResult)
      → when_removed S P F C polls depth executed removed ≡ some (some r)
      → executed ≡ some (some r)
  when_removed-some executed none r h = absurd (cc)
  when_removed-some executed (some removed) r h = h

  copied-IsSound :
      (temp project : Text) (s : State World)
      → (temp_at s).0 ≡ some temp
      → (project_at s).0 ≡ some project
      → (copied : Option Bool) → (copied_at temp project s).0 ≡ copied
      → Gives
          (mutate S P F C polls depth job candidate project
            (copy_at temp s).0.1
            copied
            (copied_at temp project s).1).0
          (IsSound s)
  copied-IsSound temp project s made resolved none e r = λ h. absurd (cc)
  copied-IsSound temp project s made resolved (some false) e r = λ h. absurd (cc)
  copied-IsSound temp project s made resolved (some true) e r = λ h.
      let applied = applied_at temp project s in
      let (done, same, runs) =
        build-CompileRun project (copy_at temp s).0.1 applied.0 applied.1 r h in
      record {
        temp = temp;
        project = project;
        made = made;
        resolved = resolved;
        copied = e;
        applied = done;
        same = same;
        runs = runs;
      }

  project-IsSound :
      (temp : Text) (s : State World)
      → (temp_at s).0 ≡ some temp
      → (canonical : Option Text) → (project_at s).0 ≡ canonical
      → Gives
          (run_mutant S P F C polls depth job candidate temp canonical (project_at s).1).0
          (IsSound s)
  unfolding run_mutant
  project-IsSound temp s made none e r = λ h. absurd (cc)
  project-IsSound temp s made (some project) e r =
      copied-IsSound temp project s made e (copied_at temp project s).0 refl r

  temp-IsSound :
      (s : State World) (temp : Option Text)
      → (temp_at s).0 ≡ temp
      → Gives (execute_in S P F C polls depth job candidate temp (temp_at s).1).0 (IsSound s)
  temp-IsSound s none e r = λ h. absurd (cc)
  temp-IsSound s (some temp) e r = λ h.
      let ran =
        run_mutant S P F C polls depth job candidate temp (project_at s).0 (project_at s).1 in
      project-IsSound temp s e (project_at s).0 refl r
        (when_removed-some ran.0 (remove_tree S F depth temp ran.1).0 r h)

  -- A result that the run of a mutant gives is that of its candidate, whose copied project was edited and
  -- compiled: inconclusive if the compiler did not succeed; else the test command was run in the copy with the
  -- paths of the project rewritten, and the mutant is inconclusive exactly if this run was stopped at the
  -- timeout, survived exactly if it was not and has the result 0, and killed exactly if it was not and has
  -- another result, or none.
  pub execute-IsSound :
      (s : State World) (r : MutationResult)
      → (execute S P F C polls depth job candidate s).0 ≡ some (some r)
      → IsSound s r
  unfolding execute
  execute-IsSound s r h = temp-IsSound s (temp_at s).0 refl r h
