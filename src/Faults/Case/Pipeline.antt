-- ===== src/Faults/Case/Pipeline.antt =====
-- The argument vector of `run_p101_pipeline` in src/runner.c.
use p101_test.Base.{
  ◌≡◌, ◌+◌, Text, codes, false, List, ◌∷◌, ◌++◌, length, take-eq_self, suc, ltb, ltb→lt, lt→ltb,
  if◌then◌else◌, State, user, call, arith, refl, Bool-cases, inl, inr,
}
use p101_test.System.{System}
use p101_test.Faults.Types.{Arguments, RunResult, err_usage}
use p101_test.Faults.Library.{FaultLibrary}
use p101_test.Faults.Case.{tool_prefix, list_of, run_p101_pipeline, max_tool_args}

module _ (S : System) (L : FaultLibrary) where
  open S use {World, tool_run_capture}

  -- A command that fits MAX_TOOL_ARGS, behind the words of the tool and with the final null pointer, is
  -- handed on whole; a longer one is refused: a usage error is raised and nothing is run.
  pub run_p101_pipeline_lem :
      (args : Arguments) (result : RunResult) (s : State World)
      → let command = list_of args.command_argv in
        let vector = tool_prefix args result ++ command in
        run_p101_pipeline S L args result s ≡ (
          if ltb max_tool_args (length vector + 1)
          then (
            0,
            record s {
              raised =
                  user (codes "The command has too many arguments for test-faults.") err_usage
                  ∷ s.raised;
            },
          )
          else call
              (tool_run_capture vector result.pipeline_stdout_path result.pipeline_stderr_path)
              s)
  unfolding run_p101_pipeline tool_prefix
  run_p101_pipeline_lem args result s =
      rw (size_test (list_of args.command_argv))
        (elim (Bool-cases (ltb 120 (length (list_of args.command_argv)))) [
          | inl e ↦ rw e refl
          | inr e ↦ rw (e, take-eq_self 120 (list_of args.command_argv) (ground arith))
        ])
    where
      small :
          (l : List Text)
          → ltb 120 (length l) ≡ false
          → ltb 128 (suc (suc (suc (suc (suc (suc (suc (length l))))))) + 1) ≡ false
      small l e = ground arith

      size_test :
          (l : List Text)
          → ltb max_tool_args (length (tool_prefix args result ++ l) + 1) ≡ ltb 120 (length l)
      size_test l = elim (Bool-cases (ltb 120 (length l))) [
        | inl e ↦ rw e (lt→ltb _ _ (omega (arith, ltb→lt 120 (length l) e)))
        | inr e ↦ rw e (small l e)
      ]
