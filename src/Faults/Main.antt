-- ===== src/Faults/Main.antt =====
-- src/main.c: the program. The tracer that -v sets and the objects that are created and destroyed
-- are the libraries'.
pub mod Outcome
use p101_test.Base.{
  ℕ, zero, suc, Text, codes, Bool, true, false, not, ◌&&◌, Option, none, some, List, [], ◌∷◌, ◌++◌,
  if◌then◌else◌, get_or, Failure, State, M, ◌>>=◌, ◌>>◌, return, call, has_failures, has_error,
}
use p101_test.System.{System, stderr}
use p101_test.Faults.Types.{Arguments, err_usage, exit_success, exit_trouble}
use p101_test.Faults.Library.{FaultLibrary}
use p101_test.Faults.Cli.{initial_arguments, parse_arguments, check_arguments}
use p101_test.Faults.Cli.Convert.{convert_arguments}
use p101_test.Faults.Cli.Usage.{usage}
use p101_test.Faults.Campaign.{run}

module _ (S : System) (L : FaultLibrary) where
  open S use {World, put}

  -- The next step, unless the error object holds a failure: `goto done` with EXIT_TROUBLE.
  unless_failed : M World ℕ → M World ℕ
  unless_failed next = do failed ← has_error; if failed then return exit_trouble else next

  unfoldable pub converted : Arguments → M World ℕ
  unfolding unless_failed
  converted args = do args' ← convert_arguments S L args; unless_failed (run S L args')

  unfoldable pub checked : Arguments → M World ℕ
  unfolding unless_failed
  checked args = do check_arguments S L args; unless_failed (converted args)

  pub help : Text → M World ℕ
  help program = do usage S program none; return exit_success

  unfoldable pub parsed : Text → Bool → Arguments → M World ℕ
  unfolding unless_failed
  parsed program failed args =
      if args.show_help && not failed then help program else unless_failed (checked args)

  -- `main` up to `done`.
  unfoldable pub main_body : List Text → M World ℕ
  unfolding parsed
  main_body argv = do
    args ← parse_arguments S L argv initial_arguments
    failed ← has_error
    parsed (get_or argv 0 []) failed args

  report_failure : Text → List Failure → M World (Unit {0})
  report_failure program raised =
      if L.error_is_user err_usage raised
      then usage S program (some (L.error_message raised))
      else call (put stderr (L.error_message raised ++ (b'\n' ∷ [])))

  finish : Text → ℕ → List Failure → M World ℕ
  finish program status [] = return status
  finish program status (f ∷ fs) = do report_failure program (f ∷ fs); return exit_trouble

  unfoldable pub main : List Text → M World ℕ
  unfolding main_body finish report_failure
  main argv s =
      let ended = main_body argv s in finish (get_or argv 0 []) ended.0 ended.1.raised ended.1
