-- ===== src/Faults/Case/Result.antt =====
-- src/runner.c: the index and the fault's name in the result of a case.
use p101_test.Base.{
  ℕ, ◌<◌, ◌≡◌, Bool, true, false, length, State, M, has_failures, arith, refl, Bool-cases, inl, inr,
}
use p101_test.System.{System}
use p101_test.Faults.Types.{Arguments, RunResult, name_len}
use p101_test.Faults.Library.{FaultLibrary}
use p101_test.Faults.Paths.{make_log_paths}
use p101_test.Faults.Paths.FaultLog.Bounds.{read_fault_hit-short}
use p101_test.Faults.Case.{
  new_result, run_and_read, read_resources, read_analysis, read_summaries, unless_error,
  run_and_summarise, set_and_run, case_body, run_one_case,
}

-- The index is the one asked for, and the name with its final NUL fits `char[NAME_LEN]`.
pub record IsResultOf (fault_index : ℕ) (result : RunResult) : Type 0 where
  pub index : result.fault_index ≡ fault_index
  pub short : length result.fault_name < name_len

module _ (S : System) (L : FaultLibrary) (i : ℕ) where
  open S use {World}

  abbrev Gives : M World RunResult → State World → Type 0
  Gives m s = IsResultOf i (m s).0

  unless_error-Gives :
      (next : M World RunResult) (result : RunResult) (s : State World)
      → Gives next s
      → IsResultOf i result
      → Gives (unless_error S L next result) s
  unfolding unless_error
  unless_error-Gives next result s h k = elim (Bool-cases (has_failures s.raised)) [
    | inl e ↦ rw e k
    | inr e ↦ rw e h
  ]

  make_log_paths-Gives :
      (args : Arguments) (s : State World) → Gives (make_log_paths S args i (new_result i)) s
  unfolding make_log_paths
  make_log_paths-Gives args s = record { index = refl; short = omega arith }

  run_and_read-Gives :
      (args : Arguments) (result : RunResult) (s : State World)
      → IsResultOf i result
      → Gives (run_and_read S L args result) s
  unfolding run_and_read
  run_and_read-Gives args result s h = record {
    index = h.index;
    short = read_fault_hit-short L S result.fault_log_path _;
  }

  read_resources-Gives :
      (present listed : Bool) (result : RunResult) (s : State World)
      → IsResultOf i result
      → Gives (read_resources S L present listed result) s
  unfolding read_resources
  read_resources-Gives true true result s h = record { index = h.index; short = h.short }
  read_resources-Gives true false result s h = record { index = h.index; short = h.short }
  read_resources-Gives false listed result s h = record { index = h.index; short = h.short }

  read_analysis-Gives :
      (analysed : Bool) (result : RunResult) (s : State World)
      → IsResultOf i result
      → Gives (read_analysis S L analysed result) s
  unfolding read_analysis
  read_analysis-Gives true result s h = record { index = h.index; short = h.short }
  read_analysis-Gives false result s h = h

  read_summaries-Gives :
      (result : RunResult) (s : State World)
      → IsResultOf i result
      → Gives (read_summaries S L result) s
  unfolding read_summaries
  read_summaries-Gives result s h = read_analysis-Gives _ _ _ (read_resources-Gives _ _ result _ h)

  run_and_summarise-Gives :
      (args : Arguments) (result : RunResult) (s : State World)
      → IsResultOf i result
      → Gives (run_and_summarise S L args result) s
  unfolding run_and_summarise
  run_and_summarise-Gives args result s h =
      let r = run_and_read-Gives args result s h in
      unless_error-Gives (read_summaries S L (run_and_read S L args result s).0) _ _
        (read_summaries-Gives _ _ r) r

  set_and_run-Gives :
      (args : Arguments) (result : RunResult) (s : State World)
      → IsResultOf i result
      → Gives (set_and_run S L args result) s
  unfolding set_and_run
  set_and_run-Gives args result s h =
      unless_error-Gives (run_and_summarise S L args result) result _
        (run_and_summarise-Gives args result _ h) h

  case_body-Gives :
      (args : Arguments) (result : RunResult) (s : State World)
      → IsResultOf i result
      → Gives (case_body S L args result) s
  unfolding case_body
  case_body-Gives args result s h =
      unless_error-Gives (set_and_run S L args result) result _ (set_and_run-Gives args result _ h)
        h

  -- Every case gives the result of its own index, with a name that fits, on every path.
  pub run_one_case-IsResultOf :
      (args : Arguments) (s : State World) → IsResultOf i (run_one_case S L args i s).0.1
  unfolding run_one_case
  run_one_case-IsResultOf args s =
      unless_error-Gives (case_body S L args (make_log_paths S args i (new_result i) s).0) _ _
        (case_body-Gives args _ _ (make_log_paths-Gives args s)) (make_log_paths-Gives args s)
