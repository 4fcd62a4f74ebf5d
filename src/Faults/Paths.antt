-- ===== src/Faults/Paths.antt =====
-- src/paths.c: the files of a case, and the record of the fault that fired.
pub mod FaultLog
use p101_test.Base.{
  ℕ, ◌-◌, Text, codes, Bool, true, false, Option, none, some, List, [], ◌∷◌, ◌++◌, leb, ◌==◌,
  if◌then◌else◌, take, decimal, Failure, user, State, M, ◌>>=◌, ◌>>◌, return, call, call_optional,
  raise,
}
use p101_test.System.{System}
use p101_test.Faults.Types.{Arguments, RunResult, path_len, err_usage}

abbrev pub default_log_prefix : Text
default_log_prefix = codes "/tmp/test-faults"

-- `prefix-pid-baseline.run` or `prefix-pid-fault-index.run`
unfoldable pub run_dir_text : Text → ℕ → ℕ → Text
run_dir_text prefix pid fault_index =
    if fault_index == 0
    then prefix ++ codes "-" ++ decimal pid ++ codes "-baseline.run"
    else prefix
      ++ codes "-"
      ++ decimal pid
      ++ codes "-fault-"
      ++ decimal fault_index
      ++ codes ".run"

-- A missing prefix is the default one.
abbrev pub log_prefix_of : Arguments → Text
log_prefix_of args = elim args.log_prefix [ none ↦ default_log_prefix | some prefix ↦ prefix ]

module _ (S : System) where
  open S use {World, snprintf, getpid, fopen, fclose, error_create}

  unfoldable pub join_path : Text → Text → M World Text
  join_path dir name = do
    written ← call (snprintf path_len (dir ++ codes "/" ++ name))
    elim written.0 [
      | none ↦ do
        raise (user (codes "An error-path-walk report path is too long.") err_usage)
        return written.1
      | some n ↦
          if leb path_len n
          then (do
            raise (user (codes "An error-path-walk report path is too long.") err_usage)
            return written.1)
          else return written.1
    ]

  unfoldable pub make_log_paths : Arguments → ℕ → RunResult → M World RunResult
  unfolding join_path run_dir_text
  make_log_paths args fault_index result = do
    pid ← call getpid
    let text = run_dir_text (log_prefix_of args) pid fault_index
    run_dir ← call (snprintf path_len text)
    out ← call (snprintf path_len (text ++ codes ".stdout.txt"))
    error ← call (snprintf path_len (text ++ codes ".stderr.txt"))
    let dir = take (path_len - 1) run_dir.1
    capture_dir ← join_path dir (codes "capture")
    analysis_dir ← join_path dir (codes "analysis")
    resource_log_path ← join_path capture_dir (codes "resources.log")
    call_log_path ← join_path capture_dir (codes "calls.log")
    fault_log_path ← join_path capture_dir (codes "fault.log")
    resource_json_path ← join_path analysis_dir (codes "resource-report.json")
    analysis_json_path ← join_path analysis_dir (codes "correlated-report.json")
    report_path ← join_path analysis_dir (codes "correlated-report.txt")
    return (record result {
      run_dir = dir;
      pipeline_stdout_path = take (path_len - 1) out.1;
      pipeline_stderr_path = take (path_len - 1) error.1;
      capture_dir = capture_dir;
      analysis_dir = analysis_dir;
      resource_log_path = resource_log_path;
      call_log_path = call_log_path;
      fault_log_path = fault_log_path;
      resource_json_path = resource_json_path;
      analysis_json_path = analysis_json_path;
      report_path = report_path;
    })

  -- The error object of the predicate is its own, and is dropped with what it holds.
  unfoldable pub file_exists : Text → M World Bool
  file_exists path = do
    created ← call_optional error_create
    if created
        then (do
          stream ← call_optional (fopen path (codes "r"))
          elim stream [ none ↦ return false | some s ↦ do call_optional (fclose s); return true ])
        else return false
