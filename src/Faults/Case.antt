-- ===== src/Faults/Case.antt =====
-- src/runner.c: one case, `run_one_case`, with the environment that it makes and clears.
pub mod Environment
pub mod Pipeline
pub mod Result
use p101_test.Base.{
  ℕ, ◌-◌, ◌+◌, Text, codes, Bool, true, false, ◌&&◌, Option, none, some, List, [], ◌∷◌, ◌++◌, ltb,
  ◌==◌, if◌then◌else◌, take, drop, decimal, length, leb, Failure, user, State, M, ◌>>=◌, ◌>>◌,
  return, call, raise, has_error,
}
use p101_test.System.{System}
use p101_test.Faults.Types.{
  Arguments, RunResult, path_len, fault_len, err_usage, exit_success, exit_trouble,
}
use p101_test.Faults.Library.{FaultLibrary}
use p101_test.Faults.Variables.{
  child_fault_call_env, child_fault_errno_env, child_fault_log_env, child_fault_name_env,
  child_fault_mode_env, child_fault_amount_env, child_fault_repeat_env, fault_variables,
}
use p101_test.Faults.Paths.{make_log_paths, file_exists}
use p101_test.Faults.Paths.FaultLog.{read_fault_hit}
use p101_test.Faults.Policy.{read_policy_json, no_summary, policy_output_limit}
use p101_test.Faults.Status.{pipeline_status_is_acceptable}

abbrev pub max_tool_args : ℕ
max_tool_args = 128

-- `memset(result, 0, sizeof(*result)); result->fault_index = fault_index;`
abbrev pub new_result : ℕ → RunResult
new_result fault_index = record {
  fault_index = fault_index;
  status = 0;
  fault_hit = false;
  resource_log_present = false;
  pipeline_ok = false;
  fault_name = [];
  run_dir = [];
  capture_dir = [];
  analysis_dir = [];
  resource_log_path = [];
  call_log_path = [];
  fault_log_path = [];
  resource_json_path = [];
  analysis_json_path = [];
  report_path = [];
  pipeline_stdout_path = [];
  pipeline_stderr_path = [];
  resources = no_summary;
  analysis = no_summary;
}

abbrev pub text_of : Option Text → Text
text_of none = []
text_of (some t) = t

abbrev pub list_of : Option (List Text) → List Text
list_of none = []
list_of (some l) = l

abbrev pub is_given : Option Text → Bool
is_given none = false
is_given (some t) = true

-- A copy into a `char[PATH_LEN]` by `p101_strncpy`.
abbrev pub path_copy : Text → Text
path_copy text = take (path_len - 1) text

-- The seven words before the command.
unfoldable pub tool_prefix : Arguments → RunResult → List Text
tool_prefix args result =
    path_copy (text_of args.p101_run)
    ∷ codes "run"
    ∷ codes "-o"
    ∷ path_copy result.run_dir
    ∷ codes "--observe-tool"
    ∷ path_copy (text_of args.p101_observe)
    ∷ codes "--"
    ∷ []

-- The words of the command that the vector still takes: the loop runs while there is a word and
-- room below MAX_TOOL_ARGS - 1.
abbrev pub command_room : List Text → ℕ
command_room prefix = max_tool_args - 1 - length prefix

module _ (S : System) (L : FaultLibrary) where
  open S use {World, snprintf, setenv, unsetenv, tool_run_capture}

  unfoldable pub unset_all : List Text → M World (Unit {0})
  unset_all [] = return tt
  unset_all (name ∷ names) = do call (unsetenv name); unset_all names

  unfoldable pub clear_fault_environment : M World (Unit {0})
  unfolding unset_all
  clear_fault_environment = unset_all (fault_variables L)

  unfoldable pub reset_run_environment : M World (Unit {0})
  reset_run_environment = do clear_fault_environment; call (unsetenv L.resource_log_env)

  unfoldable pub run_p101_pipeline : Arguments → RunResult → M World ℕ
  run_p101_pipeline args result =
      let prefix = tool_prefix args result in
      let command = list_of args.command_argv in
      let room = command_room prefix in
      if ltb room (length command)
      then (do
        raise (user (codes "The command has too many arguments for test-faults.") err_usage)
        return 0)
      else call (
          tool_run_capture (prefix ++ take room command) result.pipeline_stdout_path
            result.pipeline_stderr_path)

  -- A number printed into a `char[FAULT_LEN]` and set.
  unfoldable pub set_number : Text → ℕ → M World (Unit {0})
  set_number name n = do
    printed ← call (snprintf fault_len (decimal n))
    call (setenv name printed.1)

  unfoldable pub set_optional : Text → Option Text → M World (Unit {0})
  set_optional name none = return tt
  set_optional name (some value) = call (setenv name value)

  -- The variables of the case.
  unfoldable pub set_fault_environment : Arguments → RunResult → M World (Unit {0})
  set_fault_environment args result = do
    call (setenv child_fault_log_env result.fault_log_path)
    set_optional child_fault_name_env args.fault_name
    call (setenv child_fault_mode_env args.fault_mode)
    amount ← call (snprintf fault_len (decimal args.fault_amount))
    repeat ← call (snprintf fault_len (decimal args.fault_repeat))
    call (setenv child_fault_amount_env amount.1)
    call (setenv child_fault_repeat_env repeat.1)
    (if is_given args.fault_errno_str
        then set_number child_fault_errno_env args.fault_errno
        else return tt)
    if ltb 0 result.fault_index
        then set_number child_fault_call_env result.fault_index
        else return tt

  -- From the pipeline to the fault that fired.
  unfoldable pub run_and_read : Arguments → RunResult → M World RunResult
  run_and_read args result = do
    status ← run_p101_pipeline args result
    found ← read_fault_hit L S result.fault_log_path
    return (record result {
      status = status;
      pipeline_ok = pipeline_status_is_acceptable status;
      fault_hit = found.0;
      fault_name = found.1;
    })

  unfoldable pub read_resources : Bool → Bool → RunResult → M World RunResult
  read_resources present listed result =
      if present && listed
      then (do
        summary ←
            read_policy_json S L policy_output_limit result.resource_json_path
              (codes "p101-resource-policy-findings-v1")
        return (record result { resource_log_present = present; resources = summary }))
      else return (record result { resource_log_present = present })

  unfoldable pub read_analysis : Bool → RunResult → M World RunResult
  read_analysis analysed result =
      if analysed
      then (do
        summary ←
            read_policy_json S L policy_output_limit result.analysis_json_path
              (codes "p101-analysis-findings-v1")
        return (record result { analysis = summary }))
      else return result

  -- The log and the two summaries. The resource report is looked for only behind a log.
  unfoldable pub read_summaries : RunResult → M World RunResult
  read_summaries result = do
    present ← file_exists S result.resource_log_path
    listed ← (if present then file_exists S result.resource_json_path else return false)
    result' ← read_resources present listed result
    analysed ← file_exists S result.analysis_json_path
    read_analysis analysed result'

  -- `if(p101_error_has_error(err)) goto done;` and what follows it otherwise.
  unfoldable pub unless_error : M World RunResult → RunResult → M World RunResult
  unless_error next result = do failed ← has_error; if failed then return result else next

  unfoldable pub run_and_summarise : Arguments → RunResult → M World RunResult
  run_and_summarise args result = do
    read ← run_and_read args result
    unless_error (read_summaries read) read

  unfoldable pub set_and_run : Arguments → RunResult → M World RunResult
  set_and_run args result = do
    set_fault_environment args result
    unless_error (run_and_summarise args result) result

  -- What stands between the making of the paths and `done`.
  unfoldable pub case_body : Arguments → RunResult → M World RunResult
  case_body args result = do clear_fault_environment; unless_error (set_and_run args result) result

  -- The status, and the result.
  unfoldable pub run_one_case : Arguments → ℕ → M World (ℕ × RunResult)
  run_one_case args fault_index = do
    result ← make_log_paths S args fault_index (new_result fault_index)
    finished ← unless_error (case_body args result) result
    clear_fault_environment
    failed ← has_error
    return ((if failed then exit_trouble else exit_success), finished)
