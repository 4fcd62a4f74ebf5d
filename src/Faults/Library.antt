-- ===== src/Faults/Library.antt =====
-- What test-faults takes from lib_env, lib_record and lib_tool_event, apart from effects.
use p101_test.Base.{ℕ, Text, Bool, Option, List, Failure}
use p101_test.Faults.Types.{PolicySummary}

pub record FaultLibrary : Type 1 where
  -- The spellings of <p101_env/env.h>.
  pub fault_call_env : Text
  pub fault_errno_env : Text
  pub fault_log_env : Text
  pub fault_name_env : Text
  pub fault_mode_env : Text
  pub fault_amount_env : Text
  pub fault_repeat_env : Text
  pub resource_log_env : Text
  pub call_log_env : Text
  pub call_log_args_env : Text
  pub call_log_result_env : Text
  pub fault_log_tag : Text
  pub fault_log_version : Text
  -- `p101_env_fault_mode_from_name`, and the tests on its result.
  pub FaultMode : Type 0
  pub fault_mode_from_name : Text → Option FaultMode
  pub is_short : FaultMode → Bool
  pub is_uncertain : FaultMode → Bool
  -- The names of a mode's default phase and disposition, if the mode has defaults.
  pub fault_mode_defaults : FaultMode → Option (Text × Text)
  -- `p101_record_split`: the field at the cursor, and the cursor behind it, null at the end.
  pub record_split : Text → Text × Option Text
  pub record_unescape_field : Text → Text
  -- `p101_tool_event_parse_policy_summary_json_n` on a text and a schema name.
  pub parse_policy_summary : Text → Text → PolicySummary
  -- `p101_parse_unsigned_int` and `p101_parse_positive_int`: the number, or the failure's errno.
  pub parse_unsigned_int : Text → Option ℕ
  pub parse_positive_int : Text → Option ℕ
  pub parse_errno : Text → ℕ
  -- What the calls of `p101_getopt` return one after another up to -1: the option, `optarg` and
  -- `optopt`; then the final `optind`.
  pub getopt : List Text → List (ℕ × Option Text × ℕ) × ℕ
  -- `p101_error_is_error(err, P101_ERROR_USER, code)` and `p101_error_get_message`, on what was
  -- raised.
  pub error_is_user : ℕ → List Failure → Bool
  pub error_message : List Failure → Text
