-- ===== src/Faults/Types.antt =====
-- The structs of include/arguments.h and include/result.h, and the constants of include/constants.h.
use p101_test.Base.{ℕ, Text, Bool, Option, List}

abbrev pub path_len : ℕ
path_len = 1024

abbrev pub name_len : ℕ
name_len = 128

abbrev pub msg_len : ℕ
msg_len = 256

abbrev pub fault_len : ℕ
fault_len = 32

abbrev pub exit_success : ℕ
exit_success = 0

abbrev pub exit_findings : ℕ
exit_findings = 1

abbrev pub exit_trouble : ℕ
exit_trouble = 2

abbrev pub err_usage : ℕ
err_usage = 1

-- The fields of `struct p101_tool_event_policy_summary` that the program reads.
pub record PolicySummary : Type 0 where
  pub parsed : Bool
  pub records : ℕ
  pub findings : ℕ

-- A pointer that may be NULL is an `Option`.
pub record Arguments : Type 0 where
  pub max_failures_str : Option Text
  pub fault_errno_str : Option Text
  pub fault_name : Option Text
  pub fault_mode : Text
  pub fault_amount_str : Option Text
  pub fault_repeat_str : Option Text
  pub log_prefix : Option Text
  pub p101_run : Option Text
  pub p101_observe : Option Text
  pub command_argv : Option (List Text)
  pub max_failures : ℕ
  pub fault_errno : ℕ
  pub fault_amount : ℕ
  pub fault_repeat : ℕ
  pub verbose : Bool
  pub stop_at_exhaustion : Bool
  pub show_help : Bool

pub record RunResult : Type 0 where
  pub fault_index : ℕ
  pub status : ℕ
  pub fault_hit : Bool
  pub resource_log_present : Bool
  pub pipeline_ok : Bool
  pub fault_name : Text
  pub run_dir : Text
  pub capture_dir : Text
  pub analysis_dir : Text
  pub resource_log_path : Text
  pub call_log_path : Text
  pub fault_log_path : Text
  pub resource_json_path : Text
  pub analysis_json_path : Text
  pub report_path : Text
  pub pipeline_stdout_path : Text
  pub pipeline_stderr_path : Text
  pub resources : PolicySummary
  pub analysis : PolicySummary
