-- ===== src/Mutation/Library.antt =====
-- What the options and the reports of test-mutation take from the C library, lib_c_facts and
-- lib_tool_support.
use p101_test.Base.{ℕ, Text, Bool, Option, List, Call}
use p101_test.System.{System, Output}
use p101_test.Mutation.Run.{Processes}

-- `p101_tool_outcome`
pub data ToolOutcome : Type 0 where
  clean findings tool_error : ToolOutcome

pub record MutationLibrary (S : System) (P : Processes S) : Type 1 where
  -- The number that is read, and the text that it leaves.
  pub strtoul : Text → Call S.World (ℕ × Text)
  pub strtod : Text → Call S.World (P.Timeout × Text)
  pub is_positive : P.Timeout → Bool
  -- DEFAULT_TIMEOUT_SECONDS, 120.0
  pub default_timeout : P.Timeout
  pub kind_from_name : Text → Option ℕ
  pub kind_name : ℕ → Text
  -- The values from P101_C_MUTATION_NONE to P101_C_MUTATION_SKIP_CALL.
  pub kinds : List ℕ
  -- `p101_tool_report_parse_output_option`: whether the selection is human and whether it is JSON.
  pub parse_output_option : Text → Option (Bool × Bool)
  -- `p101_json_write_string`: its status, and errno.
  pub json_write_string : Output → Text → Call S.World (ℕ × ℕ)
  pub outcome_exit_status : ToolOutcome → ℕ
  -- A report with its selection of human and JSON output; its calls give a status and errno.
  pub Report : Type 0
  pub report_begin : Bool → Bool → Call S.World ((ℕ × ℕ) × Report)
  -- A warning of P101_TOOL_FINDING_MUTATION_001 on a path, a line and a message.
  pub Diagnostic : Type 0
  pub diagnostic_initialize : Text → ℕ → Text → Call S.World ((ℕ × ℕ) × Diagnostic)
  pub report_emit : Report → Diagnostic → Call S.World (ℕ × ℕ)
  -- The outcome, the exit status, and the counters with their names.
  pub report_end : Report → ToolOutcome → ℕ → List (Text × ℕ) → Call S.World (ℕ × ℕ)
