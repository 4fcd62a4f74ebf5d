-- ===== src/Contract/Types.antt =====
-- components/command-contract/src/main.c: its modes and structs, and what it takes from the libraries.
use p101_test.Base.{ℕ, Text, Bool, Option, List, Call, Failure}
use p101_test.System.{System}

abbrev pub prefix_size : ℕ
prefix_size = 4096

abbrev pub exit_finding : ℕ
exit_finding = 1

abbrev pub exit_trouble : ℕ
exit_trouble = 2

pub data Mode : Type 0 where
  determinism redaction output_limit time_limit recovery schema_compatibility
        side_effect_determinism :
      Mode

-- A captured file is its bytes; its size is their number.
pub record RunCapture : Type 0 where
  pub standard_output : Text
  pub standard_error : Text
  pub status : ℕ

-- A reading of the monotonic clock.
pub record Timespec : Type 0 where
  pub seconds : ℕ
  pub nanoseconds : ℕ

pub record ContractLibrary (S : System) : Type 0 where
  -- `p101_tool_diagnostic_parse_outputs`: the selection, if the text is valid, and its two bits.
  pub parse_outputs : Text → Option ℕ
  pub default_outputs : ℕ
  pub is_human : ℕ → Bool
  pub is_json : ℕ → Bool
  -- `p101_tool_diagnostic_initialize` and `p101_tool_diagnostic_write_outputs` on a finding and its
  -- message: the status, and errno.
  pub diagnose : Bool → Bool → Text → Text → Call S.World (ℕ × ℕ)
  -- `p101_parse_unsigned_long_long`: the number, or the failure's errno.
  pub parse_unsigned_long_long : Text → Option ℕ
  pub parse_errno : Text → ℕ
  pub clock_gettime : Call S.World (Option Timespec)
  pub unlink : Text → Call S.World (Unit {0})
  pub default_tmpdir : Text
  -- `p101_error_get_message`, on what was raised.
  pub error_message : List Failure → Text
