-- ===== src/Repository/Types.antt =====
-- components/repository-receipt/src/main.c: its struct and constants, and what it takes from the libraries.
use p101_test.Base.{ℕ, Text, Bool, Option, List, Call, Failure}
use p101_test.System.{System}

abbrev pub max_records : ℕ
max_records = 256

abbrev pub max_path : ℕ
max_path = 4096

abbrev pub max_line : ℕ
max_line = 16384

abbrev pub result_fields : ℕ
result_fields = 6

-- EINVAL and EOVERFLOW, as on Linux.
abbrev pub einval : ℕ
einval = 22

abbrev pub eoverflow : ℕ
eoverflow = 75

pub record RepositoryResult : Type 0 where
  pub repository : Text
  pub unit : Text
  pub fuzz : Text
  pub test_log : Text
  pub fuzz_log : Text
  pub duration_seconds : ℕ

pub record ReceiptLibrary (S : System) : Type 1 where
  pub Directory : Type 0
  pub opendir : Text → Call S.World (Option Directory)
  pub readdir : Directory → Call S.World (Option Text)
  -- Whether the call returned 0.
  pub closedir : Directory → Call S.World Bool
  -- A bound on the entries that are left. It is the fuel of a loop only.
  pub entries_left : Directory → S.World → ℕ
  -- The number that is read, where it is not negative, and the text that it leaves.
  pub strtol : Text → Call S.World (Option ℕ × Text)
  -- `p101_fprintf`, `p101_fputs` and `p101_fputc` of the expanded text to a file: whether the result is
  -- not negative.
  pub write : S.Stream → Text → Call S.World Bool
  -- `p101_json_write_string`: its status, and errno.
  pub json_write_string : S.Stream → Text → Call S.World (ℕ × ℕ)
  -- A diagnostic from its id, path, identity and message, with a status; and its writing.
  pub Diagnostic : Type 0
  pub diagnostic_initialize_id : Text → Text → Text → Text → ℕ × Diagnostic
  pub diagnostic_write : Diagnostic → Call S.World ℕ
  pub error_message : List Failure → Text
