-- ===== src/Mutation/Types.antt =====
-- components/mutation/include/mutation_check.h: the structs and constants of test-mutation.
use p101_test.Base.{ℕ, Text, Bool, Option, List}

abbrev pub path_size : ℕ
path_size = 4096

abbrev pub exit_findings : ℕ
exit_findings = 1

abbrev pub exit_trouble : ℕ
exit_trouble = 2

-- The enumeration `p101_c_mutation_kind` is the library's; its values are numbers.
pub record Candidate : Type 0 where
  pub path : Text
  pub line : ℕ
  pub start : ℕ
  pub end : ℕ
  pub original : Option Text
  pub replacement : Option Text
  pub kind : ℕ

-- `count` is the length of `items`; `operators` are those of the arguments.
pub record Candidates : Type 0 where
  pub items : List Candidate
  pub capacity : ℕ
  pub operators : List ℕ

-- The fields of the library's `struct p101_c_analysis_record` that the program reads.
pub record AnalysisRecord : Type 0 where
  pub is_mutation : Bool
  pub mutation : ℕ
  pub path : Text
  pub line : ℕ
  pub start_offset : ℕ
  pub end_offset : ℕ
  pub name : Text
  pub replacement : Text

pub data Outcome : Type 0 where
  inconclusive survived killed : Outcome
