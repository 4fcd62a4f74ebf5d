-- ===== src/Tests.antt =====
-- A small system and a small library, on which the theorems are tried.
mod Faults
mod Contract
mod Shelf
mod Conformance
mod Manifests
mod FaultLogs
mod Mutation
mod Running
mod Options
mod Mutants
mod Receipts
use p101_test.Base.{
  ℕ, zero, suc, ◌+◌, ◌-◌, ◌<◌, ◌≡◌, refl, sym, ap, ◌∙◌, Text, codes, Bool, true, false, ◌&&◌,
  Option, none, some, List, [], ◌∷◌, ◌++◌, ◌==◌, leb, if◌then◌else◌, length, take, drop, text_eq,
  State, Failure, arith,
}
use p101_test.System.{System, Output}
use p101_test.Faults.Types.{Arguments, PolicySummary}
use p101_test.Faults.Library.{FaultLibrary}
use p101_test.Faults.Cli.{initial_arguments}

-- The lines that `fgets` gives, the bytes that `fread` gives, the environment, and what was written.
pub record Desk : Type 0 where
  pub lines : List Text
  pub left : Text
  pub env : Text → Option Text
  pub out : Text

abbrev pub first_line : List Text → Option Text
first_line [] = none
first_line (line ∷ lines) = some line

abbrev pub desk : System
desk = record {
  World = Desk;
  Stream = Unit {0};
  snprintf = λ n t w. ((some (length t), take (n - 1) t), none, w);
  put = λ o t w. (tt, none, w);
  getpid = λ w. (7, none, w);
  fopen = λ path mode w.
      (some tt, none, if text_eq mode (codes "wb") then record w { out = [] } else w);
  fclose = λ stream w. (true, none, w);
  fgets = λ n stream w. (first_line w.lines, none, record w { lines = drop 1 w.lines });
  lines_left = λ stream w. length w.lines;
  fread = λ n stream w. (take n w.left, none, record w { left = drop n w.left });
  fwrite = λ t stream w. (length t, none, record w { out = w.out ++ t });
  fseek_end = λ stream w. (true, none, w);
  fseek_start = λ stream w. (true, none, w);
  ftell = λ stream w. (some (length w.left), none, w);
  allocate = λ n w. (true, none, w);
  error_create = λ w. (true, none, w);
  setenv = λ k v w. (tt, none, record w { env = λ j. if text_eq j k then some v else w.env j });
  unsetenv = λ k w. (tt, none, record w { env = λ j. if text_eq j k then none else w.env j });
  getenv = λ k w. w.env k;
  realpath = λ path w. (some path, none, w);
  tool_run_capture = λ vector out error w. (0, none, w);
}

abbrev pub clear_desk : Desk
clear_desk = record { lines = []; left = []; env = λ k. none; out = [] }

-- A byte written as so many 'a' and a 'b'.
abbrev pub escape_byte : ℕ → Text → Text
escape_byte zero rest = b'b' ∷ rest
escape_byte (suc c) rest = b'a' ∷ escape_byte c rest

abbrev pub escape : Text → Text
escape [] = []
escape (c ∷ t) = escape_byte c (escape t)

abbrev pub unescape_from : ℕ → Text → Text
unescape_from n [] = []
unescape_from n (c ∷ t) =
    let more = unescape_from (suc n) t in
    let next = unescape_from 0 t in if c == b'a' then more else n ∷ next

-- Split at the first tab.
abbrev pub split_at_tab : Text → Text × Option Text
split_at_tab [] = ([], none)
split_at_tab (c ∷ t) =
    let rest = split_at_tab t in if c == 9 then ([], some t) else (c ∷ rest.0, rest.1)

abbrev pub no_findings : PolicySummary
no_findings = record { parsed = true; records = 1; findings = 0 }

abbrev pub digit : Text → Option ℕ
digit [] = none
digit (c ∷ t) = if leb b'0' c && leb c b'9' then some (c - b'0') else none

abbrev pub library : FaultLibrary
library = record {
  fault_call_env = codes "P101_FAULT_CALL";
  fault_errno_env = codes "P101_FAULT_ERRNO";
  fault_log_env = codes "P101_FAULT_LOG";
  fault_name_env = codes "P101_FAULT_NAME";
  fault_mode_env = codes "P101_FAULT_MODE";
  fault_amount_env = codes "P101_FAULT_AMOUNT";
  fault_repeat_env = codes "P101_FAULT_REPEAT";
  resource_log_env = codes "P101_RESOURCE_LOG";
  call_log_env = codes "P101_CALL_LOG";
  call_log_args_env = codes "P101_CALL_LOG_ARGS";
  call_log_result_env = codes "P101_CALL_LOG_RESULT";
  fault_log_tag = codes "P101FAULT";
  fault_log_version = codes "1";
  FaultMode = ℕ;
  fault_mode_from_name = λ t. some (length t);
  is_short = λ m. m == 6;
  is_uncertain = λ m. m == 9;
  fault_mode_defaults = λ m. some (codes "entry", codes "not-started");
  record_split = split_at_tab;
  record_unescape_field = unescape_from 0;
  parse_policy_summary = λ text schema. no_findings;
  parse_unsigned_int = digit;
  parse_positive_int = digit;
  parse_errno = λ t. 22;
  getopt = λ argv. ((b'n', some (codes "3"), 0) ∷ [], 2);
  error_is_user = λ code raised. true;
  error_message = λ raised. codes "failed";
}

abbrev pub start : State Desk
start = record { raised = []; world = clear_desk }

-- A command that is tried with one injected failure.
abbrev pub arguments : Arguments
unfolding initial_arguments
arguments = record initial_arguments {
  command_argv = some (codes "true" ∷ []);
  max_failures_str = some (codes "3");
  max_failures = 1;
}
