-- ===== src/Conformance/Types.antt =====
-- components/conformance/src/main.c: its structs and constants, and what it takes from the libraries.
use p101_test.Base.{ℕ, ◌*◌, Text, Bool, Option, none, List, [], false, Call, Failure}
use p101_test.System.{System}

abbrev pub max_apis : ℕ
max_apis = 2048

abbrev pub max_line : ℕ
max_line = 32768

abbrev pub max_name : ℕ
max_name = 256

abbrev pub max_usr : ℕ
max_usr = 1024

abbrev pub max_faults : ℕ
max_faults = 8192

abbrev pub max_json : ℕ
max_json = 128 * 1024 * 1024

abbrev pub path_size : ℕ
path_size = 4096

abbrev pub macro_extra : ℕ
macro_extra = 16

abbrev pub einval : ℕ
einval = 22

-- EOVERFLOW, as on Linux.
abbrev pub eoverflow : ℕ
eoverflow = 75

pub record ApiRecord : Type 0 where
  pub name : Text
  pub usr : Text
  pub tested : Bool
  pub fault_test : Bool
  pub conformance_seen : Bool
  pub instrumentation_seen : Bool
  pub trace_applicable : Bool
  pub require_arguments : Bool
  pub require_result : Bool
  pub enters : ℕ
  pub exits : ℕ
  pub arguments : Bool
  pub result : Bool

pub record ExpectedFault : Type 0 where
  pub wrapper : Text
  pub domain : Text
  pub symbol : Text
  pub observed : Bool

-- The two counts of used rows are the lengths of the lists.
pub record Conformance : Type 0 where
  pub apis : List ApiRecord
  pub faults : List ExpectedFault
  pub fault_outcomes_observed : ℕ
  pub findings : ℕ

-- The memory that `p101_calloc` gives.
abbrev pub no_conformance : Conformance
no_conformance = record { apis = []; faults = []; fault_outcomes_observed = 0; findings = 0 }

-- A row of zeroes with its name and its identity.
abbrev pub new_api : Text → Text → ApiRecord
new_api name usr = record {
  name = name;
  usr = usr;
  tested = false;
  fault_test = false;
  conformance_seen = false;
  instrumentation_seen = false;
  trace_applicable = false;
  require_arguments = false;
  require_result = false;
  enters = 0;
  exits = 0;
  arguments = false;
  result = false;
}

-- The options that were given so far; the others are null.
pub record Arguments : Type 0 where
  pub library : Option Text
  pub repo : Option Text
  pub instrumentation : Option Text
  pub model : Option Text
  pub outcomes : Option Text
  pub platform : Option Text
  pub macros : Option Text
  pub receipt : Option Text
  pub help : Bool

abbrev pub no_arguments : Arguments
no_arguments = record {
  library = none;
  repo = none;
  instrumentation = none;
  model = none;
  outcomes = none;
  platform = none;
  macros = none;
  receipt = none;
  help = false;
}

-- The options when all are given.
pub record Inputs : Type 0 where
  pub library : Text
  pub repo : Text
  pub instrumentation : Text
  pub model : Text
  pub outcomes : Text
  pub platform : Text
  pub macros : Text
  pub receipt : Text

pub record ConformanceLibrary (S : System) : Type 1 where
  -- A parsed document of lib_json; its tokens are numbers, and 0 is the root.
  pub Json : Type 0
  pub json_parse : Text → Call S.World (Option Json)
  pub json_object_get : Json → ℕ → Text → Option ℕ
  pub json_array_get : Json → ℕ → ℕ → Option ℕ
  -- `document.tokens[token].kind == P101_JSON_ARRAY`, and `child_count`
  pub json_is_array : Json → ℕ → Bool
  pub json_child_count : Json → ℕ → ℕ
  -- The text of a token, if it fits a buffer of the given size.
  pub json_token_copy : Json → ℕ → ℕ → Call S.World (Option Text)
  pub json_token_equals : Json → ℕ → Text → Bool
  -- Whether `p101_fprintf` of the expanded text to a file did not return a negative number.
  pub fprintf : S.Stream → Text → Call S.World Bool
  -- A diagnostic of lib_tool_support: from its id, path, identity and detail, with a status; and its
  -- writing to the standard error output.
  pub Diagnostic : Type 0
  pub diagnostic_initialize_id : Text → Text → Text → Text → ℕ × Diagnostic
  pub diagnostic_write : Diagnostic → Call S.World ℕ
  -- `sizeof(struct conformance)`
  pub state_size : ℕ
  -- `p101_error_get_message`, on what was raised.
  pub error_message : List Failure → Text
