-- ===== src/Tests/Shelf.antt =====
-- A small shelf of files and documents, on which the conformance program is tried.
use p101_test.Base.{
  ℕ, ◌+◌, ◌-◌, Text, codes, true, Option, none, some, List, [], ◌∷◌, ◌++◌, ◌==◌, if◌then◌else◌,
  length, take, drop, text_eq, State,
}
use p101_test.System.{System}
use p101_test.Tests.{first_line}
use p101_test.Conformance.Types.{ConformanceLibrary}

abbrev pub tab : Text
tab = b'\t' ∷ []

abbrev pub cell : Text → Text → Text
cell a b = a ++ tab ++ b

abbrev pub line : Text → Text
line a = a ++ b'\n' ∷ []

-- The files by their paths.
abbrev pub file_lines : Text → List Text
file_lines path =
    if text_eq path (codes "r/api-manifest.tsv")
    then codes "head\n" ∷ line (cell (codes "f") (cell (codes "u") (codes "a\tb\tc"))) ∷ []
    else if text_eq path (codes "r/test/unit-test-manifest.tsv")
    then codes "head\n" ∷ line (cell (codes "f") (cell (codes "u") (codes "fault\tx"))) ∷ []
    else if text_eq path (codes "r/test/conformance-manifest.tsv")
    then codes "head\n" ∷ line (cell (codes "f") (cell (codes "u") (codes "true\tfalse"))) ∷ []
    else if text_eq path (codes "r/test/fault-outcome-manifest.tsv")
    then codes "head\n" ∷ codes "f\tu\tE\t-\tA,B\t\t\t-\tB\t\t\n" ∷ []
    else if text_eq path (codes "out")
    then codes "P101WRAPPER\t1\t2\t3\t4\tf\tE\tA\t8\tPASS\n" ∷ []
    else if text_eq path (codes "mac")
    then codes "#define C 1\n" ∷ []
    else []

-- The lines of the file that is open, and the name of the document that is read.
pub record Shelf : Type 0 where
  pub lines : List Text
  pub document : Text

abbrev pub shelf : System
shelf = record {
  World = Shelf;
  Stream = Unit {0};
  snprintf = λ n t w. ((some (length t), take (n - 1) t), none, w);
  put = λ o t w. (tt, none, w);
  getpid = λ w. (7, none, w);
  fopen = λ path mode w. (some tt, none, record { lines = file_lines path; document = path });
  fclose = λ stream w. (true, none, w);
  fgets = λ n stream w. (first_line w.lines, none, record w { lines = drop 1 w.lines });
  lines_left = λ stream w. length w.lines;
  fread = λ n stream w. (take n w.document, none, w);
  fwrite = λ t stream w. (length t, none, w);
  fseek_end = λ stream w. (true, none, w);
  fseek_start = λ stream w. (true, none, w);
  ftell = λ stream w. (some (length w.document), none, w);
  allocate = λ n w. (true, none, w);
  error_create = λ w. (true, none, w);
  setenv = λ k v w. (tt, none, w);
  unsetenv = λ k w. (tt, none, w);
  getenv = λ k w. none;
  realpath = λ path w. (some path, none, w);
  tool_run_capture = λ vector out error w. (0, none, w);
}

abbrev pub number_of : Text → List (Text × ℕ) → Option ℕ
number_of key [] = none
number_of key ((k, n) ∷ rest) = if text_eq k key then some n else number_of key rest

-- The tokens of both documents: 0 is the root, 20 a capability, 21 an entry and 22 an exit.
abbrev pub tokens : ℕ → List (Text × ℕ)
tokens row =
    (codes "schema", 1)
    ∷ (codes "passed", 2)
    ∷ (codes "function_capabilities", 3)
    ∷ (codes "nodes", 4)
    ∷ (codes "library", 5)
    ∷ (codes "usr", 6)
    ∷ (codes "has_env", 2)
    ∷ (codes "domain", 7)
    ∷ (codes "name", 8)
    ∷ (codes "kind", if row == 21 then 9 else 10)
    ∷ (codes "arguments", 11)
    ∷ (codes "result", 12)
    ∷ []

abbrev pub token_texts : Text → ℕ → Text
token_texts document token =
    if token == 1
    then (if text_eq document (codes "ins")
        then codes "p101-instrumentation-platform-receipt-v1"
        else codes "p101-run-model-v1")
    else if token == 2
    then codes "true"
    else if token == 5
    then codes "lib"
    else if token == 6
    then codes "u"
    else if token == 7
    then codes "call"
    else if token == 8
    then codes "f"
    else if token == 9
    then codes "call-enter"
    else if token == 10
    then codes "call-exit"
    else codes "x=1"

abbrev pub conformance_library : ConformanceLibrary shelf
conformance_library = record {
  Json = Text;
  json_parse = λ text w. (some text, none, w);
  json_object_get = λ document row key. number_of key (tokens row);
  json_array_get = λ document array index. some (if array == 3 then 20 else 21 + index);
  json_is_array = λ document token. true;
  json_child_count = λ document array. if array == 3 then 1 else 2;
  json_token_copy = λ document token size w. (some (token_texts document token), none, w);
  json_token_equals = λ document token text. text_eq (token_texts document token) text;
  fprintf = λ stream text w. (true, none, w);
  Diagnostic = Unit {0};
  diagnostic_initialize_id = λ id path identity detail. (0, tt);
  diagnostic_write = λ diagnostic w. (0, none, w);
  state_size = 1;
  error_message = λ raised. [];
}

abbrev pub words : List Text
words =
    codes "conformance"
    ∷ codes "--library"
    ∷ codes "lib"
    ∷ codes "--repo"
    ∷ codes "r"
    ∷ codes "--instrumentation"
    ∷ codes "ins"
    ∷ codes "--model"
    ∷ codes "mod"
    ∷ codes "--outcomes"
    ∷ codes "out"
    ∷ codes "--platform"
    ∷ codes "linux"
    ∷ codes "--macros"
    ∷ codes "mac"
    ∷ codes "--receipt"
    ∷ codes "rec"
    ∷ []

abbrev pub empty_shelf : State Shelf
empty_shelf = record { raised = []; world = record { lines = []; document = [] } }
