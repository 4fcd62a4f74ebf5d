-- ===== src/Mutation/Options.antt =====
-- components/mutation/src/cli.c: the options of test-mutation.
pub mod Ready
use p101_test.Base.{
  ℕ, suc, ◌+◌, ◌-◌, Text, codes, Bool, true, false, not, ◌&&◌, ◌||◌, Option, none, some, List, [],
  ◌∷◌, ◌++◌, map, ltb, leb, ◌==◌, if◌then◌else◌, length, get_or, drop, text_eq, has_prefix, Failure,
  user, State, M, ◌>>=◌, ◌>>◌, return, call, raise, has_error,
}
use p101_test.System.{System, Output, stdout, stderr}
use p101_test.Mutation.Run.{Processes}
use p101_test.Mutation.Library.{MutationLibrary}

abbrev pub max_mutants_limit : ℕ
max_mutants_limit = 4096

abbrev pub default_max_mutants : ℕ
default_max_mutants = 100

abbrev pub max_operators : ℕ
max_operators = 16

abbrev pub message_size : ℕ
message_size = 256

-- The names in the buffer of `raise_unknown_operator`; its `used` is their length.
unfoldable pub join_names : List Text → Text → Text
join_names [] names = names
join_names (name ∷ rest) names =
    if leb message_size (length names + length name + 3)
    then names
    else join_names rest
        (if ltb 0 (length names) then names ++ (codes ", " ++ name) else names ++ name)

-- The number of test words is the length of the test command.
pub record MutationArguments (Timeout : Type 0) : Type 0 where
  pub project : Option Text
  pub compile_database : Option Text
  pub operators : List ℕ
  pub max_mutants : ℕ
  pub timeout : Timeout
  pub list_only : Bool
  pub human : Bool
  pub json : Bool
  pub test_command : List Text

abbrev pub is_help : Text → Bool
is_help word = text_eq word (codes "-h") || text_eq word (codes "--help")

abbrev pub is_given : Option Text → Bool
is_given none = false
is_given (some text) = true

-- Something was read, and nothing is left.
abbrev pub is_whole : Text → Text → Bool
is_whole text rest = not (length rest == length text) && text_eq rest []

-- The number, if it was read without a failure, from the whole text, and is in its range.
unfoldable pub valid_size : Bool → Text → ℕ × Text → Option ℕ
valid_size failed text parsed =
    if not failed && is_whole text parsed.1 && ltb 0 parsed.0 && leb parsed.0 max_mutants_limit
    then some parsed.0
    else none

module _ (S : System) (P : Processes S) (L : MutationLibrary S P) where
  open S use {World, snprintf, put}

  abbrev pub Arguments : Type 0
  Arguments = MutationArguments P.Timeout

  abbrev pub default_arguments : Arguments
  default_arguments = record {
    project = none;
    compile_database = none;
    operators = [];
    max_mutants = default_max_mutants;
    timeout = L.default_timeout;
    list_only = false;
    human = true;
    json = false;
    test_command = [];
  }

  abbrev pub option_lines : List Text
  option_lines =
      codes "Options:\n"
      ∷ codes "  --operator NAME      select a mutation operator; repeatable\n"
      ∷ codes "  --max-mutants N      cap selected mutants (default 100)\n"
      ∷ codes "  --timeout SECONDS    per-command timeout (default 120)\n"
      ∷ codes "  --list               list candidates without running tests\n"
      ∷ codes "  -d:FORMAT            diagnostics: human, json, or human,json\n"
      ∷ codes "  -h, --help           show this help\n"
      ∷ codes "Exit status: 0 all killed, 1 survived, 2 tool trouble.\n"
      ∷ []

  pub put_lines : Output → List Text → M World (Unit {0})
  put_lines stream [] = return tt
  put_lines stream (line ∷ lines) = do call (put stream line); put_lines stream lines

  unfoldable pub usage : Text → Output → M World (Unit {0})
  unfolding put_lines
  usage program stream = do
    call (
        put stream (
          codes "Usage: "
          ++ program
          ++ codes " --compile-db FILE [options] PROJECT [-- TEST-COMMAND...]\n"))
    put_lines stream option_lines

  unfoldable pub parse_size : Text → M World (Option ℕ)
  unfolding valid_size
  parse_size text = do
    parsed ← call (L.strtoul text)
    failed ← has_error
    return (valid_size failed text parsed)

  unfoldable pub parse_timeout : Text → M World (Option P.Timeout)
  parse_timeout text = do
    parsed ← call (L.strtod text)
    failed ← has_error
    return (
        if not failed && is_whole text parsed.1 && L.is_positive parsed.0
        then some parsed.0
        else none)

  unfoldable pub raise_unknown_operator : Text → M World (Unit {0})
  unfolding join_names
  raise_unknown_operator name = do
    message ← call (
        snprintf message_size (
          codes "The mutation operator '"
          ++ name
          ++ codes "' is not known; valid operators are "
          ++ join_names (map L.kind_name L.kinds) []
          ++ codes "."))
    raise (user message.1 1)

  abbrev pub add_operator : Text → Arguments → Option ℕ → M World (Bool × Arguments)
  add_operator name a none = do raise_unknown_operator name; return (false, a)
  add_operator name a (some kind) = return (true, record a { operators = a.operators ++ kind ∷ [] })

  abbrev pub set_max_mutants : Arguments → Option ℕ → Bool × Arguments
  set_max_mutants a none = (false, a)
  set_max_mutants a (some n) = (true, record a { max_mutants = n })

  abbrev pub set_timeout : Arguments → Option P.Timeout → Bool × Arguments
  set_timeout a none = (false, a)
  set_timeout a (some timeout) = (true, record a { timeout = timeout })

  abbrev pub set_outputs : Arguments → Option (Bool × Bool) → M World (Bool × Arguments)
  set_outputs a none = do
    raise (user (codes "Diagnostic output must be human, json, or human,json.") 1)
    return (false, a)
  set_outputs a (some outputs) = return (true, record a { human = outputs.0; json = outputs.1 })

  -- A word that takes no value: whether to go on, and the arguments.
  unfoldable pub single_word : Text → Arguments → M World (Bool × Arguments)
  single_word word a =
      if text_eq word (codes "--list")
      then return (true, record a { list_only = true })
      else if has_prefix word (codes "-d:")
      then set_outputs a (L.parse_output_option word)
      else if has_prefix word (codes "-") || is_given a.project
      then return (false, a)
      else return (true, record a { project = some word })

  -- An option with its value, if the word is one.
  unfoldable pub valued_option : Text → Text → Arguments → Option (M World (Bool × Arguments))
  unfolding raise_unknown_operator parse_size parse_timeout
  valued_option word value a =
      if text_eq word (codes "--compile-db")
      then some (return (true, record a { compile_database = some value }))
      else if text_eq word (codes "--operator") && ltb (length a.operators) max_operators
      then some (add_operator value a (L.kind_from_name value))
      else if text_eq word (codes "--max-mutants")
      then some (do n ← parse_size value; return (set_max_mutants a n))
      else if text_eq word (codes "--timeout")
      then some (do timeout ← parse_timeout value; return (set_timeout a timeout))
      else none

  abbrev pub go_on :
      (Arguments → M World (Bool × Arguments)) → Bool × Arguments → M World (Bool × Arguments)
  go_on again (true, a) = again a
  go_on again (false, a) = return (false, a)

  abbrev pub with_option :
      (Arguments → M World (Bool × Arguments))
      → (Arguments → M World (Bool × Arguments))
      → Text
      → Arguments
      → Option (M World (Bool × Arguments))
      → M World (Bool × Arguments)
  with_option behind_word behind_value word a none = do r ← single_word word a; go_on behind_word r
  with_option behind_word behind_value word a (some option) = do r ← option; go_on behind_value r

  abbrev pub help : Text → Arguments → M World (Bool × Arguments)
  help program a = do usage program stdout; return (false, a)

  -- The loop over the words.
  unfoldable pub parse_words : Text → List Text → Arguments → M World (Bool × Arguments)
  unfolding usage single_word valued_option
  parse_words program [] a = return (true, a)
  parse_words program (word ∷ []) a =
      if text_eq word (codes "--")
      then return (true, record a { test_command = [] })
      else if is_help word
      then help program a
      else single_word word a
  parse_words program (word ∷ value ∷ words) a =
      let behind_word = parse_words program (value ∷ words) in
      let behind_value = parse_words program words in
      if text_eq word (codes "--")
      then return (true, record a { test_command = value ∷ words })
      else if is_help word
      then help program a
      else with_option behind_word behind_value word a (valued_option word value a)

  abbrev pub is_complete : Arguments → Bool
  is_complete a =
      is_given a.project
      && is_given a.compile_database
      && (a.list_only || not (length a.test_command == 0))

  unfoldable pub parse_arguments : List Text → M World (Bool × Arguments)
  unfolding parse_words
  parse_arguments argv = do
    r ← parse_words (get_or argv 0 []) (drop 1 argv) default_arguments
    return (r.0 && is_complete r.1, r.1)
