-- ===== src/Faults/Cli.antt =====
-- src/cli.c: the options of test-faults, their checks and their conversion.
pub mod Checks
pub mod Convert
pub mod Parse
pub mod Usage
use p101_test.Base.{
  ℕ, zero, suc, ◌+◌, ◌-◌, ◌/◌, ◌%◌, decimal, Text, codes, Bool, true, false, not, ◌&&◌, ◌||◌,
  Option, none, some, List, [], ◌∷◌, ◌++◌, leb, ltb, ◌==◌, if◌then◌else◌, length, get_or, drop,
  text_eq, Failure, user, errno, State, M, ◌>>=◌, ◌>>◌, return, call, raise, has_error,
}
use p101_test.System.{System}
use p101_test.Faults.Types.{Arguments, msg_len, err_usage}
use p101_test.Faults.Library.{FaultLibrary}
use p101_test.Faults.Limits.{default_max_failures, eio}
use p101_test.Faults.Message.{raise_message}

-- `p101_error_path_walk_arguments_init`
unfoldable pub initial_arguments : Arguments
initial_arguments = record {
  max_failures_str = none;
  fault_errno_str = none;
  fault_name = none;
  fault_mode = codes "error";
  fault_amount_str = none;
  fault_repeat_str = none;
  log_prefix = none;
  p101_run = some (codes "p101-inspect");
  p101_observe = some (codes "inspect-capture");
  command_argv = none;
  max_failures = default_max_failures;
  fault_errno = eio;
  fault_amount = 1;
  fault_repeat = 1;
  verbose = false;
  stop_at_exhaustion = true;
  show_help = false;
}

-- `p101_error_path_walk_arguments_deinit`: zeroed.
unfoldable pub deinit_arguments : Arguments
deinit_arguments = record {
  max_failures_str = none;
  fault_errno_str = none;
  fault_name = none;
  fault_mode = [];
  fault_amount_str = none;
  fault_repeat_str = none;
  log_prefix = none;
  p101_run = none;
  p101_observe = none;
  command_argv = none;
  max_failures = 0;
  fault_errno = 0;
  fault_amount = 0;
  fault_repeat = 0;
  verbose = false;
  stop_at_exhaustion = false;
  show_help = false;
}

abbrev pub text_or_empty : Option Text → Text
text_or_empty none = []
text_or_empty (some t) = t

-- A pointer to an empty text.
abbrev pub is_empty : Option Text → Bool
is_empty none = false
is_empty (some t) = text_eq t []

unfoldable pub required_text_missing : Option Text → Bool
required_text_missing none = true
required_text_missing (some t) = text_eq t []

abbrev pub no_command : Option (List Text) → Bool
no_command none = true
no_command (some []) = true
no_command (some (word ∷ words)) = false

-- `isprint` in the C locale.
abbrev pub is_print : ℕ → Bool
is_print c = leb 32 c && leb c 126

-- A digit of `%02X`.
abbrev pub hex_digit : ℕ → ℕ
hex_digit d = if ltb d 10 then b'0' + d else b'A' + (d - 10)

-- `%02X` of an `unsigned char`.
abbrev pub hex_byte : ℕ → Text
hex_byte c = hex_digit (c % 256 / 16) ∷ hex_digit (c % 16) ∷ []

abbrev pub is_missing : Option Text → Bool
is_missing none = true
is_missing (some t) = false

module _ (L : FaultLibrary) where
  -- The mode needs an exact wrapper.
  abbrev pub needs_name : L.FaultMode → Bool
  needs_name mode = L.is_short mode || L.is_uncertain mode

  -- The message of the first check that fails.
  unfoldable pub check_mode : Arguments → Option L.FaultMode → Option Text
  check_mode args none =
      some (codes "The fault mode must be error, eintr, timeout, short, or uncertain.")
  check_mode args (some mode) =
      if needs_name mode && is_missing args.fault_name
      then some (codes "Short and uncertain modes require an exact wrapper identity with -F.")
      else none

  unfoldable pub first_problem : Arguments → Option Text
  unfolding check_mode required_text_missing
  first_problem args =
      if no_command args.command_argv
      then some (codes "A command is required.")
      else if is_empty args.log_prefix
      then some (codes "The log prefix must not be empty.")
      else if required_text_missing args.p101_run
      then some (codes "The p101-inspect path must not be empty.")
      else if required_text_missing args.p101_observe
      then some (codes "The inspect-capture path must not be empty.")
      else if is_empty args.fault_name
      then some (codes "The fault-name filter must not be empty.")
      else check_mode args (L.fault_mode_from_name args.fault_mode)

module _ (S : System) where
  open S use {World, snprintf}

  raise_option : Arguments → Text → M World Arguments
  unfolding raise_message
  raise_option args text = do raise_message S text; return args

  -- `handle_option`: a switch on the option, whose destinations take its argument.
  unfoldable pub handle_option : Arguments → ℕ → Option Text → ℕ → M World Arguments
  unfolding raise_option
  handle_option args option argument character =
      if option == b'h'
      then return (record args { show_help = true })
      else if option == b'v'
      then return (record args { verbose = true })
      else if option == b'n'
      then return (record args { max_failures_str = argument })
      else if option == b'l'
      then return (record args { log_prefix = argument })
      else if option == b'U'
      then return (record args { p101_run = argument })
      else if option == b'O'
      then return (record args { p101_observe = argument })
      else if option == b'E'
      then return (record args { fault_errno_str = argument })
      else if option == b'F'
      then return (record args { fault_name = argument })
      else if option == b'M'
      then return (record args { fault_mode = text_or_empty argument })
      else if option == b'A'
      then return (record args { fault_amount_str = argument })
      else if option == b'R'
      then return (record args { fault_repeat_str = argument })
      else if option == b':'
      then raise_option args (codes "Option '-" ++ (character ∷ codes "' requires an argument."))
      else if option == b'?'
      then (if is_print character
          then raise_option args (codes "Unknown option '-" ++ (character ∷ codes "'."))
          else raise_option args
              (codes "Unknown option character 0x" ++ hex_byte character ++ codes "."))
      else raise_option args (
          codes "Internal error: unhandled option value "
          ++ decimal option
          ++ codes " returned by getopt.")

  -- The loop over the options; a failure ends it.
  unfoldable pub handle_options : List (ℕ × Option Text × ℕ) → Arguments → M World Arguments
  unfolding handle_option
  handle_options [] args = return args
  handle_options ((option, argument, character) ∷ options) args = do
    failed ← has_error
    if failed
        then return args
        else do args' ← handle_option args option argument character; handle_options options args'

  module _ (L : FaultLibrary) where
    -- `p101_error_path_walk_parse_arguments` on the whole `argv`.
    unfoldable pub parse_arguments : List Text → Arguments → M World Arguments
    unfolding handle_options
    parse_arguments argv args =
        if length argv == 2 && text_eq (get_or argv 1 []) (codes "--help")
        then return (record args { show_help = true })
        else do
          let options = L.getopt argv
          args' ← handle_options options.0 args
          failed ← has_error
          return
              (if failed then args' else record args' { command_argv = some (drop options.1 argv) })

    pub raise_problem : Option Text → M World (Unit {0})
    raise_problem none = return tt
    raise_problem (some message) = raise (user message err_usage)

    -- `p101_error_path_walk_check_arguments`
    unfoldable pub check_arguments : Arguments → M World (Unit {0})
    unfolding first_problem raise_problem
    check_arguments args = raise_problem (first_problem L args)
