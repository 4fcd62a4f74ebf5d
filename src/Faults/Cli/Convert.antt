-- ===== src/Faults/Cli/Convert.antt =====
-- src/cli.c: `p101_error_path_walk_convert_arguments`, the numbers behind the options.
pub mod Numbers
use p101_test.Base.{
  ℕ, zero, suc, decimal, Text, codes, Bool, true, false, Option, none, some, List, [], ◌∷◌, ◌++◌,
  ltb, if◌then◌else◌, Failure, user, errno, State, M, ◌>>=◌, ◌>>◌, return, raise, has_error,
}
use p101_test.System.{System}
use p101_test.Faults.Types.{Arguments, err_usage}
use p101_test.Faults.Library.{FaultLibrary}
use p101_test.Faults.Limits.{default_max_failures, max_failures_limit, eio}
use p101_test.Faults.Message.{raise_message}

module _ (S : System) (L : FaultLibrary) where
  open S use {World}

  -- A parser of lib_record, on a text and its result: a failure raises and gives the default.
  parsed : Option ℕ → Text → ℕ → M World ℕ
  parsed none text default = do raise (errno (L.parse_errno text)); return default
  parsed (some n) text default = return n

  refuse : Arguments → Text → M World Arguments
  refuse args message = do raise (user message err_usage); return args

  refuse_count : Arguments → M World Arguments
  unfolding raise_message
  refuse_count args = do
    raise_message S
        (codes "The failure count must be at most " ++ decimal max_failures_limit ++ codes ".")
    return args

  unfoldable pub convert_repeat : Option Text → Arguments → M World Arguments
  unfolding parsed refuse
  convert_repeat none args = return args
  convert_repeat (some text) args = do
    n ← parsed (L.parse_positive_int text) text 1
    failed ← has_error
    if failed
        then refuse args (codes "The fault repeat count must be a positive integer.")
        else return (record args { fault_repeat = n })

  unfoldable pub convert_amount : Option Text → Arguments → M World Arguments
  unfolding parsed refuse convert_repeat
  convert_amount none args = convert_repeat args.fault_repeat_str args
  convert_amount (some text) args = do
    n ← parsed (L.parse_unsigned_int text) text 1
    failed ← has_error
    if failed
        then refuse (record args { fault_amount = n })
            (codes "The short-I/O amount must be an unsigned integer.")
        else convert_repeat args.fault_repeat_str (record args { fault_amount = n })

  unfoldable pub convert_errno : Option Text → Arguments → M World Arguments
  unfolding parsed refuse convert_amount
  convert_errno none args = convert_amount args.fault_amount_str args
  convert_errno (some text) args = do
    n ← parsed (L.parse_positive_int text) text eio
    failed ← has_error
    if failed
        then refuse (record args { fault_errno = n })
            (codes "The injected errno must be a positive integer.")
        else convert_amount args.fault_amount_str (record args { fault_errno = n })

  unfoldable pub convert_count : Option Text → Arguments → M World Arguments
  unfolding parsed refuse refuse_count convert_errno
  convert_count none args = convert_errno args.fault_errno_str args
  convert_count (some text) args = do
    n ← parsed (L.parse_unsigned_int text) text default_max_failures
    failed ← has_error
    if failed
        then refuse (record args { max_failures = n })
            (codes "The failure count must be an unsigned integer.")
        else if ltb max_failures_limit n
        then refuse_count (record args { max_failures = n })
        else convert_errno args.fault_errno_str (record args { max_failures = n })

  unfoldable pub convert_arguments : Arguments → M World Arguments
  unfolding convert_count
  convert_arguments args = convert_count args.max_failures_str args
