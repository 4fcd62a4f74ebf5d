-- ===== src/Contract/Request.antt =====
-- components/command-contract/src/main.c: the words of the command line.
pub mod RoundTrip
use p101_test.Base.{Text, codes, Option, none, some, List, [], ◌∷◌, if◌then◌else◌, text_eq}
use p101_test.Contract.Types.{Mode, determinism}
use p101_test.Contract.Captured.{parse_mode}

-- The mode, its value if it takes one, and the command.
pub record Request : Type 0 where
  pub mode : Mode
  pub value : Text
  pub command : List Text

-- The words behind the mode and its value: "--" and a command.
unfoldable pub request_command : Mode → Text → List Text → Option Request
request_command mode value [] = none
request_command mode value (dashes ∷ []) = none
request_command mode value (dashes ∷ word ∷ words) =
    if text_eq dashes (codes "--")
    then some (record { mode = mode; value = value; command = word ∷ words })
    else none

unfoldable pub request_value : Mode → List Text → Option Request
unfolding request_command
request_value determinism words = request_command determinism [] words
request_value mode [] = none
request_value mode (value ∷ words) = request_command mode value words

unfoldable pub request_mode : Option Mode → List Text → Option Request
unfolding request_value
request_mode none words = none
request_mode (some mode) words = request_value mode words

-- What is behind the output options; `none` is answered by the usage.
unfoldable pub parse_request : List Text → Option Request
unfolding request_mode
parse_request [] = none
parse_request (word ∷ words) = request_mode (parse_mode word) words
