-- ===== src/Contract/Request/RoundTrip.antt =====
-- A request of components/command-contract/src/main.c as words, and its parse.
use p101_test.Base.{◌≡◌, refl, Text, codes, some, List, [], ◌∷◌, ◌++◌, text_eq}
use p101_test.Contract.Types.{
  Mode, determinism, redaction, output_limit, time_limit, recovery, schema_compatibility,
  side_effect_determinism,
}
use p101_test.Contract.Captured.{parse_mode}
use p101_test.Contract.Request.{request_command, request_value, request_mode, parse_request}

abbrev pub mode_name : Mode → Text
mode_name determinism = codes "determinism"
mode_name redaction = codes "redaction"
mode_name output_limit = codes "output-limit"
mode_name time_limit = codes "time-limit"
mode_name recovery = codes "recovery"
mode_name schema_compatibility = codes "schema-compatibility"
mode_name side_effect_determinism = codes "side-effect-determinism"

-- The value of a mode that takes one.
abbrev pub value_of : Mode → Text → Text
value_of determinism value = []
value_of mode value = value

abbrev pub value_words : Mode → Text → List Text
value_words determinism value = []
value_words mode value = value ∷ []

abbrev pub request_words : Mode → Text → List Text → List Text
request_words mode value command =
    mode_name mode ∷ (value_words mode value ++ (codes "--" ∷ command))

parse_mode-mode_name : (mode : Mode) → parse_mode (mode_name mode) ≡ some mode
unfolding parse_mode text_eq
parse_mode-mode_name determinism = refl
parse_mode-mode_name redaction = refl
parse_mode-mode_name output_limit = refl
parse_mode-mode_name time_limit = refl
parse_mode-mode_name recovery = refl
parse_mode-mode_name schema_compatibility = refl
parse_mode-mode_name side_effect_determinism = refl

-- The mode's name, its value if it takes one, "--" and a command are parsed to the mode, the value and the
-- command.
pub parse_request-request_words :
    (mode : Mode) (value word : Text) (words : List Text)
    → parse_request (request_words mode value (word ∷ words))
      ≡ some (record { mode = mode; value = value_of mode value; command = word ∷ words })
unfolding parse_request request_mode request_value request_command text_eq
parse_request-request_words determinism value word words =
    rw (parse_mode-mode_name determinism) refl
parse_request-request_words redaction value word words = rw (parse_mode-mode_name redaction) refl
parse_request-request_words output_limit value word words =
    rw (parse_mode-mode_name output_limit) refl
parse_request-request_words time_limit value word words = rw (parse_mode-mode_name time_limit) refl
parse_request-request_words recovery value word words = rw (parse_mode-mode_name recovery) refl
parse_request-request_words schema_compatibility value word words =
    rw (parse_mode-mode_name schema_compatibility) refl
parse_request-request_words side_effect_determinism value word words =
    rw (parse_mode-mode_name side_effect_determinism) refl
