-- ===== src/Faults/Cli/Parse.antt =====
-- What parsing the options of src/cli.c leaves alone.
use p101_test.Base.{
  ℕ, ◌≡◌, refl, ◌∙◌, Text, codes, ◌&&◌, Option, List, [], ◌∷◌, ◌==◌, if_ind, inl, inr, Bool-cases,
  length, get_or, text_eq, State, has_failures, arith,
}
use p101_test.System.{System}
use p101_test.Faults.Types.{Arguments}
use p101_test.Faults.Library.{FaultLibrary}
use p101_test.Faults.Cli.{handle_option, handle_options, parse_arguments}

module _ (S : System) where
  open S use {World}

  handle_option_keeps :
      (args : Arguments) (option : ℕ) (argument : Option Text) (character : ℕ) (s : State World)
      → (handle_option S args option argument character s).0.max_failures ≡ args.max_failures
  unfolding handle_option
  handle_option_keeps args option argument character s = ground arith

  handle_options_keeps :
      (options : List (ℕ × Option Text × ℕ)) (args : Arguments) (s : State World)
      → (handle_options S options args s).0.max_failures ≡ args.max_failures
  unfolding handle_options
  handle_options_keeps [] args s = refl
  handle_options_keeps ((option, argument, character) ∷ options) args s =
      elim (Bool-cases (has_failures s.raised)) [
        | inl e ↦ rw e refl
        | inr e ↦ rw e (
            handle_options_keeps options _ _ ∙ handle_option_keeps args option argument character s)
      ]

  module _ (L : FaultLibrary) where
    -- The failure count keeps its default until the conversion.
    pub parse_arguments_keeps :
        (argv : List Text) (args : Arguments) (s : State World)
        → (parse_arguments S L argv args s).0.max_failures ≡ args.max_failures
    unfolding parse_arguments
    parse_arguments_keeps argv args s =
        elim (Bool-cases (length argv == 2 && text_eq (get_or argv 1 []) (codes "--help"))) [
          | inl e ↦ rw e refl
          | inr e ↦ rw e (
              if_ind {A = Arguments} (λ a. a.max_failures ≡ args.max_failures) _
                (handle_options_keeps (L.getopt argv).0 args s)
                (handle_options_keeps (L.getopt argv).0 args s))
        ]
