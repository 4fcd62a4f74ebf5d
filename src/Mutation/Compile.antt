-- ===== src/Mutation/Compile.antt =====
-- components/mutation/src/execution.c: the command that compiles a mutant without its output.
pub mod Filter
pub mod Items
pub mod Options
use p101_test.Base.{
  ℕ, zero, suc, ◌+◌, ◌*◌, Text, codes, Bool, true, false, not, ◌&&◌, ◌||◌, Option, none, some, List,
  [], ◌∷◌, ◌++◌, ◌==◌, if◌then◌else◌, length, get_or, has_prefix, text_eq, Failure, State, M, ◌>>=◌,
  ◌>>◌, return, call, has_error,
}
use p101_test.System.{System}
use p101_test.Mutation.Candidates.{copy_text}
use p101_test.Mutation.Paths.{rewrite_path}

unfoldable pub compile_option_takes_value : Text → Bool
compile_option_takes_value argument =
    text_eq argument (codes "-o")
    || text_eq argument (codes "-MF")
    || text_eq argument (codes "-MT")
    || text_eq argument (codes "-MQ")

unfoldable pub is_compile_output_option : Text → Bool
is_compile_output_option argument =
    ((get_or argument 0 0 == b'-')
      && (get_or argument 1 0 == b'o')
      && not (text_eq argument (codes "-ObjC")))
    || has_prefix argument (codes "-MF")
    || has_prefix argument (codes "-MT")
    || has_prefix argument (codes "-MQ")

-- A copied command: null pointers are `none`.
pub record CommandCopy : Type 0 where
  pub directory : Option Text
  pub arguments : List (Option Text)

module _ (S : System) where
  open S use {World, realpath, allocate}

  -- The loop over the arguments. `skip` is the `read_index++` of an option with its value apart.
  unfoldable pub copy_arguments : Text → Text → Bool → List Text → M World (List (Option Text))
  copy_arguments project copy skip [] = return []
  copy_arguments project copy true (value ∷ values) = copy_arguments project copy false values
  copy_arguments project copy false (value ∷ values) = do
    failed ← has_error
    let rest = copy_arguments project copy false values
    let rest_skipped = copy_arguments project copy true values
    if failed
        then return []
        else if text_eq value (codes "-c")
        then rest
        else if compile_option_takes_value value
        then rest_skipped
        else if is_compile_output_option value
        then rest
        else do
          argument ← rewrite_path S project copy value
          arguments ← rest
          return (argument ∷ arguments)
