-- ===== src/Mutation/Command.antt =====
-- components/mutation/src/execution.c: the compile command of a mutant, and what lib_c_facts calls back.
-- A result of `none` means that the source reads or writes through a null pointer.
use p101_test.Base.{
  ℕ, ◌+◌, Text, codes, Bool, true, false, not, Option, none, some, List, [], ◌∷◌, ◌++◌, ◌==◌,
  if◌then◌else◌, length, Failure, M, ◌>>=◌, return, call, has_error,
}
use p101_test.System.{System}
use p101_test.Mutation.Types.{Candidate, Candidates, AnalysisRecord}
use p101_test.Mutation.Candidates.{copy_text}
use p101_test.Mutation.Paths.{rewrite_path}
use p101_test.Mutation.Compile.{CommandCopy, copy_arguments}

-- The copy that the observer makes: null pointers are `none`, and `arguments` may be one.
pub record SourceCommand : Type 0 where
  pub directory : Option Text
  pub argument_count : ℕ
  pub arguments : Option (List (Option Text))

-- What `p101_memset` leaves.
abbrev pub no_source : SourceCommand
no_source = record { directory = none; argument_count = 0; arguments = none }

abbrev pub no_command : CommandCopy
no_command = record { directory = none; arguments = [] }

-- lib_c_facts, which hands what it finds to an observer.
pub record CompileFacts (S : System) : Type 1 where
  -- On a database and a path; the observer takes a directory and its arguments.
  pub with_compile_command :
      Text
      → Text
      → (Text → List Text → SourceCommand → M S.World (Bool × SourceCommand))
      → SourceCommand
      → M S.World (Bool × SourceCommand)
  -- On a database and a project.
  pub analysis_scan :
      Text
      → Text
      → (AnalysisRecord → Candidates → M S.World (Bool × Candidates))
      → Candidates
      → M S.World (Bool × Candidates)
  -- `p101_error_get_message`
  pub error_message : List Failure → Text

-- The texts, if no pointer is null.
abbrev pub add_text : Option Text → Option (List Text) → Option (List Text)
add_text none texts = none
add_text (some text) none = none
add_text (some text) (some texts) = some (text ∷ texts)

unfoldable pub all_texts : List (Option Text) → Option (List Text)
all_texts [] = some []
all_texts (text ∷ texts) = add_text text (all_texts texts)

-- The texts in front of the first null pointer.
unfoldable pub until_null : List (Option Text) → List Text
until_null [] = []
until_null (none ∷ texts) = []
until_null (some text ∷ texts) = text ∷ until_null texts

abbrev pub source_arguments : SourceCommand → Option (List Text)
source_arguments source = arguments_of source.argument_count source.arguments
  where
    arguments_of : ℕ → Option (List (Option Text)) → Option (List Text)
    arguments_of count none = if count == 0 then some [] else none
    arguments_of count (some texts) = all_texts texts

module _ (S : System) (C : CompileFacts S) where
  open S use {World, allocate, realpath}

  -- The loop of the observer; behind a break, the pointers stay null.
  unfoldable pub copy_texts : List Text → M World (List (Option Text))
  copy_texts [] = return []
  copy_texts (text ∷ texts) = do
    failed ← has_error
    let rest = copy_texts texts
    if failed
        then return []
        else (do copied ← copy_text S text; others ← rest; return (copied ∷ others))

  abbrev pub copy_into : List Text → Bool → M World (Option (List (Option Text)))
  copy_into arguments false = return none
  copy_into arguments true = do copied ← copy_texts arguments; return (some copied)

  unfoldable pub command_observer :
      Text → List Text → SourceCommand → M World (Bool × SourceCommand)
  unfolding copy_texts
  command_observer directory arguments copy = do
    copied_directory ← copy_text S directory
    made ← call (allocate (length arguments + 2))
    copied ← copy_into arguments made
    failed ← has_error
    return (
      not failed,
      record {
        directory = copied_directory;
        argument_count = length arguments;
        arguments = copied;
      },
    )

  -- `destroy_command` goes through `argument_count` pointers of `arguments`.
  abbrev pub is_destroyable : SourceCommand → Bool
  is_destroyable source = pointers source.argument_count source.arguments
    where
      pointers : ℕ → Option (List (Option Text)) → Bool
      pointers count none = count == 0
      pointers count (some texts) = true

  -- Behind the directory and the arguments of the source.
  abbrev pub rewrite_command :
      Text → Text → Bool → Option Text → Option (List Text) → M World (Option (Bool × CommandCopy))
  rewrite_command project copy false directory arguments = return none
  rewrite_command project copy true none arguments = return none
  rewrite_command project copy true (some directory) none = return none
  rewrite_command project copy true (some directory) (some arguments) = do
    new_directory ← rewrite_path S project copy directory
    rewritten ← copy_arguments S project copy false arguments
    last ← copy_text S (codes "-fsyntax-only")
    failed ← has_error
    return (
        some (not failed, record { directory = new_directory; arguments = rewritten ++ last ∷ [] }))

  abbrev pub rewrite_in : Text → SourceCommand → Option Text → M World (Option (Bool × CommandCopy))
  rewrite_in copy source none = return (some (false, no_command))
  rewrite_in copy source (some project) = do
    made ← call (allocate (source.argument_count + 2))
    rewrite_command project copy made source.directory (source_arguments source)

  abbrev pub build_observed :
      Text → Text → Bool × SourceCommand → M World (Option (Bool × CommandCopy))
  build_observed project copy (false, source) = return (some (false, no_command))
  build_observed project copy (true, source) = do
    canonical ← call (realpath project)
    rewrite_in copy source canonical

  unfoldable pub build_compile_command :
      Text → Text → Candidate → Text → M World (Option (Bool × CommandCopy))
  unfolding command_observer
  build_compile_command database project candidate copy = do
    observed ← C.with_compile_command database candidate.path command_observer no_source
    built ← build_observed project copy observed
    return (if is_destroyable observed.1 then built else none)
