-- ===== src/Mutation/Apply.antt =====
-- components/mutation/src/files.c: `p101_mutation_apply_candidate`, which edits the copied source.
pub mod Current
pub mod Splice
use p101_test.Base.{
  ℕ, zero, suc, ◌+◌, ◌-◌, Text, codes, Bool, true, false, not, ◌&&◌, ◌||◌, Option, none, some, List,
  [], ◌∷◌, ◌++◌, leb, ◌==◌, if◌then◌else◌, length, take, drop, get_or, has_prefix, text_eq, Failure,
  user, State, M, ◌>>=◌, ◌>>◌, return, call, call_optional, raise, has_error,
}
use p101_test.System.{System}
use p101_test.Mutation.Types.{path_size, Candidate}
use p101_test.Mutation.Paths.{slash}

-- A pointer that `apply` reads through. Candidates come here only when the observer filled them.
abbrev pub text_of : Option Text → Text
text_of none = []
text_of (some t) = t

-- The bytes from `start` up to `end`.
abbrev pub range : ℕ → ℕ → Text → Text
range start end contents = take (end - start) (drop start contents)

-- The source still has the text that the candidate replaces.
unfoldable pub is_current : Candidate → Text → Bool
is_current candidate contents =
    leb candidate.end (length contents)
    && leb candidate.start candidate.end
    && (candidate.end - candidate.start == length (text_of candidate.original))
    && text_eq (range candidate.start candidate.end contents) (text_of candidate.original)

-- The path below the project, without the '/' between them.
abbrev pub relative_path : Text → Text → Text
relative_path project path =
    let rest = drop (length project) path in if get_or rest 0 0 == slash then drop 1 rest else rest

module _ (S : System) where
  open S use {
    World, Stream, snprintf, realpath, fopen, fclose, fread, fwrite, fseek_end, fseek_start, ftell,
    allocate,
  }

  -- The three writes, each made when the one before was complete.
  unfoldable pub write_parts : Stream → List Text → M World Bool
  write_parts output [] = return true
  write_parts output (part ∷ parts) = do
    written ← call (fwrite part output)
    let rest = write_parts output parts
    if written == length part then rest else return false

  pub write_mutant : Candidate → Text → Option Stream → M World Bool
  unfolding write_parts
  write_mutant candidate contents none = return false
  write_mutant candidate contents (some output) = do
    complete ← write_parts output (
        take candidate.start contents
        ∷ text_of candidate.replacement
        ∷ drop candidate.end contents
        ∷ [])
    call (fclose output)
    return complete

  unfoldable pub edit : Candidate → Text → Text → M World Bool
  unfolding write_mutant
  edit candidate target contents =
      if is_current candidate contents
      then (do output ← call (fopen target (codes "wb")); write_mutant candidate contents output)
      else (do raise (user (codes "Mutation candidate source changed.") 1); return false)

  -- `goto done` with the stream open.
  pub give_up : Stream → M World Bool
  give_up stream = do call_optional (fclose stream); return false

  -- The `fread` and its test, behind the allocation.
  pub read_source : Candidate → Text → Stream → ℕ → Bool → M World Bool
  unfolding give_up
  read_source candidate target stream size false = give_up stream
  read_source candidate target stream size true = do
    contents ← call (fread size stream)
    if not (length contents == size)
        then give_up stream
        else do call (fclose stream); edit candidate target contents

  pub rewind : Candidate → Text → Stream → Option ℕ → M World Bool
  unfolding give_up read_source
  rewind candidate target stream none = give_up stream
  rewind candidate target stream (some size) = do
    ok ← call (fseek_start stream)
    if not ok
        then give_up stream
        else do made ← call (allocate (size + 1)); read_source candidate target stream size made

  pub measure : Candidate → Text → Option Stream → M World Bool
  unfolding give_up rewind
  measure candidate target none = return false
  measure candidate target (some stream) = do
    ok ← call (fseek_end stream)
    if not ok
        then give_up stream
        else do size ← call (ftell stream); rewind candidate target stream size

  unfoldable pub apply_at : Candidate → Text → Option Text → M World Bool
  unfolding measure
  apply_at candidate copy none = return false
  apply_at candidate copy (some project) =
      if not (has_prefix candidate.path project)
      then (do raise (user (codes "Mutation candidate is outside the project.") 1); return false)
      else do
        target ←
            call (snprintf path_size (copy ++ codes "/" ++ relative_path project candidate.path))
        stream ← call (fopen target.1 (codes "rb"))
        measure candidate target.1 stream

  -- `p101_mutation_apply_candidate` for the project of the arguments.
  unfoldable pub apply_candidate : Text → Candidate → Text → M World Bool
  unfolding apply_at
  apply_candidate project candidate copy = do
    canonical ← call (realpath project)
    result ← apply_at candidate copy canonical
    failed ← has_error
    return (result && not failed)
