-- ===== src/Mutation/Paths.antt =====
-- components/mutation/src/files.c: `p101_mutation_rewrite_path`.
pub mod Rewrite
use p101_test.Base.{
  ℕ, zero, suc, ◌+◌, Text, codes, Bool, true, false, ◌&&◌, ◌||◌, Option, none, some, List, [], ◌∷◌,
  ◌++◌, leb, ◌==◌, if◌then◌else◌, length, drop, get_or, has_prefix, Failure, State, M, ◌>>=◌, ◌>>◌,
  return, call, call_optional,
}
use p101_test.System.{System}
use p101_test.Mutation.Candidates.{copy_text}

abbrev pub slash : ℕ
slash = b'/'

-- The canonical path is the project, or lies below it: the byte behind the prefix is '/' or NUL.
unfoldable pub is_in_project : Text → Text → Bool
is_in_project project canonical =
    leb (length project) (length canonical)
    && has_prefix canonical project
    && ((get_or canonical (length project) 0 == slash)
        || (get_or canonical (length project) 0 == 0))

module _ (S : System) where
  open S use {World, snprintf, realpath, allocate}

  pub moved : Text → Text → Bool → M World (Option Text)
  moved copy suffix false = return none
  moved copy suffix true = do
    written ← call (snprintf (length copy + length suffix + 1) (copy ++ suffix))
    return (some written.1)

  unfoldable pub rewrite_canonical : Text → Text → Text → Option Text → M World (Option Text)
  unfolding moved copy_text
  rewrite_canonical project copy value none = copy_text S value
  rewrite_canonical project copy value (some canonical) =
      if is_in_project project canonical
      then (do
        made ← call (allocate (length copy + length (drop (length project) canonical) + 1))
        moved copy (drop (length project) canonical) made)
      else copy_text S value

  -- `none` stands for the null result of a failed allocation.
  unfoldable pub rewrite_path : Text → Text → Text → M World (Option Text)
  unfolding rewrite_canonical
  rewrite_path project copy value =
      if get_or value 0 0 == slash
      then (do
        canonical ← call_optional (realpath value)
        rewrite_canonical project copy value canonical)
      else copy_text S value
