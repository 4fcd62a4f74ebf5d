-- ===== src/Repository/Result.antt =====
-- components/repository-receipt/src/main.c: `load_result` and `load_results`.
use p101_test.Base.{
  ℕ, zero, suc, Text, codes, Bool, true, false, not, ◌&&◌, ◌||◌, Option, none, some, List, [], ◌∷◌,
  ◌++◌, ltb, leb, ◌==◌, if◌then◌else◌, length, take, get_or, text_eq, user, M, ◌>>=◌, ◌>>◌, return,
  call, raise, has_error,
}
use p101_test.System.{System}
use p101_test.Repository.Types.{
  RepositoryResult, ReceiptLibrary, max_records, max_path, max_line, result_fields, einval,
  eoverflow,
}
use p101_test.Repository.Paths.{has_suffix, sort_paths}

-- The field at the cursor, and the cursor behind its separator; null where the line ends.
unfoldable pub cut_field : Text → Text × Option Text
cut_field [] = ([], none)
cut_field (c ∷ line) =
    let rest = cut_field line in if c == b'|' then ([], some line) else (c ∷ rest.0, rest.1)

-- The loop over the fields that there is room for: the fields, and the cursor behind them.
unfoldable pub split_fields : ℕ → Option Text → List Text × Option Text
unfolding cut_field
split_fields zero cursor = ([], cursor)
split_fields (suc room) none = ([], none)
split_fields (suc room) (some cursor) =
    let field = cut_field cursor in
    let rest = split_fields room field.1 in (field.0 ∷ rest.0, rest.1)

abbrev pub is_null : Option Text → Bool
is_null none = true
is_null (some text) = false

-- A text up to its first '\r' or '\n'.
unfoldable pub cut_line : Text → Text
cut_line [] = []
cut_line (c ∷ line) =
    let rest = cut_line line in if (c == b'\r') || (c == b'\n') then [] else c ∷ rest

-- The number, if something was read, nothing is left, and it is not negative.
unfoldable pub valid_duration : Text → Option ℕ × Text → Option ℕ
unfolding text_eq
valid_duration text (duration, rest) =
    if (length rest == length text) || not (text_eq rest []) then none else duration

abbrev pub no_result : RepositoryResult
no_result = record {
  repository = [];
  unit = [];
  fuzz = [];
  test_log = [];
  fuzz_log = [];
  duration_seconds = 0;
}

module _ (S : System) (L : ReceiptLibrary S) where
  open S use {World, Stream, snprintf, fopen, fgets, fclose}
  open L use {Directory, opendir, readdir, closedir}

  -- Whether the field was copied.
  unfoldable pub copy_field : Text → M World Bool
  copy_field input =
      if ltb (length input) max_path
      then return true
      else (do raise (user (codes "repository result field is too long") eoverflow); return false)

  -- Whether all were copied; each is tried.
  unfoldable pub copy_fields : List Text → M World Bool
  unfolding copy_field
  copy_fields [] = return true
  copy_fields (field ∷ fields) = do
    copied ← copy_field field
    rest ← copy_fields fields
    return (copied && rest)

  abbrev pub reject : Text → M World (Bool × RepositoryResult)
  reject message = do raise (user message einval); return (false, no_result)

  abbrev pub result_of : List Text → ℕ → RepositoryResult
  result_of fields duration = record {
    repository = get_or fields 0 [];
    unit = get_or fields 1 [];
    fuzz = get_or fields 2 [];
    test_log = get_or fields 3 [];
    fuzz_log = get_or fields 4 [];
    duration_seconds = duration;
  }

  abbrev pub copy_result : List Text → Option ℕ → M World (Bool × RepositoryResult)
  copy_result fields none = reject (codes "repository result has an invalid duration")
  copy_result fields (some duration) = do
    loaded ← copy_fields (take 5 fields)
    return (loaded, result_of fields duration)

  unfoldable pub read_fields : Text → M World (Bool × RepositoryResult)
  unfolding split_fields cut_line valid_duration copy_fields
  read_fields line =
      let (fields, cursor) = split_fields result_fields (some line) in
      if not (length fields == result_fields) || not (is_null cursor)
      then reject (codes "repository result must contain six fields")
      else (do
        parsed ← call (L.strtol (cut_line (get_or fields 5 [])))
        copy_result fields (valid_duration (cut_line (get_or fields 5 [])) parsed))

  abbrev pub read_single : Text → Option Text → M World (Bool × RepositoryResult)
  read_single line (some extra) = reject (codes "repository result has multiple lines")
  read_single line none = read_fields line

  abbrev pub read_line : Stream → Option Text → M World (Bool × RepositoryResult)
  read_line stream none = reject (codes "repository result is empty")
  read_line stream (some line) = do extra ← call (fgets 2 stream); read_single line extra

  abbrev pub load_opened : Option Stream → M World (Bool × RepositoryResult)
  load_opened none = return (false, no_result)
  load_opened (some stream) = do
    line ← call (fgets max_line stream)
    r ← read_line stream line
    closed ← call (fclose stream)
    return (r.0 && closed, r.1)

  unfoldable pub load_result : Text → M World (Bool × RepositoryResult)
  unfolding read_fields
  load_result path = do stream ← call (fopen path (codes "r")); load_opened stream

  abbrev pub add_path :
      (List Text → M World (Option (List Text)))
      → List Text
      → Option Text
      → M World (Option (List Text))
  add_path again paths none = return (some paths)
  add_path again paths (some name) =
      if not (has_suffix name (codes ".result"))
      then again paths
      else if leb max_records (length paths)
      then (do
        raise (user (codes "too many repository result records") eoverflow)
        return (some paths))
      else (do path ← call (snprintf max_path name); again (paths ++ path.1 ∷ []))

  -- The loop over the entries; `none` means that the fuel ran out.
  unfoldable pub collect_paths : ℕ → Directory → List Text → M World (Option (List Text))
  collect_paths zero stream paths = return none
  collect_paths (suc fuel) stream paths = do
    entry ← call (readdir stream)
    add_path (collect_paths fuel stream) paths entry

  abbrev pub when_loaded :
      M World (Bool × List RepositoryResult)
      → Bool × RepositoryResult
      → M World (Bool × List RepositoryResult)
  when_loaded again (false, r) = return (false, [])
  when_loaded again (true, r) = do rest ← again; return (rest.0, r ∷ rest.1)

  -- The loop over the sorted paths.
  unfoldable pub load_paths : Text → List Text → M World (Bool × List RepositoryResult)
  unfolding load_result
  load_paths directory [] = do failed ← has_error; return (not failed, [])
  load_paths directory (path ∷ paths) = do
    full_path ← call (snprintf max_path (directory ++ codes "/" ++ path))
    r ← load_result full_path.1
    when_loaded (load_paths directory paths) r

  abbrev pub close_directory :
      Text → Directory → Option (List Text) → M World (Option (Bool × List RepositoryResult))
  close_directory directory stream none = return none
  close_directory directory stream (some paths) = do
    closed ← call (closedir stream)
    loaded ← (if closed then load_paths directory (sort_paths paths) else return (false, []))
    return (some loaded)

  abbrev pub with_directory :
      Text → Option Directory → M World (Option (Bool × List RepositoryResult))
  with_directory directory none = return (some (false, []))
  with_directory directory (some stream) = do
    paths ← (λ s. collect_paths (suc (L.entries_left stream s.world)) stream [] s)
    close_directory directory stream paths

  unfoldable pub load_results : Text → M World (Option (Bool × List RepositoryResult))
  unfolding collect_paths load_paths
  load_results directory = do stream ← call (opendir directory); with_directory directory stream
