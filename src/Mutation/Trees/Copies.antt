-- ===== src/Mutation/Trees/Copies.antt =====
-- components/mutation/src/files.c: the copy of a project. A result of `none` means that the fuel ran out.
pub mod Writes
use p101_test.Base.{
  ℕ, zero, suc, ◌+◌, ◌-◌, ◌%◌, Text, codes, Bool, true, false, not, ◌&&◌, ◌||◌, Option, none, some,
  List, [], ◌∷◌, ◌++◌, ltb, leb, ◌==◌, if◌then◌else◌, length, drop, text_eq, has_prefix, Failure,
  State, M, Call, ◌>>=◌, ◌>>◌, return, call, call_optional, has_error,
}
use p101_test.System.{System}
use p101_test.Mutation.Types.{path_size}
use p101_test.Mutation.Trees.{
  FileTree, FileKind, directory, regular, link, other, copy_buffer_size, permissions, ignored_name,
  is_dot,
}

module _ (S : System) (F : FileTree S) where
  open S use {World, snprintf}
  open F use {Directory, File, lstat, mkdir, readlink, opendir, readdir, closedir, close}

  abbrev pub write_rest : (Text → M World Bool) → Text → Option ℕ → M World Bool
  write_rest again text none = return false
  write_rest again text (some zero) = return false
  write_rest again text (some (suc n)) =
      if ltb (length text) (suc n) then return false else again (drop (suc n) text)

  -- The inner loop over what is left of a buffer: each round writes a byte at least.
  unfoldable pub write_all : ℕ → File → Text → M World Bool
  write_all zero output [] = return true
  write_all zero output (b ∷ text) = return false
  write_all (suc fuel) output [] = return true
  write_all (suc fuel) output (b ∷ text) = do
    written ← call (F.write (b ∷ text) output)
    write_rest (write_all fuel output) (b ∷ text) written

  abbrev pub when_written : M World (Option Bool) → Bool → M World (Option Bool)
  when_written again true = again
  when_written again false = return (some false)

  abbrev pub copy_chunk : M World (Option Bool) → File → Option Text → M World (Option Bool)
  copy_chunk again output none = return (some false)
  copy_chunk again output (some []) = do failed ← has_error; return (some (not failed))
  copy_chunk again output (some (b ∷ text)) = do
    failed ← has_error
    if failed then return (some false) else (do
      complete ← write_all (length (b ∷ text)) output (b ∷ text)
      when_written again complete)

  -- The outer loop.
  unfoldable pub copy_bytes : ℕ → File → File → M World (Option Bool)
  unfolding write_all
  copy_bytes zero input output = return none
  copy_bytes (suc fuel) input output = do
    chunk ← call (F.read copy_buffer_size input)
    copy_chunk (copy_bytes fuel input output) output chunk

  abbrev pub copy_opened : File → Option File → M World (Option Bool)
  copy_opened input none = do call_optional (close input); return (some false)
  copy_opened input (some output) = do
    r ← (λ s. copy_bytes (suc (F.reads_left input s.world)) input output s)
    call_optional (close output)
    call_optional (close input)
    return r

  abbrev pub copy_from : Text → ℕ → Option File → M World (Option Bool)
  copy_from destination mode none = return (some false)
  copy_from destination mode (some input) = do
    output ← call (F.open_write destination (permissions mode))
    copy_opened input output

  unfoldable pub copy_file : Text → Text → ℕ → M World (Option Bool)
  unfolding copy_bytes
  copy_file source destination mode = do
    input ← call (F.open_read source)
    copy_from destination mode input

  abbrev pub while_copied : M World (Option Bool) → Option Bool → M World (Option Bool)
  while_copied again none = return none
  while_copied again (some false) = return (some false)
  while_copied again (some true) = again

  unfoldable pub copy_child :
      (Text → Text → M World (Option Bool)) → Text → Text → Text → M World (Option Bool)
  copy_child copy source destination name = do
    source_child ← call (snprintf path_size (source ++ codes "/" ++ name))
    destination_child ← call (snprintf path_size (destination ++ codes "/" ++ name))
    failed ← has_error
    if failed then return (some false) else copy source_child.1 destination_child.1

  abbrev pub take_entry :
      M World (Option Bool)
      → (Text → Text → M World (Option Bool))
      → Text
      → Text
      → Option Text
      → M World (Option Bool)
  take_entry again copy source destination none = return (some true)
  take_entry again copy source destination (some name) = do
    failed ← has_error
    if failed
        then return (some true)
        else if is_dot name || ignored_name name
        then again
        else (do r ← copy_child copy source destination name; while_copied again r)

  -- The loop over the entries of a directory.
  unfoldable pub copy_entries :
      ℕ → (Text → Text → M World (Option Bool)) → Text → Text → Directory → M World (Option Bool)
  unfolding copy_child
  copy_entries zero copy source destination dir = return none
  copy_entries (suc fuel) copy source destination dir = do
    entry ← call (readdir dir)
    take_entry (copy_entries fuel copy source destination dir) copy source destination entry

  abbrev pub unless : Bool → Option Bool → Option Bool
  unless failed none = none
  unless failed (some copied) = some (copied && not failed)

  abbrev pub copy_directory :
      (Text → Text → M World (Option Bool)) → Text → Text → Option Directory → M World (Option Bool)
  copy_directory copy source destination none = return (some false)
  copy_directory copy source destination (some dir) = do
    r ← (λ s. copy_entries (suc (F.entries_left dir s.world)) copy source destination dir s)
    failed ← has_error
    call_optional (closedir dir)
    return (unless failed r)

  -- `p101_error_reset`
  abbrev pub reset : M World (Unit {0})
  reset s = (tt, record { raised = []; world = s.world })

  -- Behind `p101_mkdir`; a directory that exists is used.
  abbrev pub enter :
      (Text → Text → M World (Option Bool)) → Text → Text → Bool → M World (Option Bool)
  enter copy source destination made = do
    exists ← (λ s. (F.is_exist s.raised, s))
    if not made && not exists
        then return (some false)
        else (do reset; dir ← call (opendir source); copy_directory copy source destination dir)

  abbrev pub copy_link : Text → Option Text → M World (Option Bool)
  copy_link destination none = return (some false)
  copy_link destination (some target) = do
    made ← call (F.symlink target destination)
    return (some made)

  unfoldable pub copy_kind :
      (Text → Text → M World (Option Bool)) → Text → Text → Option FileKind → M World (Option Bool)
  unfolding copy_entries copy_file
  copy_kind copy source destination none = return (some false)
  copy_kind copy source destination (some (directory mode)) = do
    made ← call (mkdir destination (permissions mode))
    enter copy source destination made
  copy_kind copy source destination (some link) = do
    target ← call (readlink (path_size - 1) source)
    copy_link destination target
  copy_kind copy source destination (some (regular mode)) = copy_file source destination mode
  copy_kind copy source destination (some other) = return (some true)

  -- `p101_mutation_copy_tree`, with the depth that is left.
  unfoldable pub copy_tree : ℕ → Text → Text → M World (Option Bool)
  unfolding copy_kind
  copy_tree zero source destination = return none
  copy_tree (suc depth) source destination = do
    kind ← call (lstat source)
    copy_kind (copy_tree depth) source destination kind
