-- ===== src/Mutation/Trees/Removal.antt =====
-- components/mutation/src/files.c: the removal of a copy. A result of `none` means that the fuel ran out.
use p101_test.Base.{
  ℕ, zero, suc, Text, codes, Bool, true, false, ◌&&◌, Option, none, some, [], ◌++◌, if◌then◌else◌,
  text_eq, M, ◌>>=◌, ◌>>◌, return, call_optional,
}
use p101_test.System.{System}
use p101_test.Mutation.Types.{path_size}
use p101_test.Mutation.Trees.{FileTree, FileKind, directory, regular, link, other, is_dot}

module _ (S : System) (F : FileTree S) where
  open S use {World, snprintf}
  open F use {Directory, File, lstat, mkdir, readlink, opendir, readdir, closedir, close}

  abbrev pub and_removed : Bool → Option Bool → Option Bool
  and_removed removed none = none
  and_removed removed (some rest) = some (removed && rest)

  abbrev pub go_on_removing : M World (Option Bool) → Option Bool → M World (Option Bool)
  go_on_removing again none = return none
  go_on_removing again (some removed) = do rest ← again; return (and_removed removed rest)

  abbrev pub remove_entry :
      M World (Option Bool)
      → (Text → M World (Option Bool))
      → Text
      → Option Text
      → M World (Option Bool)
  remove_entry again remove path none = return (some true)
  remove_entry again remove path (some name) = if is_dot name then again else (do
    child ← call_optional (snprintf path_size (path ++ codes "/" ++ name))
    removed ← (if text_eq child.1 [] then return (some false) else remove child.1)
    go_on_removing again removed)

  unfoldable pub remove_entries :
      ℕ → (Text → M World (Option Bool)) → Text → Directory → M World (Option Bool)
  remove_entries zero remove path dir = return none
  remove_entries (suc fuel) remove path dir = do
    entry ← call_optional (readdir dir)
    remove_entry (remove_entries fuel remove path dir) remove path entry

  abbrev pub remove_directory :
      (Text → M World (Option Bool)) → Text → Option Directory → M World (Option Bool)
  remove_directory remove path none = return (some false)
  remove_directory remove path (some dir) = do
    r ← (λ s. remove_entries (suc (F.entries_left dir s.world)) remove path dir s)
    call_optional (closedir dir)
    removed ← call_optional (F.rmdir path)
    return (and_removed removed r)

  abbrev pub remove_other : Text → M World (Option Bool)
  remove_other path = do removed ← call_optional (F.unlink path); return (some removed)

  unfoldable pub remove_kind :
      (Text → M World (Option Bool)) → Text → Option FileKind → M World (Option Bool)
  unfolding remove_entries
  remove_kind remove path none = return (some false)
  remove_kind remove path (some (directory mode)) = do
    dir ← call_optional (opendir path)
    remove_directory remove path dir
  remove_kind remove path (some (regular mode)) = remove_other path
  remove_kind remove path (some link) = remove_other path
  remove_kind remove path (some other) = remove_other path

  -- `p101_mutation_remove_tree`, with the depth that is left.
  unfoldable pub remove_tree : ℕ → Text → M World (Option Bool)
  unfolding remove_kind
  remove_tree zero path = return none
  remove_tree (suc depth) path = do
    kind ← call_optional (lstat path)
    remove_kind (remove_tree depth) path kind
