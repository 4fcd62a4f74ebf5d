-- ===== src/Mutation/Trees.antt =====
-- components/mutation/src/files.c: the calls on a tree of files, and the names that a copy leaves out.
pub mod Copies
pub mod Removal
use p101_test.Base.{
  ℕ, zero, suc, ◌+◌, ◌-◌, ◌%◌, Text, codes, Bool, true, false, not, ◌&&◌, ◌||◌, Option, none, some,
  List, [], ◌∷◌, ◌++◌, ltb, leb, ◌==◌, if◌then◌else◌, length, drop, text_eq, has_prefix, Failure,
  State, M, Call, ◌>>=◌, ◌>>◌, return, call, call_optional, has_error,
}
use p101_test.System.{System}
use p101_test.Mutation.Types.{path_size}

abbrev pub copy_buffer_size : ℕ
copy_buffer_size = 16384

-- `lstat`: the kind of a file, with its mode.
pub data FileKind : Type 0 where
  directory regular : ℕ → FileKind
  link other : FileKind

pub record FileTree (S : System) : Type 1 where
  pub lstat : Text → Call S.World (Option FileKind)
  -- Whether the call returned 0, here and below.
  pub mkdir : Text → ℕ → Call S.World Bool
  pub symlink : Text → Text → Call S.World Bool
  pub unlink : Text → Call S.World Bool
  pub rmdir : Text → Call S.World Bool
  pub readlink : ℕ → Text → Call S.World (Option Text)
  -- `p101_error_is_errno(err, EEXIST)`, on what was raised.
  pub is_exist : List Failure → Bool
  pub Directory : Type 0
  pub opendir : Text → Call S.World (Option Directory)
  pub readdir : Directory → Call S.World (Option Text)
  pub closedir : Directory → Call S.World (Unit {0})
  -- Bounds on the entries and on the reads that are left. They are the fuel of loops only.
  pub entries_left : Directory → S.World → ℕ
  pub File : Type 0
  pub reads_left : File → S.World → ℕ
  pub open_read : Text → Call S.World (Option File)
  pub open_write : Text → ℕ → Call S.World (Option File)
  -- No result stands for a negative number.
  pub read : ℕ → File → Call S.World (Option Text)
  pub write : Text → File → Call S.World (Option ℕ)
  pub close : File → Call S.World (Unit {0})
  pub mkdtemp : Text → Call S.World (Option Text)

-- `mode & PERMISSION_BITS`
abbrev pub permissions : ℕ → ℕ
permissions mode = mode % 512

abbrev pub any_eq : Text → List Text → Bool
any_eq name [] = false
any_eq name (word ∷ words) = text_eq name word || any_eq name words

abbrev pub any_prefix : Text → List Text → Bool
any_prefix name [] = false
any_prefix name (word ∷ words) = has_prefix name word || any_prefix name words

unfoldable pub ignored_name : Text → Bool
ignored_name name =
    any_eq name (
      codes ".git"
      ∷ codes ".pytest_cache"
      ∷ codes "__pycache__"
      ∷ codes "build"
      ∷ codes "compile_commands.json"
      ∷ codes "coverage"
      ∷ codes "debug"
      ∷ codes "profile"
      ∷ [])
    || any_prefix name (codes "build-" ∷ codes "coverage-" ∷ codes "debug-" ∷ codes "profile-" ∷ [])

abbrev pub is_dot : Text → Bool
is_dot name = text_eq name (codes ".") || text_eq name (codes "..")
