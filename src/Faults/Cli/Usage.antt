-- ===== src/Faults/Cli/Usage.antt =====
-- src/cli.c: `p101_error_path_walk_usage`, built without P101_SUPPRESS_USAGE_TEXT.
use p101_test.Base.{Text, codes, Option, none, some, List, [], ◌∷◌, ◌++◌, M, ◌>>◌, return, call}
use p101_test.System.{System, stderr}

abbrev line_end : Text
line_end = b'\n' ∷ []

abbrev usage_line : Text
usage_line =
    codes
      " [-h] [-v] [-n <count>] [-l <prefix>] [-U <p101-inspect>] [-O <inspect-capture>] [-E <errno>] [-F <name>] [-M <mode>] [-A <amount>] [-R <count>] -- <command> [args...]"

-- The texts of the calls of `p101_fputs`.
abbrev option_texts : List Text
option_texts =
    (codes "Options:" ++ line_end)
    ∷ (codes "  -h                      Display this help message and exit" ++ line_end)
    ∷ (codes "  -v                      Enable verbose p101 tracing in the walker" ++ line_end)
    ∷ (codes "  -n <count>              Maximum injected failures to try after the baseline"
        ++ line_end)
    ∷ (codes "                          (default: 1024, stops early when no fault fires)"
        ++ line_end)
    ∷ (codes "  -l <prefix>             Prefix for per-case capture and analysis directories"
        ++ line_end)
    ∷ (codes "  -U <p101-inspect>       Shared native capture/analyze tool (default: PATH lookup)"
        ++ line_end)
    ∷ (codes "  -O <inspect-capture>       inspect-capture executable (default: PATH lookup)"
        ++ line_end)
    ∷ (codes "  -E <errno>              errno injected by failed wrappers (default: EIO)"
        ++ line_end)
    ∷ (codes "  -F <name>               Exact public wrapper identity, e.g. p101_open" ++ line_end)
    ∷ (codes "  -M <mode>               error, eintr, timeout, short, or uncertain (default: error)"
        ++ line_end)
    ∷ (codes "  -A <amount>             Maximum bytes for short read/write (default: 1)"
        ++ line_end)
    ∷ (codes "  -R <count>              Inject at this and the next count-1 matching calls"
        ++ line_end)
    ∷ (b'\n' ∷ codes "The child must use p101_env_create() from an updated lib_env build."
        ++ line_end)
    ∷ []

module _ (S : System) where
  open S use {World, put}

  print_texts : List Text → M World (Unit {0})
  print_texts [] = return tt
  print_texts (text ∷ texts) = do call (put stderr text); print_texts texts

  print_message : Option Text → M World (Unit {0})
  print_message none = return tt
  print_message (some message) = call (put stderr (message ++ line_end ++ line_end))

  unfoldable pub usage : Text → Option Text → M World (Unit {0})
  unfolding print_texts print_message
  usage program message = do
    print_message message
    call (put stderr (codes "Usage: " ++ program ++ usage_line ++ line_end))
    print_texts option_texts
