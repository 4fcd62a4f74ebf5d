-- ===== src/Conformance/Lines.antt =====
-- components/conformance/src/main.c: the loops over the lines of a file, and `macro_present`.
pub mod Runs
pub mod Termination
use p101_test.Base.{
  ℕ, zero, suc, ◌+◌, Text, codes, Bool, true, false, not, ◌&&◌, ◌||◌, Option, none, some, ◌++◌, leb,
  ◌==◌, if◌then◌else◌, length, take, get_or, has_prefix, Failure, State, M, ◌>>=◌, ◌>>◌, return,
  call, raise,
}
use p101_test.System.{System}
use p101_test.Conformance.Types.{Conformance, max_line, max_name, macro_extra, path_size}

-- What the body of a loop does with a line: it goes on, or it raises a failure and leaves the loop.
pub data Line : Type 0 where
  next : Conformance → Line
  bad : Failure → Line

-- The number that `p101_snprintf` returned, if it is not negative and below the size of the buffer.
abbrev pub fitting : ℕ → Option ℕ × Text → Option (ℕ × Text)
fitting size (none, text) = none
fitting size (some n, text) = if leb size n then none else some (n, text)

-- `#define` and the symbol, of n bytes, at the start of the line, and white space behind.
unfoldable pub macro_line : ℕ → Text → Text → Bool
macro_line n expected line =
    has_prefix line (take n expected)
    && (get_or line n 0 == b' ' || get_or line n 0 == b'\t' || get_or line n 0 == b'\n')

module _ (S : System) where
  open S use {World, Stream, snprintf, fopen, fclose, fgets, lines_left}

  module _ {A : Type 0} where
    abbrev pub go_on : M World (Option (Bool × A)) → Bool × A → M World (Option (Bool × A))
    go_on again (true, a) = again
    go_on again (false, a) = return (some (false, a))

    -- What the loop does with what `p101_fgets` gave.
    abbrev pub take_line :
        (A → M World (Option (Bool × A)))
        → (Text → A → M World (Bool × A))
        → A
        → Option Text
        → M World (Option (Bool × A))
    take_line again body a none = return (some (true, a))
    take_line again body a (some line) = do r ← body line a; go_on (again r.1) r

    -- `while(p101_fgets(...) != NULL)` on fuel: `none` means that the fuel ran out, and a body that
    -- gives `false` leaves the loop.
    unfoldable pub read_lines :
        ℕ → Stream → (Text → A → M World (Bool × A)) → A → M World (Option (Bool × A))
    read_lines zero stream body a = return none
    read_lines (suc fuel) stream body a = do
      line ← call (fgets max_line stream)
      take_line (read_lines fuel stream body) body a line

    abbrev pub ended : A → Option (Bool × A) → Bool × A
    ended a none = (false, a)
    ended a (some r) = r

    -- The loop, with a round for each line that is left and one for the end.
    unfoldable pub read_all : Stream → (Text → A → M World (Bool × A)) → A → M World (Bool × A)
    unfolding read_lines
    read_all stream body a = do
      r ← (λ s. read_lines (suc (lines_left stream s.world)) stream body a s)
      return (ended a r)

  -- The first line is skipped.
  abbrev pub behind_header :
      (Text → Conformance → M World (Bool × Conformance))
      → Text
      → Bool × Conformance
      → M World (Bool × (Bool × Conformance))
  behind_header body line (true, c) = return (true, (false, c))
  behind_header body line (false, c) = do r ← body line c; return (r.0, (false, r.1))

  abbrev pub settle : Line → Conformance → M World (Bool × Conformance)
  settle (next c') c = return (true, c')
  settle (bad failure) c = do raise failure; return (false, c)

  -- Behind the opened manifest: the loop, and the closing.
  unfoldable pub read_manifest :
      (Text → Conformance → M World (Bool × Conformance))
      → Conformance
      → Option Stream
      → M World (Bool × Conformance)
  unfolding read_all
  read_manifest body c none = return (false, c)
  read_manifest body c (some stream) = do
    r ← read_all stream (behind_header body) (true, c)
    closed ← call (fclose stream)
    return (r.0 && closed, r.1.1)

  unfoldable pub open_manifest :
      (Text → Conformance → M World (Bool × Conformance))
      → Conformance
      → Option (ℕ × Text)
      → M World (Bool × Conformance)
  unfolding read_manifest
  open_manifest body c none = return (false, c)
  open_manifest body c (some (n, path)) = do
    stream ← call (fopen path (codes "r"))
    read_manifest body c stream

  -- A manifest of the repository, with the body of its loop.
  unfoldable pub load_manifest :
      Text
      → (Text → Conformance → M World (Bool × Conformance))
      → Conformance
      → M World (Bool × Conformance)
  unfolding open_manifest
  load_manifest text body c = do
    written ← call (snprintf path_size text)
    open_manifest body c (fitting path_size written)

  -- The body of the loop of `macro_present`: it leaves the loop at the definition.
  abbrev pub look_for_macro : ℕ → Text → Text → Bool → M World (Bool × Bool)
  look_for_macro n expected line found =
      let here = macro_line n expected line in return (not here, here)

  unfoldable pub read_macros : ℕ → Text → Option Stream → M World Bool
  unfolding read_all
  read_macros n expected none = return false
  read_macros n expected (some stream) = do
    r ← read_all stream (look_for_macro n expected) false
    closed ← call (fclose stream)
    return (r.1 && closed)

  unfoldable pub open_macros : Text → Option (ℕ × Text) → M World Bool
  unfolding read_macros
  open_macros path none = return false
  open_macros path (some (n, expected)) = do
    stream ← call (fopen path (codes "r"))
    read_macros n expected stream

  unfoldable pub macro_present : Text → Text → M World Bool
  unfolding open_macros
  macro_present path symbol = do
    written ← call (snprintf (max_name + macro_extra) (codes "#define " ++ symbol))
    open_macros path (fitting (max_name + macro_extra) written)
