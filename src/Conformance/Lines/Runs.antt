-- ===== src/Conformance/Lines/Runs.antt =====
-- The loops over lines of components/conformance/src/main.c, as runs over the lines that were read.
use p101_test.Base.{
  ℕ, zero, suc, ◌≡◌, refl, ap, Text, Bool, true, false, Option, none, some, List, [], ◌∷◌, State, M,
  call,
}
use p101_test.System.{System}
use p101_test.Conformance.Types.{max_line}
use p101_test.Conformance.Lines.{read_lines, read_all, ended, go_on, take_line}

-- A step over every line, up to the first that fails.
abbrev pub run_rest : {A : Type 0} → (A → Bool × A) → Bool × A → Bool × A
run_rest again (true, a) = again a
run_rest again (false, a) = (false, a)

unfoldable pub run_lines : {A : Type 0} → (Text → A → Bool × A) → List Text → A → Bool × A
run_lines step [] a = (true, a)
run_lines step (line ∷ lines) a = run_rest (run_lines step lines) (step line a)

-- A run that does not fail goes on behind its first line.
pub run_rest-true :
    {A : Type 0} (again : A → Bool × A) (p : Bool × A) (a : A)
    → run_rest again p ≡ (true, a)
    → (p ≡ (true, p.1)) × (again p.1 ≡ (true, a))
run_rest-true again (true, b) a h = (refl, h)
run_rest-true again (false, b) a h = absurd (cc)

abbrev pub Ends {κ} : {A : Type 0} → (A → Type κ) → Option (Bool × A) → Type κ
Ends P none = Unit
Ends P (some r) = P r.1

module _ (S : System) {A : Type 0} where
  open S use {World, Stream, fgets, lines_left}

  abbrev pub more_read : (A → State World → List Text) → (Bool × A) × State World → List Text
  more_read again ((true, a), s) = again a s
  more_read again ((false, a), s) = []

  abbrev pub line_read :
      (A → State World → List Text)
      → (Text → A → M World (Bool × A))
      → A
      → Option Text × State World
      → List Text
  line_read again body a (none, s) = []
  line_read again body a (some line, s) = line ∷ more_read again (body line a s)

  -- The lines that a loop reads.
  unfoldable pub lines_read :
      ℕ → Stream → (Text → A → M World (Bool × A)) → A → State World → List Text
  lines_read zero stream body a s = []
  lines_read (suc fuel) stream body a s =
      line_read (lines_read fuel stream body) body a (call (fgets max_line stream) s)

  -- What every round keeps holds at the end.
  module _ {κ} (P : A → Type κ) (body : Text → A → M World (Bool × A))
      (keep : (line : Text) (a : A) (s : State World) → P a → P (body line a s).0.1) where
    go_on-keeps :
        (again : A → M World (Option (Bool × A)))
        → ((a : A) (s : State World) → P a → Ends P (again a s).0)
        → (r : Bool × A) (s : State World) → P r.1
        → Ends P (go_on S (again r.1) r s).0
    go_on-keeps again ih (true, a) s h = ih a s h
    go_on-keeps again ih (false, a) s h = h

    take_line-keeps :
        (again : A → M World (Option (Bool × A)))
        → ((a : A) (s : State World) → P a → Ends P (again a s).0)
        → (line : Option Text) (a : A) (s : State World) → P a
        → Ends P (take_line S again body a line s).0
    take_line-keeps again ih none a s h = h
    take_line-keeps again ih (some line) a s h =
        go_on-keeps again ih (body line a s).0 (body line a s).1 (keep line a s h)

    read_lines-keeps :
        (fuel : ℕ) (stream : Stream) (a : A) (s : State World)
        → P a
        → Ends P (read_lines S fuel stream body a s).0
    unfolding read_lines
    read_lines-keeps zero stream a s h = tt
    read_lines-keeps (suc fuel) stream a s h =
        take_line-keeps (read_lines S fuel stream body) (read_lines-keeps fuel stream)
          (fgets max_line stream s.world).0 a (call (fgets max_line stream) s).1 h

    ended-keeps : (a : A) (o : Option (Bool × A)) → P a → Ends P o → P (ended S a o).1
    ended-keeps a none h k = h
    ended-keeps a (some r) h k = k

    pub read_all-keeps :
        (stream : Stream) (a : A) (s : State World) → P a → P (read_all S stream body a s).0.1
    unfolding read_all
    read_all-keeps stream a s h =
        ended-keeps a _ h (read_lines-keeps (suc (lines_left stream s.world)) stream a s h)

  -- A loop that ends is the run of its body's step over the lines that it read.
  module _ (body : Text → A → M World (Bool × A)) (step : Text → A → Bool × A)
      (same : (line : Text) (a : A) (s : State World) → (body line a s).0 ≡ step line a) where
    go_on-run :
        (again : A → M World (Option (Bool × A))) (read : A → State World → List Text)
        → ((a : A) (s : State World) (r : Bool × A)
            → (again a s).0 ≡ some r
            → run_lines step (read a s) a ≡ r)
        → (p : Bool × A) (s : State World) (r : Bool × A) → (go_on S (again p.1) p s).0 ≡ some r
        → run_rest (run_lines step (more_read read (p, s))) p ≡ r
    go_on-run again read ih (true, a) s r h = ih a s r h
    go_on-run again read ih (false, a) s r h = cc

    take_line-run :
        (again : A → M World (Option (Bool × A))) (read : A → State World → List Text)
        → ((a : A) (s : State World) (r : Bool × A)
            → (again a s).0 ≡ some r
            → run_lines step (read a s) a ≡ r)
        → (line : Option Text) (a : A) (s : State World) (r : Bool × A)
        → (take_line S again body a line s).0 ≡ some r
        → run_lines step (line_read read body a (line, s)) a ≡ r
    unfolding run_lines
    take_line-run again read ih none a s r h = cc
    take_line-run again read ih (some line) a s r h =
        rw (← (same line a s)) (go_on-run again read ih (body line a s).0 (body line a s).1 r h)

    read_lines-run :
        (fuel : ℕ) (stream : Stream) (a : A) (s : State World) (r : Bool × A)
        → (read_lines S fuel stream body a s).0 ≡ some r
        → run_lines step (lines_read fuel stream body a s) a ≡ r
    unfolding read_lines lines_read
    read_lines-run zero stream a s r h = cc
    read_lines-run (suc fuel) stream a s r h =
        take_line-run (read_lines S fuel stream body) (lines_read fuel stream body)
          (read_lines-run fuel stream) (fgets max_line stream s.world).0 a
          (call (fgets max_line stream) s).1 r h

    ended-run : (a a' : A) (o : Option (Bool × A)) → ended S a o ≡ (true, a') → o ≡ some (true, a')
    ended-run a a' none h = absurd (cc)
    ended-run a a' (some r) h = ap some h

    -- A loop that ends without a failure.
    pub read_all-run :
        (stream : Stream) (a a' : A) (s : State World)
        → (read_all S stream body a s).0 ≡ (true, a')
        → run_lines step (lines_read (suc (lines_left stream s.world)) stream body a s) a
          ≡ (true, a')
    unfolding read_all
    read_all-run stream a a' s h =
        read_lines-run (suc (lines_left stream s.world)) stream a s (true, a') (ended-run a a' _ h)
