-- ===== src/Conformance/Lines/Termination.antt =====
-- The loops over lines of components/conformance/src/main.c and their fuel.
use p101_test.Base.{
  ℕ, zero, suc, ◌<◌, ◌≡◌, ◌≢◌, inl, inr, Text, Bool, true, false, none, some, State, M, call,
  Option-cases, arith,
}
use p101_test.System.{System}
use p101_test.Conformance.Types.{max_line}
use p101_test.Conformance.Lines.{read_lines, go_on, take_line}

module _ (S : System) {A : Type 0} (stream : S.Stream)
    (body : Text → A → M S.World (Bool × A)) where
  open S use {World, fgets, lines_left}

  -- A round that reads a line lowers the count of lines left.
  abbrev pub RoundsFall : Type 0
  RoundsFall =
      (a : A) (s : State World) (line : Text)
      → (fgets max_line stream s.world).0 ≡ some line
      → lines_left stream (body line a (call (fgets max_line stream) s).1).1.world
        < lines_left stream s.world

  module _ (fall : RoundsFall) where
    go_on_total :
        (fuel : ℕ)
        → ((a : A) (s : State World)
            → lines_left stream s.world < fuel
            → (read_lines S fuel stream body a s).0 ≢ none)
        → (r : Bool × A) (s : State World) → lines_left stream s.world < fuel
        → (go_on S (read_lines S fuel stream body r.1) r s).0 ≢ none
    go_on_total fuel ih (true, a) s h = ih a s h
    go_on_total fuel ih (false, a) s h = λ e. cc

    -- If each round that reads a line lowers the count of lines left, and the fuel is above this count, the
    -- loop over the lines of a file ends before the fuel does.
    pub read_lines_total :
        (fuel : ℕ) (a : A) (s : State World)
        → lines_left stream s.world < fuel
        → (read_lines S fuel stream body a s).0 ≢ none
    unfolding read_lines
    read_lines_total zero a s h = elim h [ ]
    read_lines_total (suc fuel) a s h = elim (Option-cases (fgets max_line stream s.world).0) [
      | inl e ↦ rw (e, take_line) (λ p. cc)
      | inr (line, e) ↦
          let behind = (call (fgets max_line stream) s).1 in
          let r = body line a behind in
          let lower : lines_left stream r.1.world < lines_left stream s.world = fall a s line e in
          rw (e, take_line) (go_on_total fuel (read_lines_total fuel) r.0 r.1 (omega arith))
    ]
