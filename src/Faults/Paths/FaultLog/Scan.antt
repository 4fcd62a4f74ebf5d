-- ===== src/Faults/Paths/FaultLog/Scan.antt =====
-- The loop of `p101_error_path_walk_read_fault_hit` over the lines that a stream delivers.
use p101_test.Base.{
  ℕ, zero, suc, ◌<◌, ◌≤◌, Text, codes, subst, ap, Bool, true, false, Option, none, some, List, [],
  ◌∷◌, length, Failure, user, State, M, arith, ◌≡◌, ◌≢◌, refl, add_raised, Option-cases, inl, inr,
}
use p101_test.System.{System}
use p101_test.Faults.Types.{err_usage}
use p101_test.Faults.Library.{FaultLibrary}
use p101_test.Faults.Paths.FaultLog.{
  Verdict, skip, hit, bad, check_line, read_buf_len, scan_lines, read_fault_hit, judge,
}

abbrev pub decide : Verdict → Verdict → Verdict
decide skip later = later
decide (hit name) later = hit name
decide (bad message) later = bad message

-- The verdict that decides: the first that is not `skip`.
unfoldable pub first_verdict : FaultLibrary → List Text → Verdict
first_verdict L [] = skip
first_verdict L (line ∷ lines) = decide (check_line L line) (first_verdict L lines)

-- What the loop returns, and what it raises, for a verdict.
abbrev pub outcome_of : Verdict → Bool × Text
outcome_of skip = (false, [])
outcome_of (hit name) = (true, name)
outcome_of (bad message) = (false, [])

abbrev pub raised_by : Verdict → List Failure → List Failure
raised_by skip fs = fs
raised_by (hit name) fs = fs
raised_by (bad message) fs = user message err_usage ∷ fs

module _ (S : System) where
  open S use {World, Stream, error_create, fopen, fgets, lines_left}

  -- The lines that the stream gives from a world on, with no failure and up to its end.
  pub data Delivers (stream : Stream) : World → List Text → Type 0 where
    finish :
        {w : World} (w' : World)
        → fgets read_buf_len stream w ≡ (none, none, w')
        → Delivers stream w []
    deliver :
        {w : World} {lines : List Text} (line : Text) (w' : World)
        → fgets read_buf_len stream w ≡ (some line, none, w')
        → Delivers stream w' lines
        → Delivers stream w (line ∷ lines)

  -- Each line that is delivered lowers the count of lines left.
  abbrev pub LinesFall : Type 0
  LinesFall =
      (stream : Stream) (w : World) (line : Text)
      → (fgets read_buf_len stream w).0 ≡ some line
      → lines_left stream (fgets read_buf_len stream w).2 < lines_left stream w

  judge_lem :
      (L : FaultLibrary) (verdict : Verdict) (lines : List Text)
      (rest : M World (Option (Bool × Text))) (raised : List Failure) (w : World)
      → ((rest (record { raised = raised; world = w })).0
          ≡ some (outcome_of (first_verdict L lines)))
        × ((rest (record { raised = raised; world = w })).1.raised
            ≡ raised_by (first_verdict L lines) raised)
      → ((judge L S rest verdict (record { raised = raised; world = w })).0
          ≡ some (outcome_of (decide verdict (first_verdict L lines))))
        × ((judge L S rest verdict (record { raised = raised; world = w })).1.raised
            ≡ raised_by (decide verdict (first_verdict L lines)) raised)
  unfolding judge
  judge_lem L skip lines rest raised w h = h
  judge_lem L (hit name) lines rest raised w h = (refl, refl)
  judge_lem L (bad message) lines rest raised w h = (refl, refl)

  -- With fuel for every line, the loop ends with the outcome of the first deciding line.
  pub scan_lines_lem :
      (L : FaultLibrary) (fuel : ℕ) (stream : Stream) (s : State World) {lines : List Text}
      → Delivers stream s.world lines
      → length lines < fuel
      → ((scan_lines L S fuel stream s).0 ≡ some (outcome_of (first_verdict L lines)))
        × ((scan_lines L S fuel stream s).1.raised ≡ raised_by (first_verdict L lines) s.raised)
  unfolding scan_lines first_verdict
  scan_lines_lem L zero stream s d h = elim h [ ]
  scan_lines_lem L (suc fuel) stream s (finish w' e) h = rw e (refl, refl)
  scan_lines_lem L (suc fuel) stream s (deliver {lines = lines} line w' e d) h = rw e (
      judge_lem L (check_line L line) lines _ s.raised w'
        (scan_lines_lem L fuel stream (record { raised = s.raised; world = w' }) d (omega arith)))

  judge_total :
      (L : FaultLibrary) (verdict : Verdict) (rest : M World (Option (Bool × Text)))
      (s : State World)
      → (rest s).0 ≢ none
      → (judge L S rest verdict s).0 ≢ none
  unfolding judge
  judge_total L skip rest s h = h
  judge_total L (hit name) rest s h = λ p. cc
  judge_total L (bad message) rest s h = λ p. cc

  -- A stream whose count of lines left falls with each line never exhausts the loop's fuel.
  pub scan_lines_total :
      LinesFall
      → (L : FaultLibrary) (fuel : ℕ) (stream : Stream) (s : State World)
      → lines_left stream s.world < fuel
      → (scan_lines L S fuel stream s).0 ≢ none
  unfolding scan_lines
  scan_lines_total falls L zero stream s h = elim h [ ]
  scan_lines_total falls L (suc fuel) stream s h =
      elim (Option-cases (S.fgets read_buf_len stream s.world).0) [
        | inl e ↦ rw e (λ p. cc)
        | inr (line, e) ↦ rw e (
            judge_total L (check_line L line) _ _
              (scan_lines_total falls L fuel stream _ (omega (arith, falls stream s.world line e))))
      ]

  length-le-lines_left :
      LinesFall
      → (stream : Stream) {w : World} {lines : List Text} → Delivers stream w lines
      → length lines ≤ lines_left stream w
  length-le-lines_left falls stream (finish w' e) = omega arith
  length-le-lines_left falls stream (deliver {w = w} line w' e d) = omega (
    arith,
    length-le-lines_left falls stream d,
    subst (λ r. lines_left stream r.2 < lines_left stream w) e
        (falls stream w line (ap (λ r. r.0) e)),
  )

  -- Where the predicate's error object is made and the log opens, the first line that is neither
  -- foreign nor skipped decides: its hit is returned, or its message is raised. Nothing else is
  -- raised but what closing the log raises.
  pub read_fault_hit_lem :
      (L : FaultLibrary) (path : Text) (s : State World) (stream : Stream) {w w' : World}
      {lines : List Text} (f g : Option Failure)
      → LinesFall
      → error_create s.world ≡ (true, f, w)
      → fopen path (codes "r") w ≡ (some stream, g, w')
      → Delivers stream w' lines
      → ((read_fault_hit L S path s).0 ≡ outcome_of (first_verdict L lines))
        × (x : Option Failure) × ((read_fault_hit L S path s).1.raised
            ≡ add_raised x (raised_by (first_verdict L lines) s.raised))
  unfolding read_fault_hit
  read_fault_hit_lem L path s stream {w' = w'} f g falls made opened d =
      let (e, r) =
        scan_lines_lem L (suc (lines_left stream w')) stream
          (record { raised = s.raised; world = w' }) d
          (omega (arith, length-le-lines_left falls stream d)) in
      rw made (rw opened (rw e (refl, _, ap (add_raised _) r)))
