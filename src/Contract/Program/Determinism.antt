-- ===== src/Contract/Program/Determinism.antt =====
-- What the two determinism contracts of components/command-contract/src/main.c compare.
use p101_test.Base.{
  ℕ, ◌≡◌, ◌↔◌, refl, sym, ◌∙◌, Text, Bool, true, false, not, ◌||◌, Option, none, some, List, ◌==◌,
  ==_iff, State, arith,
}
use p101_test.System.{System}
use p101_test.Contract.Types.{RunCapture, ContractLibrary}
use p101_test.Contract.Captured.{captured_equal}
use p101_test.Contract.Captured.Search.{captured_equal_iff}
use p101_test.Contract.Files.{run_command, read_file}
use p101_test.Contract.Checks.Verdicts.{report_if_lem}
use p101_test.Contract.Program.{
  runs_differ, second_run, check_determinism, compare_effects, second_effects, first_effects,
  check_side_effects,
}

-- Two runs with one status and the same bytes in both outputs.
pub record AreAlike (first second : RunCapture) : Type 0 where
  pub statuses : first.status ≡ second.status
  pub outputs : first.standard_output ≡ second.standard_output
  pub errors : first.standard_error ≡ second.standard_error

three : (a b c : Bool) → (not a || not b || not c) ≡ false → (a ≡ true) × (b ≡ true) × (c ≡ true)
three a b c h = ground arith

none_differ : (a b c : Bool) → a ≡ true → b ≡ true → c ≡ true → (not a || not b || not c) ≡ false
none_differ a b c h h' h'' = ground arith

runs_differ-AreAlike :
    (first second : RunCapture) → (runs_differ first second ≡ false) ↔ AreAlike first second
unfolding runs_differ
runs_differ-AreAlike first second = (forward, back)
  where
    forward : runs_differ first second ≡ false → AreAlike first second
    forward h =
        let (a, b, c) = three (first.status == second.status) _ _ h in
        record {
          statuses = (==_iff _ _).0 a;
          outputs = (captured_equal_iff first.standard_output second.standard_output).0 b;
          errors = (captured_equal_iff first.standard_error second.standard_error).0 c;
        }

    back : AreAlike first second → runs_differ first second ≡ false
    back r =
        none_differ _ _ _ ((==_iff _ _).1 r.statuses)
          ((captured_equal_iff first.standard_output second.standard_output).1 r.outputs)
          ((captured_equal_iff first.standard_error second.standard_error).1 r.errors)

module _ (S : System) (L : ContractLibrary S) where
  open S use {World}

  second_run_lem :
      (outputs : ℕ) (first : RunCapture) (o : Option RunCapture) (s : State World) (found : Bool)
      → (second_run S L outputs first o s).0 ≡ some found
      → (second : RunCapture) × (o ≡ some second) × (found ≡ runs_differ first second)
  unfolding second_run
  second_run_lem outputs first none s found h = ground arith
  second_run_lem outputs first (some second) s found h =
      (second, refl, report_if_lem S L (runs_differ first second) found outputs _ _ s h)

  -- The determinism contract, when it comes to an answer, has run the command a second time, and finds
  -- nothing exactly when the two runs have one status and the same bytes in both outputs.
  pub check_determinism_lem :
      (outputs : ℕ) (command : List Text) (prefix : Text) (first : RunCapture) (s : State World)
      (found : Bool)
      → (check_determinism S L outputs command prefix first s).0 ≡ some found
      → (second : RunCapture) × ((run_command S L command prefix 2 s).0 ≡ some second)
        × ((found ≡ false) ↔ AreAlike first second)
  unfolding check_determinism
  check_determinism_lem outputs command prefix first s found h =
      let (second, ran, answer) = second_run_lem outputs first _ _ found h in
      (
        second,
        ran,
        (
          λ e. (runs_differ-AreAlike first second).0 (sym answer ∙ e),
          λ r. answer ∙ (runs_differ-AreAlike first second).1 r,
        ),
      )

  either : (a b : Bool) → (a || not b) ≡ false → (a ≡ false) × (b ≡ true)
  either a b h = ground arith

  neither : (a b : Bool) → a ≡ false → b ≡ true → (a || not b) ≡ false
  neither a b h h' = ground arith

  -- The two readings of the manifest and the second run between them.
  pub record EffectsRead (value : Text) (command : List Text) (prefix : Text) (first : RunCapture)
      (s : State World) (found : Bool) : Type 0 where
    pub before : Text
    pub after : Text
    pub second : RunCapture
    pub read_before : (read_file S L value s).0 ≡ some before
    pub ran : (run_command S L command prefix 2 (read_file S L value s).1).0 ≡ some second
    pub read_after :
        (read_file S L value (run_command S L command prefix 2 (read_file S L value s).1).1).0
        ≡ some after
    pub exact : (found ≡ false) ↔ (AreAlike first second × (before ≡ after))

  effects_iff :
      (first second : RunCapture) (before after : Text) (found : Bool)
      → found ≡ (runs_differ first second || not (captured_equal before after))
      → (found ≡ false) ↔ (AreAlike first second × (before ≡ after))
  effects_iff first second before after found answer = (
    λ e.
        let (a, b) =
          either (runs_differ first second) (captured_equal before after) (sym answer ∙ e) in
        ((runs_differ-AreAlike first second).0 a, (captured_equal_iff before after).0 b),
    λ r.
        answer
        ∙ neither _ _ ((runs_differ-AreAlike first second).1 r.0)
            ((captured_equal_iff before after).1 r.1),
  )

  compare_effects_lem :
      (outputs : ℕ) (first second : RunCapture) (before : Text) (o : Option Text) (s : State World)
      (found : Bool)
      → (compare_effects S L outputs first second before o s).0 ≡ some found
      → (after : Text) × (o ≡ some after)
        × (found ≡ (runs_differ first second || not (captured_equal before after)))
  unfolding compare_effects
  compare_effects_lem outputs first second before none s found h = ground arith
  compare_effects_lem outputs first second before (some after) s found h =
      (after, refl, report_if_lem S L _ found outputs _ _ s h)

  second_effects_lem :
      (outputs : ℕ) (value : Text) (first : RunCapture) (before : Text) (o : Option RunCapture)
      (s : State World) (found : Bool)
      → (second_effects S L outputs value first before o s).0 ≡ some found
      → (second : RunCapture) × (after : Text) × (o ≡ some second)
        × ((read_file S L value s).0 ≡ some after)
        × (found ≡ (runs_differ first second || not (captured_equal before after)))
  unfolding second_effects
  second_effects_lem outputs value first before none s found h = ground arith
  second_effects_lem outputs value first before (some second) s found h =
      let (after, p, answer) = compare_effects_lem outputs first second before _ _ found h in
      (second, after, refl, p, answer)

  first_effects_lem :
      (outputs : ℕ) (value : Text) (command : List Text) (prefix : Text) (first : RunCapture)
      (o : Option Text) (s : State World) (found : Bool)
      → (first_effects S L outputs value command prefix first o s).0 ≡ some found
      → (before : Text) × (second : RunCapture) × (after : Text) × (o ≡ some before)
        × ((run_command S L command prefix 2 s).0 ≡ some second)
        × ((read_file S L value (run_command S L command prefix 2 s).1).0 ≡ some after)
        × (found ≡ (runs_differ first second || not (captured_equal before after)))
  unfolding first_effects
  first_effects_lem outputs value command prefix first none s found h = ground arith
  first_effects_lem outputs value command prefix first (some before) s found h =
      let (second, after, ran, read, answer) =
        second_effects_lem outputs value first before _ _ found h in
      (before, second, after, refl, ran, read, answer)

  -- The side-effect contract, when it comes to an answer, has read the manifest, run the command a second
  -- time and read the manifest again, and finds nothing exactly when the two runs are alike and the two
  -- readings are the same bytes.
  pub check_side_effects-EffectsRead :
      (outputs : ℕ) (value : Text) (command : List Text) (prefix : Text) (first : RunCapture)
      (s : State World) (found : Bool)
      → (check_side_effects S L outputs value command prefix first s).0 ≡ some found
      → EffectsRead value command prefix first s found
  unfolding check_side_effects
  check_side_effects-EffectsRead outputs value command prefix first s found h =
      let (before, second, after, read, ran, read', answer) =
        first_effects_lem outputs value command prefix first _ _ found h in
      record {
        before = before;
        after = after;
        second = second;
        read_before = read;
        ran = ran;
        read_after = read';
        exact = effects_iff first second before after found answer;
      }
