-- ===== src/Contract/Checks/Verdicts.antt =====
-- When the contracts of components/command-contract/src/main.c find something.
use p101_test.Base.{
  ℕ, ◌+◌, ◌*◌, ◌%◌, ◌≤◌, ◌<◌, ◌≡◌, ◌↔◌, ◌⊎◌, inl, inr, sym, ap, ◌∙◌, Text, codes, Bool, true, false,
  ◌||◌, none, some, [], ◌∷◌, ltb, ◌==◌, Bool-cases, Option-cases, length, size_mod, State,
  has_failures, arith,
}
use p101_test.System.{System}
use p101_test.Contract.Types.{RunCapture, Timespec, ContractLibrary}
use p101_test.Contract.Captured.{captured_contains}
use p101_test.Contract.Captured.Search.{IsInside, captured_contains-IsInside}
use p101_test.Contract.Limits.{output_exceeded, time_exceeded, status_differs, second}
use p101_test.Contract.Limits.Exact.{output_exceeded_iff, time_exceeded_iff, total}
use p101_test.Contract.Checks.{
  report_if, parsed_number, refuse, check_redaction, check_output, check_time, check_status,
}

same : (maximum : ℕ) → (maximum % size_mod == maximum) ≡ true → maximum % size_mod ≡ maximum
same maximum r = ground arith

differ : (b : Bool) → none ≡ some b → ⊥
differ b e = ground arith

module _ (S : System) (L : ContractLibrary S) where
  open S use {World}

  -- What is reported is the test's answer.
  pub report_if_lem :
      (b c : Bool) (outputs : ℕ) (finding message : Text) (s : State World)
      → (report_if S L b outputs finding message s).0 ≡ some c
      → c ≡ b
  unfolding report_if
  report_if_lem false c outputs finding message s h = ground arith
  report_if_lem true c outputs finding message s h = ground arith

  or_iff : (a b : Bool) → ((a || b) ≡ true) ↔ ((a ≡ true) ⊎ (b ≡ true))
  or_iff a b = ground arith

  -- The redaction contract, when it comes to an answer, has a probe that is not empty, and finds something
  -- exactly when the probe stands in one of the two outputs.
  pub check_redaction_lem :
      (outputs : ℕ) (probe : Text) (first : RunCapture) (s : State World) (found : Bool)
      → (check_redaction S L outputs probe first s).0 ≡ some found
      → ¬ (probe ≡ [])
        × ((found ≡ true)
            ↔ (IsInside probe first.standard_output ⊎ IsInside probe first.standard_error))
  unfolding check_redaction refuse
  check_redaction_lem outputs [] first s found h = ground arith
  check_redaction_lem outputs (c ∷ probe) first s found h = ((λ e. ground arith), (forward, back))
    where
      answer : found ≡ (
          captured_contains first.standard_output (c ∷ probe)
          || captured_contains first.standard_error (c ∷ probe))
      answer =
          report_if_lem _ found outputs (codes "DATA_001")
            (codes "command output disclosed the admitted sensitive probe") s h

      forward :
          found ≡ true
          → IsInside (c ∷ probe) first.standard_output ⊎ IsInside (c ∷ probe) first.standard_error
      forward e = elim ((or_iff _ _).0 (sym answer ∙ e)) [
        | inl a ↦ inl ((captured_contains-IsInside first.standard_output (c ∷ probe)).0 a)
        | inr b ↦ inr ((captured_contains-IsInside first.standard_error (c ∷ probe)).0 b)
      ]

      back :
          IsInside (c ∷ probe) first.standard_output ⊎ IsInside (c ∷ probe) first.standard_error
          → found ≡ true
      back (inl i) =
          answer
          ∙ (or_iff _ _).1
              (inl ((captured_contains-IsInside first.standard_output (c ∷ probe)).1 i))
      back (inr i) =
          answer
          ∙ (or_iff _ _).1 (inr ((captured_contains-IsInside first.standard_error (c ∷ probe)).1 i))

  -- The limit that a check read.
  pub record Limited (value : Text) (found : Bool) (exceeds : ℕ → Type 0) : Type 0 where
    pub maximum : ℕ
    pub read : L.parse_unsigned_long_long value ≡ some maximum
    pub exact : (found ≡ true) ↔ exceeds maximum

  -- The output contract, when it comes to an answer for two outputs whose sizes fit `size_t`, has read a
  -- maximum, and finds something exactly when the two sizes together are above it.
  pub check_output_lem :
      (outputs : ℕ) (value : Text) (first : RunCapture) (s : State World) (found : Bool)
      → length first.standard_output < size_mod
      → length first.standard_error < size_mod
      → (check_output S L outputs value first s).0 ≡ some found
      → Limited value found
          (λ maximum. maximum < length first.standard_output + length first.standard_error)
  unfolding check_output refuse parsed_number
  check_output_lem outputs value first s found h h' e =
      elim (Option-cases (L.parse_unsigned_long_long value)) [
        | inl p ↦ ground arith
        | inr (maximum, p) ↦ elim (Bool-cases (has_failures s.raised)) [
          | inl q ↦ ground arith
          | inr q ↦ elim (Bool-cases (maximum % size_mod == maximum)) [
            | inr r ↦ absurd (stuck maximum p q r)
            | inl r ↦
                let limit =
                  output_exceeded_iff (length first.standard_output) (length first.standard_error)
                    maximum h h' (ground arith) in
                record {
                  maximum = maximum;
                  read = p;
                  exact = (
                    λ t. limit.0 (sym (answer maximum p q r) ∙ t),
                    λ t. answer maximum p q r ∙ limit.1 t,
                  );
                }
          ]
        ]
      ]
    where
      stuck :
          (maximum : ℕ)
          → L.parse_unsigned_long_long value ≡ some maximum
          → has_failures s.raised ≡ false
          → (maximum % size_mod == maximum) ≡ false
          → ⊥
      stuck maximum p q r = (λ (x : none ≡ some found). differ found x) (rw (p, q, r) at e)

      answer :
          (maximum : ℕ)
          → L.parse_unsigned_long_long value ≡ some maximum
          → has_failures s.raised ≡ false
          → (maximum % size_mod == maximum) ≡ true
          → found
            ≡ output_exceeded (length first.standard_output) (length first.standard_error) maximum
      answer maximum p q r =
          report_if_lem
            (output_exceeded (length first.standard_output) (length first.standard_error)
              (maximum % size_mod))
            found outputs _ _ s (rw (p, q, r) at e)
          ∙ ap (output_exceeded (length first.standard_output) (length first.standard_error))
              (same maximum r)

  -- The time contract, when it comes to an answer for two readings of the clock with the first not behind
  -- the second, has read a maximum, and finds something exactly when more than this many milliseconds have
  -- passed.
  pub check_time_lem :
      (outputs : ℕ) (value : Text) (started finished : Timespec) (s : State World) (found : Bool)
      → started.nanoseconds < second
      → finished.nanoseconds < second
      → total started ≤ total finished
      → (check_time S L outputs value started finished s).0 ≡ some found
      → Limited value found (λ maximum. total started + 1000000 * maximum < total finished)
  unfolding check_time refuse parsed_number
  check_time_lem outputs value started finished s found h h' ordered e =
      elim (Option-cases (L.parse_unsigned_long_long value)) [
        | inl p ↦ ground arith
        | inr (maximum, p) ↦ elim (Bool-cases (has_failures s.raised)) [
          | inl q ↦ ground arith
          | inr q ↦
              let limit = time_exceeded_iff started finished maximum h h' ordered in
              record {
                maximum = maximum;
                read = p;
                exact = (
                  λ t. limit.0 (sym (answer maximum p q) ∙ t),
                  λ t. answer maximum p q ∙ limit.1 t,
                );
              }
        ]
      ]
    where
      answer :
          (maximum : ℕ)
          → L.parse_unsigned_long_long value ≡ some maximum
          → has_failures s.raised ≡ false
          → found ≡ time_exceeded started finished maximum
      answer maximum p q =
          report_if_lem (time_exceeded started finished maximum) found outputs _ _ s
            (rw (p, q) at e)

  -- The recovery and compatibility contracts, when they come to an answer, have read a status of at most
  -- 255, and find something exactly when the command did not exit with it.
  pub check_status_lem :
      (outputs : ℕ) (value finding message : Text) (first : RunCapture) (s : State World)
      (found : Bool)
      → (check_status S L outputs value finding message first s).0 ≡ some found
      → (expected : ℕ) × (L.parse_unsigned_long_long value ≡ some expected)
        × (expected ≤ 255)
        × (found ≡ status_differs first.status expected)
  unfolding check_status refuse parsed_number
  check_status_lem outputs value finding message first s found e =
      elim (Option-cases (L.parse_unsigned_long_long value)) [
        | inl p ↦ ground arith
        | inr (expected, p) ↦ elim (Bool-cases (has_failures s.raised)) [
          | inl q ↦ ground arith
          | inr q ↦ elim (Bool-cases (ltb 255 expected)) [
            | inl r ↦ absurd (differ found (rw (p, q, r) at e))
            | inr r ↦ (
              expected,
              p,
              ground arith,
              report_if_lem (status_differs first.status expected) found outputs finding message s
                  (rw (p, q, r) at e),
            )
          ]
        ]
      ]
