-- ===== src/Contract/Checks/Measured.antt =====
-- What the contracts on one run in components/command-contract/src/main.c measure.
use p101_test.Base.{
  ℕ, ◌%◌, ◌≤◌, ◌≡◌, inl, inr, ap, ◌∙◌, Text, codes, Bool, true, not, ◌||◌, some, ◌==◌, Bool-cases,
  Option-cases, length, size_mod, State, has_failures, arith,
}
use p101_test.System.{System}
use p101_test.Contract.Types.{RunCapture, Timespec, ContractLibrary}
use p101_test.Contract.Limits.{output_exceeded, time_exceeded, status_differs}
use p101_test.Contract.Checks.{check_output, check_time, parsed_number, refuse}
use p101_test.Contract.Checks.Verdicts.{report_if_lem}

same : (maximum : ℕ) → (maximum % size_mod == maximum) ≡ true → maximum % size_mod ≡ maximum
same maximum r = ground arith

module _ (S : System) (L : ContractLibrary S) where
  open S use {World}

  -- A number was read from the value, and something is found exactly when it is exceeded.
  pub record Measured (value : Text) (found : Bool) (exceeds : ℕ → Bool) : Type 0 where
    pub limit : ℕ
    pub read : L.parse_unsigned_long_long value ≡ some limit
    pub exact : found ≡ exceeds limit

  pub check_output-Measured :
      (outputs : ℕ) (value : Text) (first : RunCapture) (s : State World) (found : Bool)
      → (check_output S L outputs value first s).0 ≡ some found
      → Measured value found
          (output_exceeded (length first.standard_output) (length first.standard_error))
  unfolding check_output refuse parsed_number
  check_output-Measured outputs value first s found =
      elim (Option-cases (L.parse_unsigned_long_long value)) [
        | inl p ↦ rw p (λ h. absurd (cc))
        | inr (maximum, p) ↦
            elim (Bool-cases (has_failures s.raised || not (maximum % size_mod == maximum))) [
              | inl q ↦ rw (p, q) (λ h. absurd (cc))
              | inr q ↦
                  rw (p, q)
                    (λ h. record {
                      limit = maximum;
                      read = p;
                      exact =
                          report_if_lem S L _ found outputs (codes "RESOURCE_006")
                            (codes "command output exceeded its admitted byte budget") s h
                          ∙ ap
                              (output_exceeded (length first.standard_output)
                                (length first.standard_error))
                              (same maximum (ground arith));
                    })
            ]
      ]

  pub check_time-Measured :
      (outputs : ℕ) (value : Text) (started finished : Timespec) (s : State World) (found : Bool)
      → (check_time S L outputs value started finished s).0 ≡ some found
      → Measured value found (time_exceeded started finished)
  unfolding check_time refuse parsed_number
  check_time-Measured outputs value started finished s found =
      elim (Option-cases (L.parse_unsigned_long_long value)) [
        | inl p ↦ rw p (λ h. absurd (cc))
        | inr (maximum, p) ↦ elim (Bool-cases (has_failures s.raised)) [
          | inl q ↦ rw (p, q) (λ h. absurd (cc))
          | inr q ↦
              rw (p, q)
                (λ h. record {
                  limit = maximum;
                  read = p;
                  exact =
                      report_if_lem S L _ found outputs (codes "TIME_001")
                        (codes "command exceeded its admitted monotonic elapsed-time budget") s h;
                })
        ]
      ]

  pub status-Measured :
      (value : Text) (first : RunCapture) (found : Bool)
      → ((expected : ℕ) × (L.parse_unsigned_long_long value ≡ some expected)
          × (expected ≤ 255)
          × (found ≡ status_differs first.status expected))
      → Measured value found (status_differs first.status)
  status-Measured value first found (expected, read, small, exact) = record {
    limit = expected;
    read = read;
    exact = exact;
  }
