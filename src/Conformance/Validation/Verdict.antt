-- ===== src/Conformance/Validation/Verdict.antt =====
-- When `validate_conformance` of components/conformance/src/main.c passes.
use p101_test.Base.{
  ℕ, ◌+◌, ◌*◌, ◌≤◌, ◌<◌, ◌≡◌, refl, ap, ◌∙◌, ◌↔◌, Bool, true, false, List, [], ◌∷◌, ◌==◌, ==_iff,
  length, All, size_mod, size_add-eq-add, State, M, ◌>>=◌, Bool-cases, inl, inr, arith,
}
use p101_test.System.{System}
use p101_test.Conformance.Types.{ApiRecord, ExpectedFault, Conformance, Inputs, ConformanceLibrary}
use p101_test.Conformance.Outcomes.Matching.{Observed}
use p101_test.Conformance.Validation.{
  Check, api_checks, fault_checks, report_when, report_all, check_apis, check_faults,
  validate_conformance,
}

-- What is promised of a function of the library.
pub record Conforms (api : ApiRecord) : Type 0 where
  pub tested : api.tested ≡ true
  pub contracted : api.conformance_seen ≡ true
  pub instrumented : api.instrumentation_seen ≡ true
  pub traced : api.trace_applicable ≡ true → (0 < api.enters) × (api.enters ≡ api.exits)
  pub called : api.fault_test ≡ true → 0 < api.enters
  pub logged_arguments : api.require_arguments ≡ true → api.arguments ≡ true
  pub logged_result : api.require_result ≡ true → api.result ≡ true

abbrev one : Bool → ℕ
one true = 1
one false = 0

-- The checks that find something.
problems : List Check → ℕ
problems [] = 0
problems (k ∷ ks) = one k.test + problems ks

module _ (inputs : Inputs) where
  apis_problems : List ApiRecord → ℕ
  unfolding problems
  apis_problems [] = 0
  apis_problems (api ∷ apis) = problems (api_checks inputs api) + apis_problems apis

  faults_problems : List ExpectedFault → ℕ
  unfolding problems
  faults_problems [] = 0
  faults_problems (fault ∷ faults) = problems (fault_checks inputs fault) + faults_problems faults

  api_problems-le : (api : ApiRecord) → problems (api_checks inputs api) ≤ 8
  unfolding problems api_checks
  api_problems-le api = ground arith

  apis_problems-le : (apis : List ApiRecord) → apis_problems apis ≤ 8 * length apis
  unfolding apis_problems
  apis_problems-le [] = omega arith
  apis_problems-le (api ∷ apis) = omega (arith, api_problems-le api, apis_problems-le apis)

  faults_problems-le : (faults : List ExpectedFault) → faults_problems faults ≤ length faults
  unfolding faults_problems
  faults_problems-le [] = omega arith
  faults_problems-le (fault ∷ faults) = ground (arith, faults_problems-le faults)

  api_problems-Conforms : (api : ApiRecord) → (problems (api_checks inputs api) ≡ 0) ↔ Conforms api
  unfolding problems api_checks
  api_problems-Conforms api = (λ h. ground arith, λ h. ground arith)

  apis_problems-Conforms : (apis : List ApiRecord) → (apis_problems apis ≡ 0) ↔ All Conforms apis
  unfolding apis_problems
  apis_problems-Conforms [] = (λ h. tt, λ h. refl)
  apis_problems-Conforms (api ∷ apis) =
      let first = api_problems-Conforms api in
      let rest = apis_problems-Conforms apis in
      (
        λ h. (first.0 (omega arith), rest.0 (omega arith)),
        λ h. let a = first.1 h.0 in let b = rest.1 h.1 in omega arith,
      )

  faults_problems-Observed :
      (faults : List ExpectedFault) → (faults_problems faults ≡ 0) ↔ All Observed faults
  unfolding faults_problems
  faults_problems-Observed [] = (λ h. tt, λ h. refl)
  faults_problems-Observed (fault ∷ faults) =
      let rest = faults_problems-Observed faults in
      (λ h. (ground arith, rest.0 (omega arith)), λ h. let b = rest.1 h.1 in ground arith)

module _ (S : System) (L : ConformanceLibrary S) (inputs : Inputs) where
  open S use {World}

  -- The action adds so many findings, while their number does not wrap.
  abbrev Counts : (Conformance → M World Conformance) → ℕ → Type 0
  Counts f k =
      (c : Conformance) (s : State World) (n : ℕ)
      → c.findings ≡ n
      → n + k < size_mod
      → (f c s).0.findings ≡ n + k

  bind-Counts :
      (f g : Conformance → M World Conformance) (j k : ℕ)
      → Counts f j
      → Counts g k
      → Counts (λ c. f c >>= g) (j + k)
  bind-Counts f g j k p q c s n e h =
      let first = p c s n e (omega arith) in
      let second = q (f c s).0 (f c s).1 (n + j) first (omega arith) in second ∙ omega arith

  report_when-Counts : (k : Check) → Counts (report_when S L inputs k) (one k.test)
  unfolding report_when
  report_when-Counts k c s n e h = elim (Bool-cases k.test) [
    | inl t ↦ rw (t, one, e) (size_add-eq-add n 1 (omega (arith, ap one t)))
    | inr t ↦ rw (t, one) (omega arith)
  ]

  report_all-Counts : (ks : List Check) → Counts (report_all S L inputs ks) (problems ks)
  unfolding report_all problems
  report_all-Counts [] = λ c s n e h. e ∙ omega arith
  report_all-Counts (k ∷ ks) =
      bind-Counts (report_when S L inputs k) (report_all S L inputs ks) (one k.test) (problems ks)
        (report_when-Counts k) (report_all-Counts ks)

  check_apis-Counts :
      (apis : List ApiRecord) → Counts (check_apis S L inputs apis) (apis_problems inputs apis)
  unfolding check_apis apis_problems
  check_apis-Counts [] = λ c s n e h. e ∙ omega arith
  check_apis-Counts (api ∷ apis) =
      bind-Counts (report_all S L inputs (api_checks inputs api)) (check_apis S L inputs apis)
        (problems (api_checks inputs api)) (apis_problems inputs apis)
        (report_all-Counts (api_checks inputs api)) (check_apis-Counts apis)

  check_faults-Counts :
      (faults : List ExpectedFault)
      → Counts (check_faults S L inputs faults) (faults_problems inputs faults)
  unfolding check_faults faults_problems
  check_faults-Counts [] = λ c s n e h. e ∙ omega arith
  check_faults-Counts (fault ∷ faults) =
      bind-Counts (report_all S L inputs (fault_checks inputs fault))
        (check_faults S L inputs faults) (problems (fault_checks inputs fault))
        (faults_problems inputs faults) (report_all-Counts (fault_checks inputs fault))
        (check_faults-Counts faults)

  validate-findings :
      (c : Conformance) (s : State World)
      → c.findings + (apis_problems inputs c.apis + faults_problems inputs c.faults) < size_mod
      → (validate_conformance S L inputs c s).0.1.findings
        ≡ c.findings + (apis_problems inputs c.apis + faults_problems inputs c.faults)
  unfolding validate_conformance
  validate-findings c s h =
      bind-Counts (check_apis S L inputs c.apis) (check_faults S L inputs c.faults) _ _
        (check_apis-Counts c.apis) (check_faults-Counts c.faults) c s c.findings refl h

  validate-zero :
      (c : Conformance) (s : State World)
      → (validate_conformance S L inputs c s).0.0
        ≡ ((validate_conformance S L inputs c s).0.1.findings == 0)
  unfolding validate_conformance
  validate-zero c s = refl

  -- While the number of findings stays below 2 ^ 64, a library passes exactly when nothing was found before,
  -- every function of it is tested, has a contract and an instrumentation identity, is called where it is
  -- traced or has a fault test, with as many exits as entries where it is traced, and logs what it has to,
  -- and every expected fault was observed.
  pub validate_conformance_lem :
      (c : Conformance) (s : State World)
      → c.findings + 8 * length c.apis + length c.faults < size_mod
      → ((validate_conformance S L inputs c s).0.0 ≡ true)
        ↔ ((c.findings ≡ 0) × All Conforms c.apis × All Observed c.faults)
  validate_conformance_lem c s h =
      let bound = apis_problems-le inputs c.apis in
      let bound' = faults_problems-le inputs c.faults in
      let total = validate-findings c s (omega arith) in
      let apis = apis_problems-Conforms inputs c.apis in
      let faults = faults_problems-Observed inputs c.faults in
      rw (validate-zero c s, total)
        (
          λ e.
              let none_found = (==_iff _ 0).0 e in
              (omega arith, apis.0 (omega arith), faults.0 (omega arith)),
          λ (f, a, o). let p = apis.1 a in let q = faults.1 o in (==_iff _ 0).1 (omega arith),
        )
