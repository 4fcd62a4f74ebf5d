-- ===== src/Repository/Program/Passing.antt =====
-- When the program of components/repository-receipt/src/main.c ends with which status.
use p101_test.Base.{
  ℕ, ◌≡◌, ◌≢◌, ◌⊎◌, ◌↔◌, refl, sym, subst, inl, inr, Text, codes, Bool, true, false, Option, none,
  some, List, [], ◌∷◌, ltb, length, get_or, All, text_eq, text_eq_iff, State, has_failures,
  Bool-cases, arith,
}
use p101_test.System.{System}
use p101_test.Repository.Types.{RepositoryResult, ReceiptLibrary}
use p101_test.Repository.Result.{load_results}
use p101_test.Repository.Receipt.{write_receipt}
use p101_test.Repository.Program.{
  Arguments, is_failing, passed_from, parse_arguments, status_of, judge, text_or_empty, run, finish,
  main,
}

-- The unit tests neither failed nor are missing, and the fuzz tests did not fail.
abbrev pub Passes : RepositoryResult → Type 0
Passes r = (r.unit ≢ codes "FAIL") × ((r.unit ≢ codes "MISSING") × (r.fuzz ≢ codes "FAIL"))

abbrev pub AllPass : List RepositoryResult → Type 0
AllPass records = (length records ≢ 0) × All Passes records

text_eq-false : (a b : Text) → (text_eq a b ≡ false) ↔ (a ≢ b)
text_eq-false a b = (
  λ e h. let t = (text_eq_iff a b).1 h in cc,
  λ h. elim (Bool-cases (text_eq a b)) [ inl e ↦ absurd (h ((text_eq_iff a b).0 e)) | inr e ↦ e ],
)

-- A record does not fail exactly when it passes.
is_failing-Passes : (r : RepositoryResult) → (is_failing r ≡ false) ↔ Passes r
unfolding is_failing
is_failing-Passes r = (
  λ e.
      let a : text_eq r.unit (codes "FAIL") ≡ false = ground arith in
      let b : text_eq r.unit (codes "MISSING") ≡ false = ground arith in
      let c : text_eq r.fuzz (codes "FAIL") ≡ false = ground arith in
      ((text_eq-false _ _).0 a, ((text_eq-false _ _).0 b, (text_eq-false _ _).0 c)),
  λ (a, (b, c)).
      let a' = (text_eq-false r.unit (codes "FAIL")).1 a in
      let b' = (text_eq-false r.unit (codes "MISSING")).1 b in
      let c' = (text_eq-false r.fuzz (codes "FAIL")).1 c in rw (a', b', c') refl,
)

passed_from-Passes :
    (passed : Bool) (records : List RepositoryResult)
    → (passed_from passed records ≡ true) ↔ ((passed ≡ true) × All Passes records)
unfolding passed_from
passed_from-Passes passed [] = (λ h. (h, tt), λ h. h.0)
passed_from-Passes passed (r ∷ records) = elim (Bool-cases (is_failing r)) [
  | inl e ↦ rw e (
    λ h. absurd (let (f, rest) = (passed_from-Passes false records).0 h in cc),
    λ (p, (passes, all)). absurd (let e' = (is_failing-Passes r).1 passes in cc),
  )
  | inr e ↦ rw e (
    λ h.
        let (p, all) = (passed_from-Passes passed records).0 h in
        (p, ((is_failing-Passes r).0 e, all)),
    λ (p, (passes, all)). (passed_from-Passes passed records).1 (p, all),
  )
]

-- The judgement of the records that `main` makes.
passed_from-AllPass :
    (records : List RepositoryResult)
    → (passed_from (ltb 0 (length records)) records ≡ true) ↔ AllPass records
passed_from-AllPass records = (
  λ h.
      let (some_found, all) = (passed_from-Passes (ltb 0 (length records)) records).0 h in
      (ground arith, all),
  λ (some_found, all). (passed_from-Passes (ltb 0 (length records)) records).1 (ground arith, all),
)

module _ (S : System) (L : ReceiptLibrary S) where
  open S use {World}

  status_of-zero : (passed : Bool) → (status_of S L passed true ≡ 0) ↔ (passed ≡ true)
  status_of-zero true = (λ h. refl, λ h. refl)
  status_of-zero false = (λ h. absurd (omega arith), λ h. absurd (cc))

  status_of-cases :
      (passed : Bool) → (status_of S L passed true ≡ 0) ⊎ (status_of S L passed true ≡ 1)
  status_of-cases true = inl refl
  status_of-cases false = inr refl

  -- The records were loaded, and a receipt of them was written, with a judgement that is positive exactly if
  -- there are records and all of them pass; the status is 0 exactly then, and else 1.
  pub record Judged (a : Arguments) (s : State World) (n : ℕ) : Type 0 where
    pub records : List RepositoryResult
    pub loaded : (load_results S L (text_or_empty S L a.results_path) s).0 ≡ some (true, records)
    pub passed : Bool
    pub judged : (passed ≡ true) ↔ AllPass records
    pub written :
        (write_receipt S L
          (text_or_empty S L a.output_path)
          records
          passed
          (load_results S L (text_or_empty S L a.results_path) s).1).0
        ≡ true
    pub passes : (n ≡ 0) ↔ AllPass records
    pub fails : (n ≡ 0) ⊎ (n ≡ 1)

  judge-Judged :
      (a : Arguments) (s : State World) (n : ℕ)
      → (let loaded = load_results S L (text_or_empty S L a.results_path) s in
          (judge S L (text_or_empty S L a.output_path) loaded.0 loaded.1).0 ≡ some n)
      → ((n ≡ 2) ⊎ Judged a s n)
  judge-Judged a s n h =
      let loaded = load_results S L (text_or_empty S L a.results_path) s in
      go loaded.0 loaded.1 refl refl h
    where
      go :
          (r : Option (Bool × List RepositoryResult)) (s' : State World)
          → (load_results S L (text_or_empty S L a.results_path) s).0 ≡ r
          → (load_results S L (text_or_empty S L a.results_path) s).1 ≡ s'
          → (judge S L (text_or_empty S L a.output_path) r s').0 ≡ some n
          → ((n ≡ 2) ⊎ Judged a s n)
      go none s' e e' h = absurd (cc)
      go (some (false, records)) s' e e' h = inl (let same : some 2 ≡ some n = h in cc)
      go (some (true, records)) s' e e' h =
          let passed = passed_from (ltb 0 (length records)) records in
          elim (Bool-cases
            (write_receipt S L (text_or_empty S L a.output_path) records passed s').0) [
              | inl w ↦
                  let same : status_of S L passed true ≡ n = cc in
                  let (to, from) = status_of-zero passed in
                  let (there, back) = passed_from-AllPass records in
                  inr (
                    subst (Judged a s) same (record {
                      records = records;
                      loaded = e;
                      passed = passed;
                      judged = (there, back);
                      written = rw e' w;
                      passes = (λ z. there (to z), λ p. from (back p));
                      fails = status_of-cases passed;
                    }))
              | inr w ↦ inl (let same : status_of S L passed false ≡ n = cc in sym same)
            ]

  run-cases :
      (program : Text) (parsed : Bool × Arguments) (s : State World) (n : ℕ)
      → (run S L program parsed s).0 ≡ some n
      → (n ≡ 2) ⊎ (((parsed.1.help ≡ true) × (n ≡ 0)) ⊎ ((parsed.0 ≡ true) × Judged parsed.1 s n))
  unfolding run
  run-cases program (false, a) s n = elim (Bool-cases a.help) [
    | inl e ↦ λ h. inr (inl (e, cc))
    | inr e ↦ λ h. inl (cc)
  ]
  run-cases program (true, a) s n =
      λ h. elim (judge-Judged a s n h) [ inl two ↦ inl two | inr judged ↦ inr (inr (refl, judged)) ]

  finish-cases :
      (program : Text) (status : Option ℕ) (s : State World) (n : ℕ)
      → (finish S L program status s).0 ≡ some n
      → ((n ≡ 2)
          ⊎ ((has_failures (finish S L program status s).1.raised ≡ false) × (status ≡ some n)))
  finish-cases program none s n = λ h. absurd (cc)
  finish-cases program (some status) s n = elim (Bool-cases (has_failures s.raised)) [
    | inl e ↦ rw e (λ h. inl (cc))
    | inr e ↦ rw e (λ h. inr (e, h))
  ]

  -- The program ends with 2, or without a failure at its end: then either help was asked for and the status
  -- is 0, or its arguments were taken, the records were loaded, a receipt of them was written that says
  -- passed exactly if there are records and in none of them the unit tests failed or are missing or the fuzz
  -- tests failed, and the status is 0 exactly then, and else 1.
  pub receipt-decided :
      (argv : List Text) (s : State World) (n : ℕ)
      → (main S L argv s).0 ≡ some n
      → let parsed = parse_arguments S L argv s in
        (n ≡ 2)
        ⊎ ((has_failures (main S L argv s).1.raised ≡ false)
            × (((parsed.0.1.help ≡ true) × (n ≡ 0))
                ⊎ ((parsed.0.0 ≡ true) × Judged parsed.0.1 parsed.1 n)))
  unfolding main
  receipt-decided argv s n h =
      let parsed = parse_arguments S L argv s in
      let status = run S L (get_or argv 0 []) parsed.0 parsed.1 in
      elim (finish-cases (get_or argv 0 []) status.0 status.1 n h) [
        | inl two ↦ inl two
        | inr (quiet, ended) ↦ elim (run-cases (get_or argv 0 []) parsed.0 parsed.1 n ended) [
          | inl two ↦ inl two
          | inr rest ↦ inr (quiet, rest)
        ]
      ]
