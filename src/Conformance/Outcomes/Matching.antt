-- ===== src/Conformance/Outcomes/Matching.antt =====
-- The outcomes that `load_outcomes` of components/conformance/src/main.c matches with expected faults.
use mathlib.Core.List.{Perm, perm_middle}
use mathlib.Core.List.Perm
use p101_test.Base.{
  suc, ◌+◌, ◌≤◌, ◌<◌, ◌≡◌, refl, sym, ap, ◌∙◌, subst, inl, inr, Text, codes, Bool, true, false,
  Option, none, some, List, [], ◌∷◌, ◌++◌, map, append-nil, if◌then◌else◌, length, get_or, text_eq,
  text_eq→eq, All, size_mod, size_add-eq-add, State, Bool-cases, arith,
}
use p101_test.System.{System}
use p101_test.Conformance.Types.{ExpectedFault, Conformance, ConformanceLibrary}
use p101_test.Conformance.Fields.{split_fields}
use p101_test.Conformance.Table.{is_fault_of, find_fault, find_first, update_first}
use p101_test.Conformance.Outcomes.{mark_observed, observe, count_finding, outcome_line}
use p101_test.Conformance.Outcomes.Steps.{judged, matched, outcome_step, outcome_line-step}
use p101_test.Conformance.Lines.{read_all}
use p101_test.Conformance.Lines.Runs.{run_lines, run_rest-true, lines_read, read_all-run}

-- By what an outcome and an expected fault are compared: wrapper, domain and symbol.
abbrev pub Key : Type 0
Key = Text × Text × Text

abbrev pub key_of : ExpectedFault → Key
key_of fault = (fault.wrapper, fault.domain, fault.symbol)

abbrev pub outcome_key : Text → Key
outcome_key line =
    let fields = split_fields line 10 in
    (get_or fields 5 [], get_or fields 6 [], get_or fields 7 [])

abbrev pub New : ExpectedFault → Type 0
New fault = fault.observed ≡ false

abbrev pub Observed : ExpectedFault → Type 0
Observed fault = fault.observed ≡ true

abbrev pub Passed : Text → Type 0
Passed line = get_or (split_fields line 10) 9 [] ≡ codes "PASS"

-- The keys of the faults that were observed.
unfoldable pub observed_keys : List ExpectedFault → List Key
observed_keys [] = []
observed_keys (fault ∷ faults) =
    let rest = observed_keys faults in if fault.observed then key_of fault ∷ rest else rest

key_of-is_fault_of :
    (w d m : Text) (fault : ExpectedFault)
    → is_fault_of w d m fault ≡ true
    → key_of fault ≡ (w, d, m)
key_of-is_fault_of w d m fault h =
    ground (arith, text_eq→eq fault.wrapper w, text_eq→eq fault.domain d, text_eq→eq fault.symbol m)

-- The mark on an unobserved fault adds its key to those observed.
observed_keys-update_first :
    (w d m : Text) (faults : List ExpectedFault) (fault : ExpectedFault)
    → find_fault w d m faults ≡ some fault
    → fault.observed ≡ false
    → Perm
        (observed_keys (update_first (is_fault_of w d m) mark_observed faults))
        ((w, d, m) ∷ observed_keys faults)
unfolding find_first update_first observed_keys
observed_keys-update_first w d m [] fault found new = absurd (cc)
observed_keys-update_first w d m (x ∷ faults) fault found new =
    elim (Bool-cases (is_fault_of w d m x)) [
      | inl e ↦
          let fresh : x.observed ≡ false = ground (arith) in
          rw (e, fresh)
            (subst (λ k. Perm (key_of x ∷ observed_keys faults) (k ∷ observed_keys faults))
              (key_of-is_fault_of w d m x e) (Perm.refl _))
      | inr e ↦
          let found' : find_fault w d m faults ≡ some fault = ground (arith) in
          let ih = observed_keys-update_first w d m faults fault found' new in
          rw (e, observed_keys) (keep x.observed (key_of x) ih)
    ]
  where
    keep :
        (b : Bool) (k : Key) {k' : Key} {ks ls : List Key}
        → Perm ks (k' ∷ ls)
        → Perm (if b then k ∷ ks else ks) (k' ∷ (if b then k ∷ ls else ls))
    keep true k {k'} {ks} {ls} p = Perm.trans (Perm.cons k p) (perm_middle (k ∷ []) ls)
    keep false k p = p

map-key_of-update_first :
    (test : ExpectedFault → Bool) (faults : List ExpectedFault)
    → map key_of (update_first test mark_observed faults) ≡ map key_of faults
unfolding update_first
map-key_of-update_first test [] = refl
map-key_of-update_first test (x ∷ faults) = ground (arith, map-key_of-update_first test faults)

-- What the loop has made of some lines: no more findings than lines, and, where it found nothing, a pass
-- in every line and a newly observed fault for it.
pub record Matches (lines : List Text) (c c' : Conformance) : Type 0 where
  pub lower : c.findings ≤ c'.findings
  pub upper : c'.findings ≤ c.findings + length lines
  pub keys : map key_of c'.faults ≡ map key_of c.faults
  pub passed : c'.findings ≡ c.findings → All Passed lines
  pub observed :
      c'.findings ≡ c.findings
      → Perm (observed_keys c'.faults) (map outcome_key lines ++ observed_keys c.faults)

count_finding-Matches :
    (line : Text) (c : Conformance)
    → c.findings + 1 < size_mod
    → Matches (line ∷ []) c (count_finding c)
count_finding-Matches line c h =
    let e = size_add-eq-add c.findings 1 h in
    record {
      lower = omega (arith, e);
      upper = omega (arith, e);
      keys = refl;
      passed = λ p. absurd (omega (arith, e));
      observed = λ p. absurd (omega (arith, e));
    }

observe-Matches :
    (line : Text) (c : Conformance) (fault : ExpectedFault)
    → let fields = split_fields line 10 in
      find_fault (get_or fields 5 []) (get_or fields 6 []) (get_or fields 7 []) c.faults
        ≡ some fault
      → fault.observed ≡ false
      → c.findings + 1 < size_mod
      → let fields = split_fields line 10 in
        Matches (line ∷ []) c (
          observe
            (get_or fields 5 [])
            (get_or fields 6 [])
            (get_or fields 7 [])
            (judged (get_or fields 9 []) c))
observe-Matches line c fault found new h =
    let fields = split_fields line 10 in
    let w = get_or fields 5 [] in
    let d = get_or fields 6 [] in
    let m = get_or fields 7 [] in
    let status = get_or fields 9 [] in
    let e = size_add-eq-add c.findings 1 h in
    elim (Bool-cases (text_eq status (codes "PASS"))) [
      | inl pass ↦ rw pass (record {
        lower = omega arith;
        upper = omega arith;
        keys = map-key_of-update_first (is_fault_of w d m) c.faults;
        passed = λ p. (text_eq→eq status (codes "PASS") pass, tt);
        observed = λ p. observed_keys-update_first w d m c.faults fault found new;
      })
      | inr fail ↦ rw fail (record {
        lower = omega (arith, e);
        upper = omega (arith, e);
        keys = map-key_of-update_first (is_fault_of w d m) c.faults;
        passed = λ p. absurd (omega (arith, e));
        observed = λ p. absurd (omega (arith, e));
      })
    ]

matched-Matches :
    (line : Text) (c : Conformance) (found : Option ExpectedFault)
    → let fields = split_fields line 10 in
      find_fault (get_or fields 5 []) (get_or fields 6 []) (get_or fields 7 []) c.faults ≡ found
      → c.findings + 1 < size_mod
      → Matches (line ∷ []) c (matched line c found)
unfolding matched
matched-Matches line c none found h = count_finding-Matches line c h
matched-Matches line c (some fault) found h = elim (Bool-cases fault.observed) [
  | inl e ↦ rw e (count_finding-Matches line c h)
  | inr e ↦ rw e (observe-Matches line c fault found e h)
]

outcome_step-Matches :
    (line : Text) (c c' : Conformance)
    → outcome_step line c ≡ (true, c')
    → c.findings + 1 < size_mod
    → Matches (line ∷ []) c c'
unfolding outcome_step
outcome_step-Matches line c c' e h =
    let fields = split_fields line 10 in
    let found =
      find_fault (get_or fields 5 []) (get_or fields 6 []) (get_or fields 7 []) c.faults in
    let same : matched line c found ≡ c' = ground arith in
    subst (Matches (line ∷ []) c) same (matched-Matches line c found refl h)

cons-Matches :
    (line : Text) (lines : List Text) (c c' c'' : Conformance)
    → Matches (line ∷ []) c c'
    → Matches lines c' c''
    → Matches (line ∷ lines) c c''
cons-Matches line lines c c' c'' p q = record {
  lower = omega (arith, p.lower, q.lower);
  upper = omega (arith, p.upper, q.upper);
  keys = q.keys ∙ p.keys;
  passed = λ e.
      let first : c'.findings ≡ c.findings = omega (arith, p.lower, q.lower) in
      ((p.passed first).0, q.passed (e ∙ sym first));
  observed = λ e.
      let first : c'.findings ≡ c.findings = omega (arith, p.lower, q.lower) in
      Perm.trans (q.observed (e ∙ sym first)) (
        Perm.trans (Perm.append_left (map outcome_key lines) (p.observed first))
          (perm_middle (map outcome_key lines) (observed_keys c.faults)));
}

pub run_lines-Matches :
    (lines : List Text) (c c' : Conformance)
    → run_lines outcome_step lines c ≡ (true, c')
    → c.findings + length lines < size_mod
    → Matches lines c c'
unfolding run_lines
run_lines-Matches [] c c' e h = subst (Matches [] c) (ap (λ r. r.1) e) (record {
  lower = omega arith;
  upper = omega arith;
  keys = refl;
  passed = λ p. tt;
  observed = λ p. Perm.refl _;
})
run_lines-Matches (line ∷ lines) c c' e h =
    let (first, later) = run_rest-true (run_lines outcome_step lines) (outcome_step line c) c' e in
    let p = outcome_step-Matches line c (outcome_step line c).1 first (omega arith) in
    let q = run_lines-Matches lines (outcome_step line c).1 c' later (omega (arith, p.upper)) in
    cons-Matches line lines c (outcome_step line c).1 c' p q

observed_keys-New : (faults : List ExpectedFault) → All New faults → observed_keys faults ≡ []
unfolding observed_keys
observed_keys-New [] h = refl
observed_keys-New (fault ∷ faults) h = rw (h.0) (observed_keys-New faults h.1)

observed_keys-Observed :
    (faults : List ExpectedFault) → All Observed faults → observed_keys faults ≡ map key_of faults
unfolding observed_keys
observed_keys-Observed [] h = refl
observed_keys-Observed (fault ∷ faults) h = rw (h.0, observed_keys-Observed faults h.1) refl

module _ (S : System) (L : ConformanceLibrary S) (path library : Text) where
  -- The outcomes that the loop of `load_outcomes` reads from a state on.
  abbrev pub outcomes_read : S.Stream → Conformance → State S.World → List Text
  outcomes_read stream c s =
      lines_read S (suc (S.lines_left stream s.world)) stream (outcome_line S L path library) c s

  -- If the loop of load_outcomes ends without a failure from a state without findings in which no expected
  -- fault was observed, if nothing is found in fewer than 2 ^ 64 outcomes, and every expected fault is
  -- observed at the end, then every outcome passed, and the outcomes are the expected faults, each as often
  -- as it was expected, in some order.
  pub load_outcomes-perm :
      (stream : S.Stream) (c c' : Conformance) (s : State S.World)
      → (read_all S stream (outcome_line S L path library) c s).0 ≡ (true, c')
      → length (outcomes_read stream c s) < size_mod
      → c.findings ≡ 0
      → All New c.faults
      → c'.findings ≡ 0
      → All Observed c'.faults
      → All Passed (outcomes_read stream c s)
        × Perm (map key_of c.faults) (map outcome_key (outcomes_read stream c s))
  load_outcomes-perm stream c c' s loaded few clean new clean' all =
      let lines = outcomes_read stream c s in
      let run =
        read_all-run S (outcome_line S L path library) outcome_step
          (outcome_line-step S L path library) stream c c' s loaded in
      let m = run_lines-Matches lines c c' run (omega arith) in
      let same : c'.findings ≡ c.findings = omega arith in
      let keys : observed_keys c'.faults ≡ map key_of c.faults =
        observed_keys-Observed c'.faults all ∙ m.keys in
      let rest : map outcome_key lines ++ observed_keys c.faults ≡ map outcome_key lines =
        ap (λ ks. map outcome_key lines ++ ks) (observed_keys-New c.faults new)
        ∙ append-nil (map outcome_key lines) in
      (
        m.passed same,
        subst (λ ks. Perm ks (map outcome_key lines)) keys
            (subst (Perm (observed_keys c'.faults)) rest (m.observed same)),
      )
