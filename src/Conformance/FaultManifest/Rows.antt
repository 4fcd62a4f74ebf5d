-- ===== src/Conformance/FaultManifest/Rows.antt =====
-- The expected faults that a row adds in `load_fault_manifest` of components/conformance/src/main.c.
use p101_test.Base.{
  ℕ, zero, suc, ◌≤◌, ◌≡◌, refl, ap, sym, ◌∙◌, inl, inr, Text, Bool, true, false, List, [], ◌∷◌,
  ◌++◌, append_assoc, append-nil, if◌then◌else◌, length, State, M, Bool-cases, arith,
}
use p101_test.System.{System}
use p101_test.Conformance.Types.{ExpectedFault, Conformance}
use p101_test.Conformance.Fields.{cut_item, list_contains}
use p101_test.Conformance.Fields.Items.{items, items-cut_item, length-cut_item}
use p101_test.Conformance.Lines.{Line, next, bad, settle, macro_present}
use p101_test.Conformance.FaultManifest.{
  add_fault, new_fault, is_available, add_available, while_loaded, add_symbols,
}

-- A symbol is expected if it is unconditional or its macro is defined.
abbrev pub is_expected : (Text → Bool) → Text → Text → Bool
is_expected defined conditional symbol =
    if list_contains conditional symbol then defined symbol else true

-- The faults of the symbols that are expected.
unfoldable pub expected_faults : (Text → Bool) → Text → Text → Text → List Text → List ExpectedFault
expected_faults defined conditional wrapper domain [] = []
expected_faults defined conditional wrapper domain (symbol ∷ symbols) =
    let rest = expected_faults defined conditional wrapper domain symbols in
    if is_expected defined conditional symbol then new_fault wrapper domain symbol ∷ rest else rest

-- Where a fault is added, it is added behind the others.
add_fault-next :
    (w d m : Text) (c c' : Conformance)
    → add_fault w d m c ≡ next c'
    → c' ≡ record c { faults = c.faults ++ new_fault w d m ∷ [] }
unfolding add_fault
add_fault-next w d m c c' h = ground arith

-- The state with more expected faults behind those that it has.
pub with_faults : Conformance → List ExpectedFault → Conformance
with_faults c new = record c { faults = c.faults ++ new }

with_faults-append :
    (c : Conformance) (old new : List ExpectedFault)
    → with_faults (with_faults c old) new ≡ with_faults c (old ++ new)
unfolding with_faults
with_faults-append c old new = rw (append_assoc c.faults old new) refl

with_faults-nil : (c : Conformance) → with_faults c [] ≡ c
unfolding with_faults
with_faults-nil c = rw (append-nil c.faults) refl

-- The fault of a symbol, if it is expected.
abbrev one_fault : Bool → Text → Text → Text → List ExpectedFault
one_fault true w d m = new_fault w d m ∷ []
one_fault false w d m = []

expected_faults-cons :
    (defined : Text → Bool) (conditional w d m : Text) (symbols : List Text)
    → expected_faults defined conditional w d (m ∷ symbols)
      ≡ one_fault (is_expected defined conditional m) w d m
        ++ expected_faults defined conditional w d symbols
unfolding expected_faults
expected_faults-cons defined conditional w d m symbols =
    elim (Bool-cases (is_expected defined conditional m)) [ inl e ↦ rw e refl | inr e ↦ rw e refl ]

module _ (S : System) where
  open S use {World}

  settle-true :
      (line : Line) (c c' : Conformance) (s : State World)
      → (settle S line c s).0 ≡ (true, c')
      → line ≡ next c'
  settle-true (next c'') c c' s h = ap (λ r. next r.1) h
  settle-true (bad failure) c c' s h = absurd (cc)

  add_available-true :
      (w d m : Text) (available : Bool) (c c' : Conformance) (s : State World)
      → (add_available S w d m c available s).0 ≡ (true, c')
      → c' ≡ with_faults c (one_fault available w d m)
  unfolding with_faults
  add_available-true w d m true c c' s h =
      add_fault-next w d m c c' (settle-true (add_fault w d m c) c c' s h)
  add_available-true w d m false c c' s h = sym (ap (λ r. r.1) h) ∙ sym (with_faults-nil c)

  while_loaded-true :
      (again : Conformance → M World (Bool × Conformance)) (r : Bool × Conformance)
      (c' : Conformance) (s : State World)
      → (while_loaded S again r s).0 ≡ (true, c')
      → (r ≡ (true, r.1)) × ((again r.1 s).0 ≡ (true, c'))
  while_loaded-true again (true, c) c' s h = (refl, h)
  while_loaded-true again (false, c) c' s h = absurd (cc)

  module _ (macros : Text) (defined : Text → Bool)
      (reads : (symbol : Text) (s : State World)
        → (macro_present S macros symbol s).0 ≡ defined symbol) where
    is_available-expected :
        (conditional symbol : Text) (s : State World)
        → (is_available S macros conditional symbol s).0 ≡ is_expected defined conditional symbol
    unfolding is_available
    is_available-expected conditional symbol s =
        elim (Bool-cases (list_contains conditional symbol)) [
          | inl e ↦ rw e (reads symbol s)
          | inr e ↦ rw e refl
        ]

    -- Where macro_present tells the defined macros, a row that is loaded to its end adds the platform's
    -- symbols in order, an unconditional one always and a conditional one exactly if its macro is defined,
    -- behind the faults that were there, and changes nothing else.
    pub add_symbols-expected :
        (fuel : ℕ) (conditional w d cursor : Text) (c c' : Conformance) (s : State World)
        → length cursor ≤ fuel
        → (add_symbols S fuel macros conditional w d cursor c s).0 ≡ (true, c')
        → c' ≡ with_faults c (expected_faults defined conditional w d (items cursor))
    unfolding add_symbols items expected_faults
    add_symbols-expected zero conditional w d [] c c' s n h =
        sym (ap (λ r. r.1) h) ∙ sym (with_faults-nil c)
    add_symbols-expected zero conditional w d (b ∷ cursor) c c' s n h = absurd (omega arith)
    add_symbols-expected (suc fuel) conditional w d [] c c' s n h =
        sym (ap (λ r. r.1) h) ∙ sym (with_faults-nil c)
    add_symbols-expected (suc fuel) conditional w d (b ∷ cursor) c c' s n h =
        let item = cut_item (b ∷ cursor) in
        let available = is_available S macros conditional item.0 s in
        let added = add_available S w d item.0 c available.0 available.1 in
        let (first, later) =
          while_loaded-true (add_symbols S fuel macros conditional w d item.1) added.0 c' added.1
            h in
        let one = add_available-true w d item.0 available.0 c added.0.1 available.1 first in
        let ih =
          add_symbols-expected fuel conditional w d item.1 added.0.1 c' added.1
            (omega (arith, length-cut_item b cursor)) later in
        let expected = is_available-expected conditional item.0 s in
        let rest = expected_faults defined conditional w d (items item.1) in
        let now = one_fault (is_expected defined conditional item.0) w d item.0 in
        ih
        ∙ ap (λ x. with_faults x rest)
            (one ∙ ap (λ x. with_faults c (one_fault x w d item.0)) expected)
        ∙ with_faults-append c now rest
        ∙ ap (with_faults c)
            (sym (expected_faults-cons defined conditional w d item.0 (items item.1)))
        ∙ ap (λ l. with_faults c (expected_faults defined conditional w d l))
            (sym (items-cut_item b cursor))
