-- ===== src/Conformance/Table/Laws.antt =====
-- The lookups of components/conformance/src/main.c, and the changes through what they find.
use p101_test.Base.{
  ◌≡◌, refl, inl, inr, Bool, true, some, List, [], ◌∷◌, length, All, Bool-cases, arith,
}
use p101_test.Conformance.Table.{find_first, update_first}

module _ {A : Type 0} (test : A → Bool) where
  pub length-update_first :
      (change : A → A) (xs : List A) → length (update_first test change xs) ≡ length xs
  unfolding update_first
  length-update_first change [] = refl
  length-update_first change (x ∷ xs) = ground (arith, length-update_first change xs)

  -- What the change keeps of a row holds of all rows afterwards.
  pub All-update_first {κ} :
      (P : A → Type κ) (change : A → A) (xs : List A)
      → ((x : A) → P x → P (change x))
      → All P xs
      → All P (update_first test change xs)
  unfolding update_first
  All-update_first P change [] keep h = h
  All-update_first P change (x ∷ xs) keep h = elim (Bool-cases (test x)) [
    | inl e ↦ rw e (keep x h.0, h.1)
    | inr e ↦ rw e (h.0, All-update_first P change xs keep h.1)
  ]

  -- The row that is found passes the test.
  pub find_first-test : (xs : List A) (x : A) → find_first test xs ≡ some x → test x ≡ true
  unfolding find_first
  find_first-test [] x h = cc
  find_first-test (y ∷ xs) x h = ground (arith, find_first-test xs x)
