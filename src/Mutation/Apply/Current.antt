-- ===== src/Mutation/Apply/Current.antt =====
-- What `p101_mutation_apply_candidate` of components/mutation/src/files.c tests before it writes.
use native.Mathlib.Numerals.{unary_clauses}
use p101_test.Base.{
  ℕ, zero, suc, ◌+◌, ◌-◌, ◌≤◌, ◌≡◌, refl, sym, ap, ◌∙◌, Text, Bool, true, ◌&&◌, [], ◌∷◌, ◌++◌, leb,
  leb→le, length, take, drop, take-append-drop, text_eq→eq, arith,
}
use p101_test.Mutation.Types.{Candidate}
use p101_test.Mutation.Apply.{text_of, range, is_current}

zero_add : (m : ℕ) → m ≡ 0 + m
zero_add m = omega arith

suc_add : (n m : ℕ) → suc (n + m) ≡ suc n + m
suc_add n m = omega arith

drop-drop : (n m : ℕ) (xs : Text) → drop m (drop n xs) ≡ drop (n + m) xs
drop-drop zero m xs = ap (λ k. drop k xs) (zero_add m)
drop-drop (suc n) zero [] = simp unary_clauses refl
drop-drop (suc n) (suc m) [] = simp unary_clauses refl
drop-drop (suc n) m (x ∷ xs) = drop-drop n m xs ∙ ap (λ k. drop k (x ∷ xs)) (suc_add n m)

range_end : (start end : ℕ) → leb start end ≡ true → end ≡ start + (end - start)
range_end start end ordered = ground arith

abbrev pub splice : Candidate → Text → Text → Text
splice candidate middle contents =
    take candidate.start contents ++ (middle ++ drop candidate.end contents)

four :
    (a b c d : Bool) → (a && b && c && d) ≡ true → (a ≡ true) × (b ≡ true) × (c ≡ true) × (d ≡ true)
four a b c d h = ground arith

-- A source is current when the candidate's range lies in it and holds the text to replace.
pub is_current-splice :
    (candidate : Candidate) (contents : Text)
    → is_current candidate contents ≡ true
    → (candidate.end ≤ length contents)
      × (contents ≡ splice candidate (text_of candidate.original) contents)
unfolding is_current
is_current-splice candidate contents h =
    let (inside, ordered, size, same) = four (leb candidate.end (length contents)) _ _ _ h in
    (
      leb→le _ _ inside,
      sym (
          ap (λ t. take candidate.start contents ++ (t ++ drop candidate.end contents))
            (sym (text_eq→eq _ _ same))
          ∙ ap (λ t. take candidate.start contents ++ t) (middle ordered)
          ∙ take-append-drop candidate.start contents),
    )
  where
    middle :
        leb candidate.start candidate.end ≡ true
        → range candidate.start candidate.end contents ++ drop candidate.end contents
          ≡ drop candidate.start contents
    middle ordered =
        ap (λ t. range candidate.start candidate.end contents ++ t)
          (ap (λ n. drop n contents) (range_end candidate.start candidate.end ordered)
            ∙ sym (drop-drop candidate.start (candidate.end - candidate.start) contents))
        ∙ take-append-drop (candidate.end - candidate.start) (drop candidate.start contents)
