-- ===== src/Contract/Captured/Search.antt =====
-- What the comparisons of components/command-contract/src/main.c decide.
use p101_test.Base.{
  ℕ, zero, suc, ◌+◌, ◌-◌, ◌<◌, ◌≡◌, ◌↔◌, refl, sym, ap, ◌∙◌, Text, true, false, [], ◌∷◌, ◌++◌, leb,
  ◌==◌, inl, inr, Bool-cases, length, length-append, take, drop, take-append-drop,
  take-length_append, text_eq, text_eq_refl, text_eq→eq, arith,
}
use p101_test.Contract.Captured.{captured_equal, search, captured_contains}

-- The text stands in the bytes.
pub record IsInside (text data' : Text) : Type 0 where
  pub before : Text
  pub behind : Text
  pub split : data' ≡ before ++ (text ++ behind)

take_found :
    (text data' : Text)
    → text_eq (take (length text) data') text ≡ true
    → data' ≡ text ++ drop (length text) data'
take_found text data' h =
    sym (take-append-drop (length text) data')
    ∙ ap (λ t. t ++ drop (length text) data') (text_eq→eq _ _ h)

search-IsInside :
    (rounds : ℕ) (data' text : Text) → search rounds data' text ≡ true → IsInside text data'
unfolding search
search-IsInside zero data' text h = ground arith
search-IsInside (suc rounds) data' text h =
    elim (Bool-cases (text_eq (take (length text) data') text)) [
      | inl e ↦ record {
        before = [];
        behind = drop (length text) data';
        split = take_found text data' e;
      }
      | inr e ↦ later data' (search-IsInside rounds (drop 1 data') text (rw e at h))
    ]
  where
    later : (data'' : Text) → IsInside text (drop 1 data'') → IsInside text data''
    later [] i = record { before = i.before; behind = i.behind; split = i.split }
    later (c ∷ data'') i = record {
      before = c ∷ i.before;
      behind = i.behind;
      split = ap (λ t. c ∷ t) i.split;
    }

search-found :
    (rounds : ℕ) (before text behind : Text)
    → length before < rounds
    → search rounds (before ++ (text ++ behind)) text ≡ true
unfolding search
search-found zero before text behind h = absurd (omega arith)
search-found (suc rounds) [] text behind h =
    rw (take-length_append text behind, text_eq_refl text) refl
search-found (suc rounds) (c ∷ before) text behind h =
    elim (Bool-cases (text_eq (take (length text) ((c ∷ before) ++ (text ++ behind))) text)) [
      | inl e ↦ rw e refl
      | inr e ↦ rw e (search-found rounds before text behind (omega arith))
    ]

impossible : (a b c : ℕ) → leb a (b + (a + c)) ≡ false → ⊥
impossible a b c e = ground arith

-- A captured file contains a text exactly when it is the text between some bytes before and behind.
pub captured_contains-IsInside :
    (file text : Text) → (captured_contains file text ≡ true) ↔ IsInside text file
unfolding captured_contains
captured_contains-IsInside file text = (forward, back)
  where
    forward : captured_contains file text ≡ true → IsInside text file
    forward h = elim (Bool-cases (leb (length text) (length file))) [
      | inl e ↦ search-IsInside (suc (length file - length text)) file text (rw e at h)
      | inr e ↦ ground arith
    ]

    back : IsInside text file → captured_contains file text ≡ true
    back i =
        rw (i.split, length-append i.before (text ++ i.behind), length-append text i.behind)
          (elim (Bool-cases
            (leb (length text) (length i.before + (length text + length i.behind)))) [
              | inl e ↦ rw e (
                  search-found
                    (suc (length i.before + (length text + length i.behind) - length text)) i.before
                    text i.behind (omega arith))
              | inr e ↦ absurd (impossible (length text) (length i.before) (length i.behind) e)
            ])

-- Two captured files are taken for equal exactly when they are.
pub captured_equal_iff : (left right : Text) → (captured_equal left right ≡ true) ↔ (left ≡ right)
unfolding captured_equal
captured_equal_iff [] [] = (λ e. refl, λ e. refl)
captured_equal_iff [] (b ∷ right) = (λ e. ground arith, λ e. ground arith)
captured_equal_iff (a ∷ left) right =
    (forward, λ e. rw (← e) (rw (text_eq_refl (a ∷ left)) (ground arith)))
  where
    forward : captured_equal (a ∷ left) right ≡ true → a ∷ left ≡ right
    forward h = elim (Bool-cases (length (a ∷ left) == length right)) [
      | inl e ↦ text_eq→eq _ _ (ground arith)
      | inr e ↦ ground arith
    ]
