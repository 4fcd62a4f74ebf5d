-- ===== src/Conformance/Fields/Items.antt =====
-- The items of a list with commas, and the loops over them in components/conformance/src/main.c.
use mathlib.Core.List.{Mem, mem-cons, not-mem-nil}
use mathlib.Core.Logic.Or
use p101_test.Base.{
  ℕ, zero, suc, ◌≤◌, ◌≡◌, ◌↔◌, refl, sym, inl, inr, Text, Bool, true, false, ◌&&◌, ◌||◌, List, [],
  ◌∷◌, ◌==◌, if◌then◌else◌, length, has_prefix, text_eq, text_eq→eq, text_eq_refl, Bool-cases,
  arith,
}
use p101_test.Conformance.Fields.{cut_item, contains_from, list_contains}

abbrev pub prepend : ℕ → List Text → List Text
prepend c [] = (c ∷ []) ∷ []
prepend c (item ∷ items) = (c ∷ item) ∷ items

-- The items, of which the last is left out where it is empty.
unfoldable pub items : Text → List Text
items [] = []
items (c ∷ list) = let rest = items list in if c == b',' then [] ∷ rest else prepend c rest

-- Each round of the loops takes the first item.
pub items-cut_item :
    (c : ℕ) (list : Text)
    → items (c ∷ list) ≡ (cut_item (c ∷ list)).0 ∷ items (cut_item (c ∷ list)).1
unfolding items cut_item
items-cut_item c [] = ground arith
items-cut_item c (b ∷ list) = ground (arith, items-cut_item b list)

pub length-cut_item : (c : ℕ) (list : Text) → length (cut_item (c ∷ list)).1 ≤ length list
unfolding cut_item
length-cut_item c [] = ground arith
length-cut_item c (b ∷ list) = ground (arith, length-cut_item b list)

-- The comparison of the loop is the equality of the item with the value.
same_item :
    (list value : Text)
    → (length (cut_item list).0 == length value && has_prefix list value)
      ≡ text_eq (cut_item list).0 value
unfolding cut_item has_prefix text_eq
same_item [] [] = refl
same_item [] (v ∷ value) = ground arith
same_item (c ∷ list) [] = ground arith
same_item (c ∷ list) (v ∷ value) = ground (arith, same_item list value)

abbrev has_item : Text → List Text → Bool
has_item value [] = false
has_item value (item ∷ rest) = text_eq item value || has_item value rest

contains_from-items :
    (fuel : ℕ) (list value : Text)
    → length list ≤ fuel
    → contains_from fuel list value ≡ has_item value (items list)
unfolding contains_from items
contains_from-items zero [] value h = refl
contains_from-items zero (c ∷ list) value h = absurd (omega arith)
contains_from-items (suc fuel) [] value h = refl
contains_from-items (suc fuel) (c ∷ list) value h =
    rw (items-cut_item c list, same_item (c ∷ list) value)
      (ground
        (arith, length-cut_item c list, contains_from-items fuel (cut_item (c ∷ list)).1 value))

has_item-Mem : (value : Text) (l : List Text) → (has_item value l ≡ true) ↔ Mem value l
has_item-Mem value [] = (λ h. absurd (cc), λ m. absurd (not-mem-nil m))
has_item-Mem value (item ∷ rest) = elim (Bool-cases (text_eq item value)) [
  | inl e ↦ (λ h. mem-cons.1 (Or.inl (sym (text_eq→eq item value e))), λ m. rw e refl)
  | inr e ↦
      let ih = has_item-Mem value rest in
      rw e (
        λ h. mem-cons.1 (Or.inr (ih.0 h)),
        λ m. Or.elim (hlevel) (mem-cons.0 m) (λ same. absurd (different e same)) ih.1,
      )
]
  where
    different : text_eq item value ≡ false → value ≡ item → ⊥
    different e same = let t : text_eq item value ≡ true = rw same (text_eq_refl item) in cc

-- A value is found in a list with commas exactly when it is one of the items that the loop over the
-- symbols of a row goes through.
pub list_contains-Mem :
    (list value : Text) → (list_contains list value ≡ true) ↔ Mem value (items list)
unfolding list_contains
list_contains-Mem list value =
    rw (contains_from-items (length list) list value (omega arith))
      (has_item-Mem value (items list))
