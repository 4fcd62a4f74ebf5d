-- ===== src/Repository/Paths/Order.antt =====
-- The order of the paths in components/repository-receipt/src/main.c.
use mathlib.Core.List.{Perm, perm_middle, append-nil}
use mathlib.Core.List.Perm
use p101_test.Base.{
  ◌≡◌, refl, inl, inr, subst, Text, true, false, List, [], ◌∷◌, ◌++◌, All, Bool-cases, arith,
}
use p101_test.Repository.Paths.{text_le, insert_path, sort_from, pour, sort_paths}

text_le_total : (a b : Text) → text_le a b ≡ false → text_le b a ≡ true
unfolding text_le
text_le_total [] bs h = absurd (cc)
text_le_total (a ∷ as') [] h = refl
text_le_total (a ∷ as') (b ∷ bs) h = ground (arith, text_le_total as' bs)

text_le_trans : (a b c : Text) → text_le a b ≡ true → text_le b c ≡ true → text_le a c ≡ true
unfolding text_le
text_le_trans [] b c h h' = refl
text_le_trans (x ∷ a) [] c h h' = absurd (cc)
text_le_trans (x ∷ a) (y ∷ b) [] h h' = absurd (cc)
text_le_trans (x ∷ a) (y ∷ b) (z ∷ c) h h' = ground (arith, text_le_trans a b c)

-- Each text is not greater than those behind it.
abbrev pub IsSorted : List Text → Type 0
IsSorted [] = Unit {0}
IsSorted (x ∷ xs) = All (λ y. text_le x y ≡ true) xs × IsSorted xs

-- Each text is not less than those behind it.
abbrev IsFalling : List Text → Type 0
IsFalling [] = Unit {0}
IsFalling (x ∷ xs) = All (λ y. text_le y x ≡ true) xs × IsFalling xs

All-map : {P Q : Text → Type 0} → ((x : Text) → P x → Q x) → (xs : List Text) → All P xs → All Q xs
All-map f [] h = tt
All-map f (x ∷ xs) (h, hs) = (f x h, All-map f xs hs)

All-insert_path :
    (P : Text → Type 0) (t : Text) (xs : List Text) → P t → All P xs → All P (insert_path t xs)
unfolding insert_path
All-insert_path P t [] p h = (p, tt)
All-insert_path P t (x ∷ xs) p (h, hs) = elim (Bool-cases (text_le x t)) [
  | inl e ↦ rw e (p, (h, hs))
  | inr e ↦ rw e (h, All-insert_path P t xs p hs)
]

insert_path-IsFalling : (t : Text) (xs : List Text) → IsFalling xs → IsFalling (insert_path t xs)
unfolding insert_path
insert_path-IsFalling t [] h = (tt, tt)
insert_path-IsFalling t (x ∷ xs) (h, hs) = elim (Bool-cases (text_le x t)) [
  | inl e ↦ rw e ((e, All-map (λ y below. text_le_trans y x t below e) xs h), (h, hs))
  | inr e ↦ rw e (All-insert_path _ t xs (text_le_total x t e) h, insert_path-IsFalling t xs hs)
]

insert_path-Perm : (t : Text) (xs : List Text) → Perm (t ∷ xs) (insert_path t xs)
unfolding insert_path
insert_path-Perm t [] = Perm.refl _
insert_path-Perm t (x ∷ xs) = elim (Bool-cases (text_le x t)) [
  | inl e ↦ rw e (Perm.refl _)
  | inr e ↦ rw e (Perm.trans (perm_middle (t ∷ []) xs) (Perm.cons x (insert_path-Perm t xs)))
]

sort_from-IsFalling :
    (before paths : List Text) → IsFalling before → IsFalling (sort_from before paths)
unfolding sort_from
sort_from-IsFalling before [] h = h
sort_from-IsFalling before (path ∷ paths) h =
    sort_from-IsFalling (insert_path path before) paths (insert_path-IsFalling path before h)

sort_from-Perm : (before paths : List Text) → Perm (paths ++ before) (sort_from before paths)
unfolding sort_from
sort_from-Perm before [] = Perm.refl _
sort_from-Perm before (path ∷ paths) = Perm.trans (Perm.symm (perm_middle paths before)) (
    Perm.trans (Perm.append_left paths (insert_path-Perm path before))
      (sort_from-Perm (insert_path path before) paths))

abbrev Below : List Text → Text → Type 0
Below paths x = All (λ y. text_le x y ≡ true) paths

All-both : (P Q : Text → Type 0) (xs : List Text) → All P xs → All Q xs → All (λ x. P x × Q x) xs
All-both P Q [] h h' = tt
All-both P Q (x ∷ xs) (h, hs) (h', hs') = ((h, h'), All-both P Q xs hs hs')

pour-IsSorted :
    (before paths : List Text)
    → IsFalling before
    → IsSorted paths
    → All (Below paths) before
    → IsSorted (pour before paths)
unfolding pour
pour-IsSorted [] paths falling sorted below = sorted
pour-IsSorted (x ∷ before) paths (falls, falling) sorted (below, belows) =
    pour-IsSorted before (x ∷ paths) falling (below, sorted) (All-both _ _ before falls belows)

pour-Perm : (before paths : List Text) → Perm (before ++ paths) (pour before paths)
unfolding pour
pour-Perm [] paths = Perm.refl _
pour-Perm (x ∷ before) paths =
    Perm.trans (Perm.symm (perm_middle before paths)) (pour-Perm before (x ∷ paths))

All-nil : (xs : List Text) → All (Below []) xs
All-nil [] = tt
All-nil (x ∷ xs) = (tt, All-nil xs)

-- The sorted paths are the paths in some order, and each is not greater, as `strcmp` compares, than those
-- behind it.
pub sort_paths-IsSorted :
    (paths : List Text) → IsSorted (sort_paths paths) × Perm paths (sort_paths paths)
unfolding sort_paths
sort_paths-IsSorted paths =
    let falling = sort_from [] paths in
    (
      pour-IsSorted falling [] (sort_from-IsFalling [] paths tt) tt (All-nil falling),
      Perm.trans (subst (λ xs. Perm xs falling) (append-nil paths) (sort_from-Perm [] paths))
          (subst (λ xs. Perm xs (pour falling [])) (append-nil falling) (pour-Perm falling [])),
    )
