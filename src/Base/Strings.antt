-- ===== src/Base/Strings.antt =====
-- C strings as lists of bytes without the final NUL, and the comparisons of `<string.h>`.
use Prim.Native.Nat.{ℕ}
use Prim.Native.Char.{code}
use Prim.Native.String.{String}
use mathlib.Core.Path.{◌≡◌, refl}
use mathlib.Core.Logic.{◌↔◌}
use mathlib.Core.Bool.{Bool, true, false, ◌&&◌}
use mathlib.Core.List.{List, [], ◌∷◌, ◌++◌}
use native.Mathlib.Omega.{arith}
use p101_test.Base.Tests.{◌==◌}
use p101_test.Base.Lists.{length, drop}

abbrev pub Text : Type 0
Text = List ℕ

-- The bytes of an ASCII literal.
abbrev pub codes : String → Text
codes String.[] = []
codes (String.◌∷◌ c s) = code c ∷ codes s

-- `strcmp(a, b) == 0`; also `memcmp` of two ranges of one length.
unfoldable pub text_eq : Text → Text → Bool
text_eq [] [] = true
text_eq [] (b ∷ bs) = false
text_eq (a ∷ as') [] = false
text_eq (a ∷ as') (b ∷ bs) = (a == b) && text_eq as' bs

-- `strncmp(a, p, strlen(p)) == 0`
unfoldable pub has_prefix : Text → Text → Bool
has_prefix a [] = true
has_prefix [] (p ∷ ps) = false
has_prefix (a ∷ as') (p ∷ ps) = (a == p) && has_prefix as' ps

pub text_eq_refl : (a : Text) → text_eq a a ≡ true
unfolding text_eq
text_eq_refl [] = refl
text_eq_refl (a ∷ as') = ground (arith, text_eq_refl as')

pub text_eq→eq : (a b : Text) → text_eq a b ≡ true → a ≡ b
unfolding text_eq
text_eq→eq [] [] h = refl
text_eq→eq [] (b ∷ bs) h = cc
text_eq→eq (a ∷ as') [] h = cc
text_eq→eq (a ∷ as') (b ∷ bs) h = ground (arith, text_eq→eq as' bs)

pub text_eq_iff : (a b : Text) → (text_eq a b ≡ true) ↔ (a ≡ b)
text_eq_iff a b = (text_eq→eq a b, λ e. rw e (text_eq_refl b))

pub has_prefix-append : (p s : Text) → has_prefix (p ++ s) p ≡ true
unfolding has_prefix
has_prefix-append [] s = refl
has_prefix-append (a ∷ p) s = ground (arith, has_prefix-append p s)

-- A text with a prefix is the prefix followed by what is left behind it.
pub has_prefix→append : (a p : Text) → has_prefix a p ≡ true → a ≡ p ++ drop (length p) a
unfolding has_prefix
has_prefix→append a [] h = refl
has_prefix→append [] (p ∷ ps) h = cc
has_prefix→append (a ∷ as') (p ∷ ps) h = ground (arith, has_prefix→append as' ps)
