-- ===== src/Base/Words.antt =====
-- `size_t` arithmetic, and numbers printed by `%u` and `%zu`.
use Prim.Native.Nat.{ℕ, zero, suc, ◌+◌, ◌/◌, ◌%◌, ◌^◌, ◌<◌}
use mathlib.Core.Path.{◌≡◌}
use mathlib.Core.List.{[], ◌∷◌}
use native.Mathlib.Omega.{arith}
use p101_test.Base.Tests.{ltb, if◌then◌else◌}
use p101_test.Base.Strings.{Text}

-- 2 ^ 64, the number of values of `size_t` on a 64-bit target.
abbrev pub size_mod : ℕ
size_mod = 2 ^ 64

unfoldable pub size_add : ℕ → ℕ → ℕ
size_add a b = (a + b) % size_mod

pub size_add_comm : (a b : ℕ) → size_add a b ≡ size_add b a
unfolding size_add
size_add_comm a b = omega arith

pub size_add_assoc : (a b c : ℕ) → size_add (size_add a b) c ≡ size_add a (size_add b c)
unfolding size_add
size_add_assoc a b c = omega arith

pub size_add-lt : (a b : ℕ) → size_add a b < size_mod
unfolding size_add
size_add-lt a b = omega arith

pub size_add-eq-add : (a b : ℕ) → a + b < size_mod → size_add a b ≡ a + b
unfolding size_add
size_add-eq-add a b h = omega arith

-- The decimal digits of a number, on fuel; a number is below 10 to the power of itself plus one.
decimal_digits : ℕ → ℕ → Text → Text
decimal_digits zero n digits = digits
decimal_digits (suc fuel) n digits =
    let rest = decimal_digits fuel (n / 10) ((b'0' + n % 10) ∷ digits) in
    if ltb n 10 then (b'0' + n) ∷ digits else rest

unfoldable pub decimal : ℕ → Text
unfolding decimal_digits
decimal n = decimal_digits (suc n) n []

pub size_add_zero : (a : ℕ) → a < size_mod → size_add a 0 ≡ a
unfolding size_add
size_add_zero a h = omega arith

pub size_add-zero_add : (a b : ℕ) → size_add (size_add 0 a) b ≡ size_add a b
unfolding size_add
size_add-zero_add a b = omega arith
