-- ===== src/Base/Effects.antt =====
-- Calls into the libraries with their error object: a state-passing monad over an unknown world.
use Prim.Native.Nat.{ℕ}
use mathlib.Core.Bool.{Bool, true, false}
use mathlib.Core.Option.{Option, none, some}
use mathlib.Core.List.{List, [], ◌∷◌}
use p101_test.Base.Strings.{Text}

-- What an error object can be given: a user error with its code, or an errno.
pub data Failure : Type 0 where
  user : Text → ℕ → Failure
  errno : ℕ → Failure

-- The error object is the list of what was raised since it was created or reset, newest first.
-- Which of these the library reports when there are several is the library's.
pub record State (W : Type 0) : Type 0 where
  pub raised : List Failure
  pub world : W

abbrev pub M : Type 0 → Type 0 → Type 0
M W A = State W → A × State W

infixl 5 ◌>>=◌ ◌>>◌
abbrev pub ◌>>=◌ : {W A B : Type 0} → M W A → (A → M W B) → M W B
◌>>=◌ m f s = let r = m s in f r.0 r.1

abbrev pub ◌>>◌ : {W A B : Type 0} → M W A → M W B → M W B
◌>>◌ m k s = k (m s).1

abbrev pub return : {W A : Type 0} → A → M W A
return a s = (a, s)

-- A library call: its result, what it raises, and the world that it leaves.
abbrev pub Call : Type 0 → Type 0 → Type 0
Call W A = W → A × Option Failure × W

abbrev pub add_raised : Option Failure → List Failure → List Failure
add_raised none fs = fs
add_raised (some f) fs = f ∷ fs

-- A call that is handed the error object.
abbrev pub call : {W A : Type 0} → Call W A → M W A
call c s = let r = c s.world in (r.0, record { raised = add_raised r.1 s.raised; world = r.2 })

-- A call that is handed `P101_ERROR_OPTIONAL`: what it raises is dropped.
abbrev pub call_optional : {W A : Type 0} → Call W A → M W A
call_optional c s = let r = c s.world in (r.0, record s { world = r.2 })

abbrev pub raise : {W : Type 0} → Failure → M W (Unit {0})
raise f s = (tt, record s { raised = f ∷ s.raised })

abbrev pub has_failures : List Failure → Bool
has_failures [] = false
has_failures (f ∷ fs) = true

-- `p101_error_has_error`
abbrev pub has_error : {W : Type 0} → M W Bool
has_error s = (has_failures s.raised, s)
