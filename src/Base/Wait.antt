-- ===== src/Base/Wait.antt =====
-- The macros of `<sys/wait.h>` over a wait status, which is read as its unsigned bit pattern.
use Prim.Native.Nat.{ℕ, ◌/◌, ◌%◌}
use mathlib.Core.Bool.{Bool, not, ◌&&◌}
use p101_test.Base.Tests.{◌==◌}

abbrev pub term_signal : ℕ → ℕ
term_signal status = status % 128

abbrev pub exit_status : ℕ → ℕ
exit_status status = status / 256 % 256

abbrev pub exited : ℕ → Bool
exited status = term_signal status == 0

-- Neither exited nor stopped.
abbrev pub signaled : ℕ → Bool
signaled status = not (exited status) && not (term_signal status == 127)
