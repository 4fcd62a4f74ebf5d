-- ===== src/Contract/Limits/Exact.antt =====
-- The limits of components/command-contract/src/main.c, against sums that do not wrap.
use p101_test.Base.{ℕ, ◌+◌, ◌*◌, ◌≤◌, ◌<◌, ◌≡◌, ◌↔◌, true, size_mod, size_add, arith}
use p101_test.Contract.Types.{Timespec}
use p101_test.Contract.Limits.{output_exceeded, second, borrow, time_exceeded}

-- For sizes and a maximum that fit `size_t`, the output exceeds its limit exactly when the sum of the two
-- sizes is above the maximum, also where this sum wraps.
pub output_exceeded_iff :
    (output_size error_size maximum : ℕ)
    → output_size < size_mod
    → error_size < size_mod
    → maximum < size_mod
    → (output_exceeded output_size error_size maximum ≡ true) ↔ (maximum < output_size + error_size)
unfolding output_exceeded size_add
output_exceeded_iff output_size error_size maximum h h' h'' = ground arith

abbrev pub total : Timespec → ℕ
total t = second * t.seconds + t.nanoseconds

-- For two readings of the clock with the first not behind the second, and nanoseconds below a second, the
-- time exceeds its limit exactly when more nanoseconds have passed than the milliseconds allowed.
pub time_exceeded_iff :
    (started finished : Timespec) (maximum : ℕ)
    → started.nanoseconds < second
    → finished.nanoseconds < second
    → total started ≤ total finished
    → (time_exceeded started finished maximum ≡ true)
      ↔ (total started + 1000000 * maximum < total finished)
unfolding time_exceeded borrow
time_exceeded_iff started finished maximum h h' later = ground arith
