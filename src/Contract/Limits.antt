-- ===== src/Contract/Limits.antt =====
-- components/command-contract/src/main.c: the tests of the limits on output and time.
pub mod Exact
use p101_test.Base.{
  ℕ, ◌+◌, ◌-◌, ◌*◌, ◌/◌, ◌%◌, Text, Bool, true, false, not, ◌&&◌, ◌||◌, ltb, ◌==◌, if◌then◌else◌,
  length, size_mod, size_add, exited, exit_status,
}
use p101_test.Contract.Types.{Timespec}

-- `total < first.standard_output.size || total > maximum_size`
unfoldable pub output_exceeded : ℕ → ℕ → ℕ → Bool
output_exceeded output_size error_size maximum =
    let total = size_add output_size error_size in ltb total output_size || ltb maximum total

abbrev pub second : ℕ
second = 1000000000

-- Whether a second is borrowed for the nanoseconds: `elapsed_seconds--`.
unfoldable pub borrow : Timespec → Timespec → ℕ
borrow started finished = if ltb finished.nanoseconds started.nanoseconds then 1 else 0

-- The seconds are the difference with the borrowed one; below zero the limit is exceeded.
unfoldable pub time_exceeded : Timespec → Timespec → ℕ → Bool
unfolding borrow
time_exceeded started finished maximum =
    let due = started.seconds + borrow started finished in
    let elapsed_seconds = finished.seconds - due in
    let elapsed_nanoseconds =
      finished.nanoseconds + second * borrow started finished - started.nanoseconds in
    let maximum_seconds = maximum / 1000 in
    let maximum_nanoseconds = maximum % 1000 * 1000000 in
    if ltb finished.seconds due
    then true
    else if ltb maximum_seconds elapsed_seconds
    then true
    else (elapsed_seconds == maximum_seconds) && ltb maximum_nanoseconds elapsed_nanoseconds

-- The child did not exit with the expected status.
unfoldable pub status_differs : ℕ → ℕ → Bool
status_differs status expected = not (exited status) || not (exit_status status == expected)
