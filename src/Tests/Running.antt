-- ===== src/Tests/Running.antt =====
-- Running the test command of a mutant (components/mutation) on the small system.
use p101_test.Base.{
  ℕ, ◌≡◌, ◌≢◌, ◌<◌, ◌-◌, ◌++◌, refl, true, false, Text, none, some, List, [], ◌∷◌, length,
  length-append, map, leb, arith,
}
use p101_test.Mutation.Run.{running, Processes, Ran, react, pause, poll}
use p101_test.Mutation.Run.Polling.{TimePasses, poll_total}
use p101_test.Mutation.Status.{outcome_of, status_from}
use p101_test.Mutation.Status.Verdict.{verdict, status_from-verdict}
use p101_test.Tests.{Desk, desk, start}

-- A child that never ends, and a clock that counts the bytes that each sleep writes.
abbrev pub endless : Processes desk
endless = record {
  Time = ℕ;
  Timeout = ℕ;
  is_expired = λ timeout started now. leb timeout (now - started);
  clock_gettime = λ w. (length w.out, none, w);
  posix_spawnp = λ file arguments w. (true, none, w);
  waitpid_nohang = λ w. (running, none, w);
  waitpid = λ w. (tt, none, w);
  kill = λ w. (tt, none, w);
  nanosleep = λ w. (tt, none, record w { out = w.out ++ (1 ∷ []) });
}

abbrev rounds_left : Desk → ℕ
rounds_left w = 3 - length w.out

fewer :
    (out : Text) → leb 3 (length out - 0) ≡ false → 3 - length (out ++ (1 ∷ [])) < 3 - length out
fewer out e = rw (length-append out (1 ∷ [])) (ground arith)

time_passes : TimePasses desk endless 3 0 rounds_left
time_passes = λ w e. fewer w.out e

poll_total_example : (poll desk endless 4 3 0 start).0 ≢ none
poll_total_example = poll_total desk endless 3 0 rounds_left time_passes 4 start (omega arith)

stopped_at_timeout :
    (poll desk endless 4 3 0 start).0 ≡ some (record { result = none; timed_out = true })
unfolding poll react pause
stopped_at_timeout = refl

-- A mutant that is noticed, and one that is not.
abbrev two_runs : List Ran
two_runs =
    record { result = some 1; timed_out = false }
    ∷ record { result = some 0; timed_out = false }
    ∷ []

status_from-verdict_example : status_from 0 (map outcome_of two_runs) ≡ verdict two_runs
status_from-verdict_example = status_from-verdict two_runs
