-- ===== src/Mutation/Run.antt =====
-- components/mutation/src/execution.c: `p101_mutation_run_command`, which runs a command up to a timeout.
pub mod Polling
use p101_test.Base.{
  ℕ, zero, suc, ◌+◌, Text, codes, Bool, true, false, not, Option, none, some, List, [], ◌∷◌, ◌++◌,
  map, if◌then◌else◌, length, exited, exit_status, signaled, term_signal, Failure, State, M, Call,
  ◌>>=◌, ◌>>◌, return, call, call_optional, has_error,
}
use p101_test.System.{System}
use p101_test.Mutation.Candidates.{copy_text}

-- `p101_waitpid` with WNOHANG: the child with its status, the child still runs, or a failure.
pub data Waited : Type 0 where
  reaped : ℕ → Waited
  running lost : Waited

-- Processes and clocks. `is_expired` is `elapsed >= timeout` in the arithmetic of `double`, on the start
-- and a later reading.
pub record Processes (S : System) : Type 1 where
  pub Time : Type 0
  pub Timeout : Type 0
  pub is_expired : Timeout → Time → Time → Bool
  pub clock_gettime : Call S.World Time
  -- Whether `p101_posix_spawnp` returned 0, on a file and an argument vector.
  pub posix_spawnp : Option Text → List (Option Text) → Call S.World Bool
  pub waitpid_nohang : Call S.World Waited
  pub waitpid : Call S.World (Unit {0})
  pub kill : Call S.World (Unit {0})
  pub nanosleep : Call S.World (Unit {0})

abbrev pub process_signal_base : ℕ
process_signal_base = 128

-- The result and `*timed_out`; no result stands for -1.
pub record Ran : Type 0 where
  pub result : Option ℕ
  pub timed_out : Bool

abbrev pub no_result : Ran
no_result = record { result = none; timed_out = false }

-- WEXITSTATUS, or 128 and the signal.
unfoldable pub result_of : ℕ → Option ℕ
result_of status =
    if exited status
    then some (exit_status status)
    else if signaled status
    then some (process_signal_base + term_signal status)
    else none

abbrev pub spawn_prefix : List Text
spawn_prefix =
    codes "sh" ∷ codes "-c" ∷ codes "cd \"$1\" && shift && exec \"$@\"" ∷ codes "test-mutation" ∷ []

abbrev pub first_word : List Text → Option Text
first_word [] = none
first_word (word ∷ words) = some word

module _ (S : System) (P : Processes S) where
  open S use {World, allocate}

  -- The loop over the prefix. Where it breaks, the vector is dropped by `spawn_arguments`.
  copy_words : List Text → M World (List (Option Text))
  copy_words [] = return []
  copy_words (word ∷ words) = do
    failed ← has_error
    let rest = copy_words words
    if failed
        then return []
        else do copied ← copy_text S word; others ← rest; return (copied ∷ others)

  fill_arguments : List Text → Text → Bool → M World (Option (List (Option Text)))
  unfolding copy_words
  fill_arguments command directory false = return none
  fill_arguments command directory true = do
    prefix ← copy_words spawn_prefix
    copied ← copy_text S directory
    failed ← has_error
    return (if failed then none else some (prefix ++ (copied ∷ map some command)))

  unfoldable pub spawn_arguments : List Text → Text → M World (Option (List (Option Text)))
  unfolding fill_arguments
  spawn_arguments command directory = do
    made ← call (allocate (length command + 6))
    fill_arguments command directory made

  -- Behind the test of the time: the child is killed, or the loop sleeps and goes on.
  unfoldable pub pause : M World (Option Ran) → Bool → M World (Option Ran)
  pause rest true = do
    call_optional P.kill
    call_optional P.waitpid
    return (some (record { result = none; timed_out = true }))
  pause rest false = do call_optional P.nanosleep; rest

  unfoldable pub react : M World (Option Ran) → P.Timeout → P.Time → Waited → M World (Option Ran)
  unfolding pause
  react rest timeout started (reaped status) =
      return (some (record { result = result_of status; timed_out = false }))
  react rest timeout started lost = return (some no_result)
  react rest timeout started running = do
    failed ← has_error
    if failed
        then return (some no_result)
        else do now ← call P.clock_gettime; pause rest (P.is_expired timeout started now)

  -- The loop on fuel; `none` means that the fuel ran out.
  unfoldable pub poll : ℕ → P.Timeout → P.Time → M World (Option Ran)
  unfolding react
  poll zero timeout started = return none
  poll (suc fuel) timeout started = do
    waited ← call P.waitpid_nohang
    react (poll fuel timeout started) timeout started waited

  spawned : ℕ → P.Timeout → Bool → M World (Option Ran)
  unfolding poll
  spawned fuel timeout false = return (some no_result)
  spawned fuel timeout true = do started ← call P.clock_gettime; poll fuel timeout started

  spawn : ℕ → P.Timeout → Option Text → Option (List (Option Text)) → M World (Option Ran)
  unfolding spawned
  spawn fuel timeout file none = return (some no_result)
  spawn fuel timeout file (some arguments) = do
    failed ← has_error
    if failed
        then return (some no_result)
        else do ok ← call (P.posix_spawnp file arguments); spawned fuel timeout ok

  unfoldable pub run_command : ℕ → List Text → Option Text → P.Timeout → M World (Option Ran)
  unfolding spawn spawn_arguments
  run_command fuel command none timeout =
      spawn fuel timeout (first_word command) (some (map some command))
  run_command fuel command (some directory) timeout = do
    arguments ← spawn_arguments command directory
    spawn fuel timeout (some (codes "sh")) arguments
