-- ===== src/Faults/Policy.antt =====
-- src/resource.c: reading a policy summary through a buffer that grows up to a limit.
pub mod Buffer
pub mod Contents
use p101_test.Base.{
  ℕ, zero, suc, ◌-◌, ◌*◌, ◌/◌, Text, codes, Bool, true, false, ◌||◌, Option, none, some, List, [],
  ◌++◌, ltb, ◌==◌, if◌then◌else◌, length, State, M, ◌>>=◌, ◌>>◌, return, call, has_error,
}
use p101_test.System.{System}
use p101_test.Faults.Types.{PolicySummary}
use p101_test.Faults.Library.{FaultLibrary}

abbrev pub policy_initial_capacity : ℕ
policy_initial_capacity = 4096

abbrev pub policy_output_limit : ℕ
policy_output_limit = 64 * 1024 * 1024

-- How the loop ends: without memory, or with what the buffer holds and the buffer's size.
pub data ReadEnd : Type 0 where
  out_of_fuel no_memory : ReadEnd
  filled : Text → ℕ → ReadEnd

unfoldable pub next_capacity : ℕ → ℕ → ℕ
next_capacity limit capacity = if ltb (limit / 2) capacity then limit else capacity * 2

-- As `memset` leaves it.
abbrev pub no_summary : PolicySummary
no_summary = record { parsed = false; records = 0; findings = 0 }

module _ (S : System) where
  open S use {World, Stream, fopen, fclose, fread, allocate}

  -- The loop's body behind the growth; `used` is the length of the contents. `rest` makes the
  -- later rounds.
  unfoldable pub read_chunk : (ℕ → Text → M World ReadEnd) → Stream → ℕ → Text → M World ReadEnd
  read_chunk rest stream capacity contents = do
    chunk ← call (fread (capacity - length contents - 1) stream)
    failed ← has_error
    if failed || length chunk == 0
        then return (filled (contents ++ chunk) capacity)
        else rest capacity (contents ++ chunk)

  unfoldable pub grow_and_read :
      (ℕ → Text → M World ReadEnd) → ℕ → Stream → ℕ → Text → M World ReadEnd
  unfolding read_chunk next_capacity
  grow_and_read rest limit stream capacity contents =
      if length contents == capacity - 1
      then (do
        grown ← call (allocate (next_capacity limit capacity))
        if grown
            then read_chunk rest stream (next_capacity limit capacity) contents
            else return no_memory)
      else read_chunk rest stream capacity contents

  -- The `while` loop on fuel.
  unfoldable pub read_loop : ℕ → ℕ → Stream → ℕ → Text → M World ReadEnd
  unfolding grow_and_read
  read_loop zero limit stream capacity contents = return out_of_fuel
  read_loop (suc fuel) limit stream capacity contents =
      if ltb (length contents) (limit - 1)
      then grow_and_read (read_loop fuel limit stream) limit stream capacity contents
      else return (filled contents capacity)

  module _ (L : FaultLibrary) where
    abbrev pub summary_of : Text → ReadEnd → PolicySummary
    summary_of schema (filled contents capacity) = L.parse_policy_summary contents schema
    summary_of schema no_memory = no_summary
    summary_of schema out_of_fuel = no_summary

    unfoldable pub read_stream : ℕ → Text → Option Stream → M World PolicySummary
    unfolding read_loop
    read_stream limit schema none = return no_summary
    read_stream limit schema (some stream) = do
      made ← call (allocate policy_initial_capacity)
      end ←
          (if made
            then read_loop limit limit stream policy_initial_capacity []
            else return no_memory)
      call (fclose stream)
      return (summary_of schema end)

    -- `p101_error_path_walk_read_policy_json` with its limit.
    unfoldable pub read_policy_json : ℕ → Text → Text → M World PolicySummary
    unfolding read_stream
    read_policy_json limit path schema = do
      stream ← call (fopen path (codes "r"))
      read_stream limit schema stream
