-- ===== src/Faults/Policy/Buffer.antt =====
-- The growing buffer of src/resource.c: its bounds and its loop.
use p101_test.Base.{
  ℕ, zero, suc, ◌+◌, ◌-◌, ◌<◌, ◌≤◌, Text, ◌||◌, ◌++◌, ltb, ◌==◌, length, length-append, State, M,
  has_failures, arith, Bool-cases, inl, inr, add_raised,
}
use p101_test.System.{System}
use p101_test.Faults.Policy.{
  ReadEnd, out_of_fuel, no_memory, filled, next_capacity, read_chunk, grow_and_read, read_loop,
}

-- The loop's invariant: what is read and its final NUL fit the buffer, and the buffer the limit.
pub record Fits (limit capacity : ℕ) (contents : Text) : Type 0 where
  pub room : length contents < capacity
  pub capped : capacity ≤ limit

-- A growth is strict, and stays below the limit.
pub next_capacity-bounds :
    (limit capacity : ℕ)
    → 0 < capacity
    → capacity < limit
    → (capacity < next_capacity limit capacity) × (next_capacity limit capacity ≤ limit)
unfolding next_capacity
next_capacity-bounds limit capacity h k = ground arith

module _ (S : System) where
  open S use {World, Stream, fread, allocate}

  -- `fread` gives at most what it is asked for.
  abbrev pub ReadsAtMost : Type 0
  ReadsAtMost = (n : ℕ) (stream : Stream) (w : World) → length (fread n stream w).0 ≤ n

  abbrev pub EndFits : ℕ → ReadEnd → Type 0
  EndFits limit out_of_fuel = ⊥
  EndFits limit no_memory = Unit
  EndFits limit (filled contents capacity) = Fits limit capacity contents

  read_chunk-EndFits :
      ReadsAtMost
      → (rest : ℕ → Text → M World ReadEnd) (limit : ℕ) (stream : Stream) (capacity : ℕ)
        (contents : Text) (s : State World)
      → length contents + 1 < capacity
      → capacity ≤ limit
      → ((chunk : Text) (t : State World)
          → 0 < length chunk
          → Fits limit capacity (contents ++ chunk)
          → EndFits limit (rest capacity (contents ++ chunk) t).0)
      → EndFits limit (read_chunk S rest stream capacity contents s).0
  unfolding read_chunk
  read_chunk-EndFits most rest limit stream capacity contents s h k later =
      let n = capacity - length contents - 1 in
      let chunk = (fread n stream s.world).0 in
      let fits : Fits limit capacity (contents ++ chunk) =
        omega (arith, length-append contents chunk, most n stream s.world) in
      elim (Bool-cases
        (has_failures (add_raised (fread n stream s.world).1 s.raised) || length chunk == 0)) [
          | inl e ↦ rw e fits
          | inr e ↦ rw e (later chunk _ (ground arith) fits)
        ]

  grow_and_read-EndFits :
      ReadsAtMost
      → (rest : ℕ → Text → M World ReadEnd) (limit : ℕ) (stream : Stream) (capacity : ℕ)
        (contents : Text) (s : State World)
      → Fits limit capacity contents
      → length contents < limit - 1
      → ((capacity : ℕ) (chunk : Text) (t : State World)
          → 0 < length chunk
          → Fits limit capacity (contents ++ chunk)
          → EndFits limit (rest capacity (contents ++ chunk) t).0)
      → EndFits limit (grow_and_read S rest limit stream capacity contents s).0
  unfolding grow_and_read
  grow_and_read-EndFits most rest limit stream capacity contents s fits below later =
      elim (Bool-cases (length contents == capacity - 1)) [
        | inl full ↦ rw full (
            let (grows, capped) =
              next_capacity-bounds limit capacity (omega arith) (ground arith) in
            elim (Bool-cases (allocate (next_capacity limit capacity) s.world).0) [
              | inl made ↦ rw made (
                  read_chunk-EndFits most rest limit stream (next_capacity limit capacity) contents
                    _ (ground arith) capped (later _))
              | inr made ↦ rw made tt
            ])
        | inr roomy ↦ rw roomy (
            read_chunk-EndFits most rest limit stream capacity contents s (ground arith) fits.capped
              (later _))
      ]

  -- From a buffer that fits, with fuel for the bytes up to the limit, the loop ends: without memory,
  -- or with contents that leave room for their final NUL in a buffer that is within the limit.
  pub read_loop-EndFits :
      ReadsAtMost
      → (fuel limit : ℕ) (stream : Stream) (capacity : ℕ) (contents : Text) (s : State World)
      → Fits limit capacity contents
      → limit < length contents + fuel + 1
      → EndFits limit (read_loop S fuel limit stream capacity contents s).0
  unfolding read_loop
  read_loop-EndFits most zero limit stream capacity contents s fits fuelled = absurd (omega arith)
  read_loop-EndFits most (suc fuel) limit stream capacity contents s fits fuelled =
      elim (Bool-cases (ltb (length contents) (limit - 1))) [
        | inl more ↦ rw more (
            grow_and_read-EndFits most (read_loop S fuel limit stream) limit stream capacity
              contents s fits (ground arith)
              (λ cap chunk t grown fits'.
                read_loop-EndFits most fuel limit stream cap (contents ++ chunk) t fits'
                  (omega (arith, length-append contents chunk))))
        | inr done ↦ rw done fits
      ]
