-- ===== src/Faults/Paths/FaultLog/Bounds.antt =====
-- src/paths.c: the buffer to which `p101_error_path_walk_read_fault_hit` copies a name.
use p101_test.Base.{
  ℕ, zero, suc, ◌<◌, Text, Bool, Option, none, some, List, [], ◌∷◌, length, length-take, take,
  get_or, map, State, M, arith, Bool-cases, inl, inr,
}
use p101_test.System.{System}
use p101_test.Faults.Types.{name_len}
use p101_test.Faults.Library.{FaultLibrary}
use p101_test.Faults.Paths.FaultLog.{
  Verdict, skip, hit, bad, split_fields, strip_line_end, check_fields, check_record, check_line,
  judge, scan_line, scan_lines, scan_result, scan_log, read_fault_hit,
}

abbrev IsShort : Verdict → Type 0
IsShort (hit name) = length name < name_len
IsShort skip = Unit
IsShort (bad message) = Unit

take-short : (name : Text) → length (take 127 name) < name_len
take-short name = omega (arith, length-take 127 name)

module _ (L : FaultLibrary) where
  check_fields-IsShort : (fields : List Text) → IsShort (check_fields L fields)
  unfolding check_fields
  check_fields-IsShort fields = ground (arith, take-short (get_or fields 4 []))

  check_record-IsShort : (line : Text) → IsShort (check_record L line)
  unfolding check_record
  check_record-IsShort line = ground (
    arith,
    check_fields-IsShort (
        map L.record_unescape_field
          ((L.record_split line).0 ∷ (split_fields L 9 (L.record_split line).1).0)),
  )

  check_line-IsShort : (line : Text) → IsShort (check_line L line)
  unfolding check_line
  check_line-IsShort line = ground (arith, check_record-IsShort (strip_line_end line))

  module _ (S : System) where
    open S use {World, Stream, lines_left}

    abbrev NameFits : Option (Bool × Text) → Type 0
    NameFits r = length (scan_result L S r).1 < name_len

    judge-NameFits :
        (rest : M World (Option (Bool × Text))) (v : Verdict) (s : State World)
        → IsShort v
        → NameFits (rest s).0
        → NameFits (judge L S rest v s).0
    unfolding judge
    judge-NameFits rest skip s h k = k
    judge-NameFits rest (hit name) s h k = h
    judge-NameFits rest (bad message) s h k = omega arith

    scan_line-NameFits :
        (rest : M World (Option (Bool × Text))) (line : Option Text) (s : State World)
        → NameFits (rest s).0
        → NameFits (scan_line L S rest line s).0
    unfolding scan_line
    scan_line-NameFits rest none s k = omega arith
    scan_line-NameFits rest (some line) s k =
        judge-NameFits rest (check_line L line) s (check_line-IsShort line) k

    scan_lines-NameFits :
        (fuel : ℕ) (stream : Stream) (s : State World) → NameFits (scan_lines L S fuel stream s).0
    unfolding scan_lines
    scan_lines-NameFits zero stream s = omega arith
    scan_lines-NameFits (suc fuel) stream s =
        scan_line-NameFits (scan_lines L S fuel stream) _ _ (scan_lines-NameFits fuel stream _)

    scan_log-short :
        (opened : Option Stream) (s : State World) → length (scan_log L S opened s).0.1 < name_len
    unfolding scan_log
    scan_log-short none s = omega arith
    scan_log-short (some stream) s = scan_lines-NameFits (suc (lines_left stream s.world)) stream s

    -- The name of the fault that fired, read from any log, fits `char[NAME_LEN]` with its final NUL.
    pub read_fault_hit-short :
        (path : Text) (s : State World) → length (read_fault_hit L S path s).0.1 < name_len
    unfolding read_fault_hit
    read_fault_hit-short path s = elim (Bool-cases (S.error_create s.world).0) [
      | inl e ↦ rw e (scan_log-short _ _)
      | inr e ↦ rw e (omega arith)
    ]
