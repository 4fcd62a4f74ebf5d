-- ===== src/Faults/Paths/FaultLog.antt =====
-- src/paths.c: `p101_error_path_walk_read_fault_hit` and `fault_semantics_valid`.
pub mod Laws
pub mod Scan
pub mod Bounds
use p101_test.Base.{
  ℕ, zero, suc, ◌-◌, Text, codes, Bool, true, false, not, ◌&&◌, ◌||◌, Option, none, some, List, [],
  ◌∷◌, ◌++◌, map, ◌==◌, if◌then◌else◌, length, take, get_or, text_eq, Failure, user, errno, State,
  M, ◌>>=◌, ◌>>◌, return, call, call_optional, raise,
}
use p101_test.System.{System}
use p101_test.Faults.Types.{name_len, err_usage}
use p101_test.Faults.Library.{FaultLibrary}

abbrev pub read_buf_len : ℕ
read_buf_len = 4096

-- FAULT_FIELD_COUNT; the fields used are VERSION 1, NAME 4, MODE 6, PHASE 8 and DISPOSITION 9.
abbrev pub fault_field_count : ℕ
fault_field_count = 10

abbrev pub enomem : ℕ
enomem = 12

-- What the body of the loop does with a line: go on, report a hit, or raise a message.
pub data Verdict : Type 0 where
  skip : Verdict
  hit : Text → Verdict
  bad : Text → Verdict

-- `p101_strchr(line, c) != NULL`
unfoldable pub contains_byte : ℕ → Text → Bool
contains_byte c [] = false
contains_byte c (b ∷ line) = b == c || contains_byte c line

-- The loop that cuts `\n` and `\r` off the end.
unfoldable pub strip_line_end : Text → Text
strip_line_end [] = []
strip_line_end (b ∷ line) =
    let rest = strip_line_end line in
    if text_eq rest [] && (b == 10 || b == 13) then [] else b ∷ rest

abbrev pub is_none : Option Text → Bool
is_none none = true
is_none (some c) = false

module _ (L : FaultLibrary) where
  open L use {
    fault_log_tag, fault_log_version, fault_mode_from_name, fault_mode_defaults, record_split,
    record_unescape_field,
  }

  unfoldable pub fault_semantics_valid : Text → Text → Text → Bool
  fault_semantics_valid mode phase disposition = elim (fault_mode_from_name mode) [
    | none ↦ false
    | some parsed ↦ elim (fault_mode_defaults parsed) [
      | none ↦ false
      | some words ↦ text_eq phase words.0 && text_eq disposition words.1
    ]
  ]

  -- The loop over `count`, with the fields left to fill; then what is left of the cursor.
  unfoldable pub split_fields : ℕ → Option Text → List Text × Option Text
  split_fields zero cursor = ([], cursor)
  split_fields (suc room) none = ([], none)
  split_fields (suc room) (some cursor) =
      let field = record_split cursor in
      let rest = split_fields room field.1 in (field.0 ∷ rest.0, rest.1)

  -- The checks on the unescaped fields of a complete record.
  unfoldable pub check_fields : List Text → Verdict
  check_fields fields =
      if not (text_eq (get_or fields 1 []) fault_log_version)
      then bad (codes "The fault log version is not supported.")
      else if not
          (fault_semantics_valid (get_or fields 6 []) (get_or fields 8 []) (get_or fields 9 []))
      then bad (codes "The fault log contains inconsistent phase/disposition semantics.")
      else hit (take (name_len - 1) (get_or fields 4 []))

  -- A line without its end.
  unfoldable pub check_record : Text → Verdict
  check_record line =
      let tag = record_split line in
      if not (text_eq tag.0 fault_log_tag)
      then skip
      else let fields = split_fields (fault_field_count - 1) tag.1 in
        if not (length fields.0 == fault_field_count - 1) || not (is_none fields.1)
        then bad (codes "The fault log contains a malformed P101FAULT record.")
        else check_fields (map record_unescape_field (tag.0 ∷ fields.0))

  unfoldable pub check_line : Text → Verdict
  check_line line =
      if length line == read_buf_len - 1 && not (contains_byte 10 line)
      then bad (codes "The fault log contains an over-long record.")
      else check_record (strip_line_end line)

  module _ (S : System) where
    open S use {World, Stream, error_create, fopen, fclose, fgets, lines_left}

    -- The loop's body behind `p101_fgets`, with the rounds that are left.
    unfoldable pub judge : M World (Option (Bool × Text)) → Verdict → M World (Option (Bool × Text))
    judge rest skip = rest
    judge rest (hit name) = return (some (true, name))
    judge rest (bad message) = do raise (user message err_usage); return (some (false, []))

    unfoldable pub scan_line :
        M World (Option (Bool × Text)) → Option Text → M World (Option (Bool × Text))
    unfolding judge
    scan_line rest none = return (some (false, []))
    scan_line rest (some line) = judge rest (check_line line)

    -- The `for` loop on fuel; `none` means that the fuel ran out.
    unfoldable pub scan_lines : ℕ → Stream → M World (Option (Bool × Text))
    unfolding scan_line
    scan_lines zero stream = return none
    scan_lines (suc fuel) stream = do
      line ← call (fgets read_buf_len stream)
      scan_line (scan_lines fuel stream) line

    abbrev scan_result : Option (Bool × Text) → Bool × Text
    scan_result none = (false, [])
    scan_result (some r) = r

    -- Behind the opened log: the loop, and the closing.
    unfoldable pub scan_log : Option Stream → M World (Bool × Text)
    unfolding scan_lines
    scan_log none = return (false, [])
    scan_log (some stream) = do
      found ← (λ s. scan_lines (suc (lines_left stream s.world)) stream s)
      call (fclose stream)
      return (scan_result found)

    -- The hit and the name.
    unfoldable pub read_fault_hit : Text → M World (Bool × Text)
    unfolding scan_log
    read_fault_hit path = do
      created ← call_optional error_create
      if created
          then (do opened ← call_optional (fopen path (codes "r")); scan_log opened)
          else (do raise (errno enomem); return (false, []))
