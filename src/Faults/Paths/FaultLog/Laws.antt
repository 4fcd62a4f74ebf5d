-- ===== src/Faults/Paths/FaultLog/Laws.antt =====
-- The records of the fault log, written field by field, under `check_line` of src/paths.c.
use p101_test.Base.{
  append-nil, ℕ, zero, suc, Text, codes, true, false, not, ◌||◌, Option, none, some, List, [], ◌∷◌,
  ◌++◌, append_assoc, map, ◌==◌, if◌then◌else◌, length, take, drop, take-eq_self, get_or, text_eq,
  text_eq_refl, arith, ◌≡◌, ◌≢◌, refl, inl, inr, Bool-cases,
}
use p101_test.Faults.Library.{FaultLibrary}
use p101_test.Faults.Paths.FaultLog.{
  hit, bad, contains_byte, strip_line_end, fault_semantics_valid, split_fields, is_none,
  check_fields, check_record, check_line,
}

-- Free of the separator and of line ends.
pub record IsClean (sep : ℕ) (field : Text) : Type 0 where
  pub no_sep : contains_byte sep field ≡ false
  pub no_newline : contains_byte 10 field ≡ false
  pub no_return : contains_byte 13 field ≡ false

-- How `p101_record_split` and `p101_record_unescape_field` answer what the log's writer writes.
pub record IsRecordFormat (L : FaultLibrary) (sep : ℕ) (escape : Text → Text) : Type 0 where
  pub split_last : (f : Text) → contains_byte sep f ≡ false → L.record_split f ≡ (f, none)
  pub split_more :
      (f rest : Text)
      → contains_byte sep f ≡ false
      → L.record_split (f ++ (sep ∷ rest)) ≡ (f, some rest)
  pub unescape-escape : (f : Text) → L.record_unescape_field (escape f) ≡ f
  pub escape-IsClean : (f : Text) → IsClean sep (escape f)
  pub tag-IsClean : IsClean sep L.fault_log_tag
  pub sep_ne_newline : sep ≢ 10
  pub sep_ne_return : sep ≢ 13

-- The fields behind the tag, each led by the separator.
unfoldable pub join_fields : ℕ → List Text → Text
join_fields sep [] = []
join_fields sep (f ∷ fields) = sep ∷ (f ++ join_fields sep fields)

-- A line of the log: the tag, the escaped fields and the line's end.
unfoldable pub record_line : FaultLibrary → ℕ → (Text → Text) → List Text → Text
unfolding join_fields
record_line L sep escape fields =
    L.fault_log_tag ++ (join_fields sep (map escape fields) ++ (10 ∷ []))

contains_byte-append :
    (c : ℕ) (a b : Text)
    → contains_byte c a ≡ false
    → contains_byte c b ≡ false
    → contains_byte c (a ++ b) ≡ false
unfolding contains_byte
contains_byte-append c [] b h k = k
contains_byte-append c (x ∷ a) b h k = ground (arith, contains_byte-append c a b)

contains_byte-join_fields :
    (c sep : ℕ) (escape : Text → Text) (fields : List Text)
    → sep ≢ c
    → ((f : Text) → contains_byte c (escape f) ≡ false)
    → contains_byte c (join_fields sep (map escape fields)) ≡ false
unfolding join_fields contains_byte
contains_byte-join_fields c sep escape [] differs h = refl
contains_byte-join_fields c sep escape (f ∷ fields) differs h =
    let rest =
      contains_byte-append c (escape f) (join_fields sep (map escape fields)) (h f)
        (contains_byte-join_fields c sep escape fields differs h) in
    ground arith

contains_byte-of_append :
    (c : ℕ) (a b : Text) → contains_byte c b ≡ true → contains_byte c (a ++ b) ≡ true
unfolding contains_byte
contains_byte-of_append c [] b h = h
contains_byte-of_append c (x ∷ a) b h = ground (arith, contains_byte-of_append c a b h)

newline_found : contains_byte 10 (10 ∷ []) ≡ true
unfolding contains_byte
newline_found = refl

strip_line_end-clean :
    (line : Text)
    → contains_byte 10 line ≡ false
    → contains_byte 13 line ≡ false
    → strip_line_end (line ++ (10 ∷ [])) ≡ line
unfolding strip_line_end contains_byte text_eq
strip_line_end-clean [] h k = refl
strip_line_end-clean (b ∷ line) h k =
    rw (strip_line_end-clean line (ground arith) (ground arith)) (ground arith)

module _ (L : FaultLibrary) (sep : ℕ) (escape : Text → Text) (F : IsRecordFormat L sep escape) where
  -- The cursor behind a field, given the fields that follow.
  abbrev cursor_of : List Text → Option Text
  cursor_of [] = none
  cursor_of (f ∷ fields) = some (escape f ++ join_fields sep (map escape fields))

  record_split-join_fields :
      (f : Text) (fields : List Text)
      → contains_byte sep f ≡ false
      → L.record_split (f ++ join_fields sep (map escape fields)) ≡ (f, cursor_of fields)
  unfolding join_fields
  record_split-join_fields f [] h = rw append-nil (F.split_last f h)
  record_split-join_fields f (g ∷ fields) h = F.split_more f _ h

  -- The fields for which there is room, and a cursor at the field behind them.
  split_fields-join_fields :
      (room : ℕ) (fields : List Text)
      → split_fields L room (cursor_of fields)
        ≡ (map escape (take room fields), cursor_of (drop room fields))
  unfolding split_fields
  split_fields-join_fields zero fields = refl
  split_fields-join_fields (suc room) [] = refl
  split_fields-join_fields (suc room) (f ∷ fields) =
      rw (record_split-join_fields (escape f) fields (F.escape-IsClean f).no_sep)
        (rw (split_fields-join_fields room fields))

  unescape-map-escape :
      (fields : List Text) → map L.record_unescape_field (map escape fields) ≡ fields
  unescape-map-escape [] = refl
  unescape-map-escape (f ∷ fields) = rw (F.unescape-escape f, unescape-map-escape fields)

  contains_byte-record_line :
      (fields : List Text) → contains_byte 10 (record_line L sep escape fields) ≡ true
  unfolding record_line
  contains_byte-record_line fields =
      contains_byte-of_append 10 L.fault_log_tag _
        (contains_byte-of_append 10 (join_fields sep (map escape fields)) (10 ∷ []) newline_found)

  strip_line_end-record_line :
      (fields : List Text)
      → strip_line_end (record_line L sep escape fields)
        ≡ L.fault_log_tag ++ join_fields sep (map escape fields)
  unfolding record_line
  strip_line_end-record_line fields = rw (← append_assoc) (
      strip_line_end-clean (L.fault_log_tag ++ join_fields sep (map escape fields))
        (contains_byte-append 10 L.fault_log_tag _ F.tag-IsClean.no_newline (
          contains_byte-join_fields 10 sep escape fields F.sep_ne_newline
            (λ f. (F.escape-IsClean f).no_newline)))
        (contains_byte-append 13 L.fault_log_tag _ F.tag-IsClean.no_return (
          contains_byte-join_fields 13 sep escape fields F.sep_ne_return
            (λ f. (F.escape-IsClean f).no_return))))

  -- Complete and used up: exactly when there are as many fields as there is room.
  complete-join_fields :
      (room : ℕ) (fields : List Text)
      → (not (length (map escape (take room fields)) == room)
          || not (is_none (cursor_of (drop room fields))))
        ≡ not (length fields == room)
  complete-join_fields zero [] = refl
  complete-join_fields zero (f ∷ fields) = ground arith
  complete-join_fields (suc room) [] = ground arith
  complete-join_fields (suc room) (f ∷ fields) = ground (arith, complete-join_fields room fields)

  check_line-of_newline :
      (line : Text)
      → contains_byte 10 line ≡ true
      → check_line L line ≡ check_record L (strip_line_end line)
  unfolding check_line
  check_line-of_newline line h = rw h (ground arith)

  check_record-join_fields :
      (fields : List Text)
      → check_record L (L.fault_log_tag ++ join_fields sep (map escape fields)) ≡ (
          if not (length fields == 9)
          then bad (codes "The fault log contains a malformed P101FAULT record.")
          else check_fields L (L.record_unescape_field L.fault_log_tag ∷ fields))
  unfolding check_record
  check_record-join_fields fields =
      rw
        (
          record_split-join_fields L.fault_log_tag fields F.tag-IsClean.no_sep,
          text_eq_refl,
          split_fields-join_fields 9 fields,
          complete-join_fields 9 fields,
        )
        (elim (Bool-cases (length fields == 9)) [
          | inl e ↦ rw (e, take-eq_self 9 fields (ground arith), unescape-map-escape fields)
          | inr e ↦ rw e
        ])

  -- What the reader makes of a written record: a record with another number of fields is malformed,
  -- the version and then the phase and disposition are checked, and the name is cut to its buffer.
  pub check_line-record_line :
      (fields : List Text)
      → check_line L (record_line L sep escape fields) ≡ (
          if not (length fields == 9)
          then bad (codes "The fault log contains a malformed P101FAULT record.")
          else if not (text_eq (get_or fields 0 []) L.fault_log_version)
          then bad (codes "The fault log version is not supported.")
          else if not (
              fault_semantics_valid L
                (get_or fields 5 [])
                (get_or fields 7 [])
                (get_or fields 8 []))
          then bad (codes "The fault log contains inconsistent phase/disposition semantics.")
          else hit (take 127 (get_or fields 3 [])))
  unfolding check_fields
  check_line-record_line fields =
      rw
        (
          check_line-of_newline,
          contains_byte-record_line fields,
          strip_line_end-record_line fields,
          check_record-join_fields,
        )
        refl
