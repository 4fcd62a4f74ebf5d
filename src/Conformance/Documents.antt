-- ===== src/Conformance/Documents.antt =====
-- components/conformance/src/main.c: `read_json_file`, the loop over the rows of an array, and the
-- texts and the truth values of a row.
use p101_test.Base.{
  ℕ, zero, suc, ◌+◌, Text, codes, Bool, true, false, not, Option, none, some, ltb, ◌==◌,
  if◌then◌else◌, length, user, M, ◌>>=◌, ◌>>◌, return, call, call_optional, raise,
}
use p101_test.System.{System}
use p101_test.Conformance.Types.{max_json, eoverflow, Conformance, ConformanceLibrary}

module _ (S : System) (L : ConformanceLibrary S) where
  open S use {World, Stream, fopen, fclose, fread, fseek_end, fseek_start, ftell, allocate}
  open L use {Json, json_parse, json_object_get, json_array_get, json_token_copy, json_token_equals}

  -- With the text of the file in memory.
  abbrev pub parse_text : ℕ → Text → M World (Option Json)
  parse_text size text = if not (length text == size) then return none else call (json_parse text)

  abbrev pub read_text : ℕ → Stream → Bool → M World (Option Json)
  read_text size stream false = return none
  read_text size stream true = do text ← call (fread size stream); parse_text size text

  abbrev pub from_start : ℕ → Stream → Bool → M World (Option Json)
  from_start size stream false = return none
  from_start size stream true = do given ← call (allocate (size + 1)); read_text size stream given

  abbrev pub check_size : Stream → Option ℕ → M World (Option Json)
  check_size stream none = do raise (user (codes "JSON input is too large") eoverflow); return none
  check_size stream (some size) =
      if ltb max_json size
      then (do raise (user (codes "JSON input is too large") eoverflow); return none)
      else (do started ← call (fseek_start stream); from_start size stream started)

  abbrev pub from_end : Stream → Bool → M World (Option Json)
  from_end stream false = return none
  from_end stream true = do size ← call (ftell stream); check_size stream size

  abbrev pub when_closed : Option Json → Bool → Option Json
  when_closed document true = document
  when_closed document false = none

  abbrev pub read_stream : Option Stream → M World (Option Json)
  read_stream none = return none
  read_stream (some stream) = do
    sought ← call (fseek_end stream)
    document ← from_end stream sought
    closed ← call (fclose stream)
    return (when_closed document closed)

  unfoldable pub read_json_file : Text → M World (Option Json)
  read_json_file path = do stream ← call (fopen path (codes "rb")); read_stream stream

  abbrev pub copy_token : ℕ → Json → Option ℕ → M World (Option Text)
  copy_token size document none = return none
  copy_token size document (some token) = call (json_token_copy document token size)

  unfoldable pub token_text : Json → ℕ → Text → ℕ → M World (Option Text)
  token_text document object key size =
      copy_token size document (json_object_get document object key)

  abbrev pub copy_token_optional : ℕ → Json → Option ℕ → M World (Option Text)
  copy_token_optional size document none = return none
  copy_token_optional size document (some token) =
      call_optional (json_token_copy document token size)

  -- `token_text` that is handed `P101_ERROR_OPTIONAL`
  unfoldable pub token_text_optional : Json → ℕ → Text → ℕ → M World (Option Text)
  token_text_optional document object key size =
      copy_token_optional size document (json_object_get document object key)

  abbrev pub is_true : Json → Option ℕ → Option Bool
  is_true document none = none
  is_true document (some token) = some (json_token_equals document token (codes "true"))

  unfoldable pub token_boolean : Json → ℕ → Text → Option Bool
  token_boolean document object key = is_true document (json_object_get document object key)

  abbrev pub more_rows :
      (Conformance → M World (Bool × Conformance))
      → Bool × Conformance
      → M World (Bool × Conformance)
  more_rows again (true, c) = again c
  more_rows again (false, c) = return (false, c)

  abbrev pub take_row :
      (Conformance → M World (Bool × Conformance))
      → (ℕ → Conformance → M World (Bool × Conformance))
      → Conformance
      → Option ℕ
      → M World (Bool × Conformance)
  take_row again body c none = return (false, c)
  take_row again body c (some row) = do r ← body row c; more_rows again r

  -- The loop over the rows of an array, with the number of those left and the index of the next.
  unfoldable pub each_row :
      Json
      → ℕ
      → (ℕ → Conformance → M World (Bool × Conformance))
      → ℕ
      → ℕ
      → Conformance
      → M World (Bool × Conformance)
  each_row document array body zero index c = return (true, c)
  each_row document array body (suc left) index c =
      take_row (each_row document array body left (suc index)) body c
        (json_array_get document array index)
