-- ===== src/Conformance/Instrumentation.antt =====
-- components/conformance/src/main.c: `load_instrumentation`.
use p101_test.Base.{
  ℕ, Text, codes, Bool, true, false, not, Option, none, some, if◌then◌else◌, text_eq, user, M,
  ◌>>=◌, ◌>>◌, return, raise,
}
use p101_test.System.{System}
use p101_test.Conformance.Types.{
  max_name, max_usr, einval, ApiRecord, Conformance, ConformanceLibrary,
}
use p101_test.Conformance.Table.{has_usr, find_api, update_first}
use p101_test.Conformance.Documents.{read_json_file, token_text, token_boolean, each_row}

abbrev pub mark_seen : ApiRecord → ApiRecord
mark_seen api = record api { instrumentation_seen = true }

abbrev pub mark_traced : Bool → ApiRecord → ApiRecord
mark_traced has_env api = record api { trace_applicable = has_env }

module _ (S : System) (L : ConformanceLibrary S) where
  open S use {World}
  open L use {Json, json_object_get, json_is_array, json_child_count}

  abbrev pub trace_api : Text → Conformance → Option Bool → Bool × Conformance
  trace_api usr c none = (false, c)
  trace_api usr c (some has_env) =
      (true, record c { apis = update_first (has_usr usr) (mark_traced has_env) c.apis })

  unfoldable pub see_api :
      Json → ℕ → Text → Conformance → Option ApiRecord → M World (Bool × Conformance)
  see_api document row usr c none = do
    raise (user (codes "instrumentation receipt has unknown API identity") einval)
    return (false, c)
  see_api document row usr c (some api) = return (
      trace_api usr (record c { apis = update_first (has_usr usr) mark_seen c.apis })
        (token_boolean S L document row (codes "has_env")))

  abbrev pub with_usr : Json → ℕ → Conformance → Option Text → M World (Bool × Conformance)
  with_usr document row c none = return (false, c)
  with_usr document row c (some usr) = see_api document row usr c (find_api usr c.apis)

  abbrev pub with_library :
      Text → Json → ℕ → Conformance → Option Text → M World (Bool × Conformance)
  with_library library document row c none = return (false, c)
  with_library library document row c (some name) =
      if not (text_eq name library)
      then return (true, c)
      else (do usr ← token_text S L document row (codes "usr") max_usr; with_usr document row c usr)

  -- The body of the loop over the capabilities.
  unfoldable pub capability : Text → Json → ℕ → Conformance → M World (Bool × Conformance)
  unfolding see_api
  capability library document row c = do
    name ← token_text S L document row (codes "library") max_name
    with_library library document row c name

  abbrev pub reject : Text → Conformance → M World (Bool × Conformance)
  reject message c = do raise (user message einval); return (false, c)

  unfoldable pub capabilities : Text → Json → Conformance → Option ℕ → M World (Bool × Conformance)
  unfolding capability each_row
  capabilities library document c none =
      reject (codes "instrumentation receipt lacks capabilities") c
  capabilities library document c (some array) =
      if not (json_is_array document array)
      then reject (codes "instrumentation receipt lacks capabilities") c
      else each_row S L document array (capability library document)
          (json_child_count document array) 0 c

  unfoldable pub check_passed :
      Text → Json → Conformance → Option Bool → M World (Bool × Conformance)
  unfolding capabilities
  check_passed library document c none = reject (codes "instrumentation audit did not pass") c
  check_passed library document c (some passed) =
      if not passed
      then reject (codes "instrumentation audit did not pass") c
      else capabilities library document c
          (json_object_get document 0 (codes "function_capabilities"))

  unfoldable pub check_schema :
      Text → Json → Conformance → Option Text → M World (Bool × Conformance)
  unfolding check_passed
  check_schema library document c none = reject (codes "unsupported instrumentation receipt") c
  check_schema library document c (some schema) =
      if not (text_eq schema (codes "p101-instrumentation-platform-receipt-v1"))
      then reject (codes "unsupported instrumentation receipt") c
      else check_passed library document c (token_boolean S L document 0 (codes "passed"))

  abbrev pub with_receipt : Text → Conformance → Option Json → M World (Bool × Conformance)
  with_receipt library c none = return (false, c)
  with_receipt library c (some document) = do
    schema ← token_text S L document 0 (codes "schema") max_name
    check_schema library document c schema

  unfoldable pub load_instrumentation : Text → Text → Conformance → M World (Bool × Conformance)
  unfolding check_schema
  load_instrumentation path library c = do
    document ← read_json_file S L path
    with_receipt library c document
