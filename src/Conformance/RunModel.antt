-- ===== src/Conformance/RunModel.antt =====
-- components/conformance/src/main.c: `load_model`, the calls of a run.
use p101_test.Base.{
  ℕ, Text, codes, Bool, true, false, not, ◌&&◌, Option, none, some, [], if◌then◌else◌, text_eq,
  size_add, user, M, ◌>>=◌, ◌>>◌, return, raise,
}
use p101_test.System.{System}
use p101_test.Conformance.Types.{
  max_name, max_line, einval, ApiRecord, Conformance, ConformanceLibrary,
}
use p101_test.Conformance.Table.{has_name, find_api_name, update_first}
use p101_test.Conformance.Documents.{read_json_file, token_text, token_text_optional, each_row}

-- Something was logged: the text is neither empty nor "-".
abbrev pub is_logged : Text → Bool
is_logged value = not (text_eq value []) && not (text_eq value (codes "-"))

abbrev pub arguments_logged : Option Text → Bool → Bool
arguments_logged none before = before
arguments_logged (some value) before = is_logged value

-- The call's entry, with its arguments if they are read; the exit, with its result.
abbrev pub count_enter : Option Text → ApiRecord → ApiRecord
count_enter value api = record api {
  enters = size_add api.enters 1;
  arguments = arguments_logged value api.arguments;
}

abbrev pub count_exit : Option Text → ApiRecord → ApiRecord
count_exit value api = record api {
  exits = size_add api.exits 1;
  result = arguments_logged value api.result;
}

module _ (S : System) (L : ConformanceLibrary S) where
  open S use {World}
  open L use {Json, json_object_get, json_is_array, json_child_count}

  abbrev pub change_api : Text → (ApiRecord → ApiRecord) → Conformance → Conformance
  change_api name change c = record c { apis = update_first (has_name name) change c.apis }

  unfoldable pub note_enter : Json → ℕ → Text → Text → Conformance → M World Conformance
  note_enter document row name kind c =
      if text_eq kind (codes "call-enter")
      then (do
        value ← token_text_optional S L document row (codes "arguments") max_line
        return (change_api name (count_enter value) c))
      else return c

  unfoldable pub note_exit : Json → ℕ → Text → Text → Conformance → M World Conformance
  note_exit document row name kind c =
      if text_eq kind (codes "call-exit")
      then (do
        value ← token_text_optional S L document row (codes "result") max_line
        return (change_api name (count_exit value) c))
      else return c

  -- A call of a function that is not of the library is left out.
  unfoldable pub note_call :
      Json → ℕ → Text → Text → Conformance → Option ApiRecord → M World (Bool × Conformance)
  unfolding note_enter note_exit
  note_call document row name kind c none = return (true, c)
  note_call document row name kind c (some api) = do
    entered ← note_enter document row name kind c
    left ← note_exit document row name kind entered
    return (true, left)

  abbrev pub with_kind : Json → ℕ → Text → Conformance → Option Text → M World (Bool × Conformance)
  with_kind document row name c none = return (false, c)
  with_kind document row name c (some kind) =
      note_call document row name kind c (find_api_name name c.apis)

  abbrev pub with_call : Json → ℕ → Conformance → Option Text → M World (Bool × Conformance)
  with_call document row c none = return (false, c)
  with_call document row c (some name) = do
    kind ← token_text S L document row (codes "kind") max_name
    with_kind document row name c kind

  abbrev pub with_domain : Json → ℕ → Conformance → Option Text → M World (Bool × Conformance)
  with_domain document row c none = return (false, c)
  with_domain document row c (some domain) =
      if not (text_eq domain (codes "call")) then return (true, c) else (do
        name ← token_text S L document row (codes "name") max_name
        with_call document row c name)

  -- The body of the loop over the nodes.
  unfoldable pub node : Json → ℕ → Conformance → M World (Bool × Conformance)
  unfolding note_call
  node document row c = do
    domain ← token_text S L document row (codes "domain") max_name
    with_domain document row c domain

  abbrev pub reject : Text → Conformance → M World (Bool × Conformance)
  reject message c = do raise (user message einval); return (false, c)

  unfoldable pub nodes : Json → Conformance → Option ℕ → M World (Bool × Conformance)
  unfolding node each_row
  nodes document c none = reject (codes "run model lacks nodes") c
  nodes document c (some array) =
      if not (json_is_array document array)
      then reject (codes "run model lacks nodes") c
      else each_row S L document array (node document) (json_child_count document array) 0 c

  unfoldable pub check_schema : Json → Conformance → Option Text → M World (Bool × Conformance)
  unfolding nodes
  check_schema document c none = reject (codes "unsupported run model") c
  check_schema document c (some schema) =
      if not (text_eq schema (codes "p101-run-model-v1"))
      then reject (codes "unsupported run model") c
      else nodes document c (json_object_get document 0 (codes "nodes"))

  abbrev pub with_model : Conformance → Option Json → M World (Bool × Conformance)
  with_model c none = return (false, c)
  with_model c (some document) = do
    schema ← token_text S L document 0 (codes "schema") max_name
    check_schema document c schema

  unfoldable pub load_model : Text → Conformance → M World (Bool × Conformance)
  unfolding check_schema
  load_model path c = do document ← read_json_file S L path; with_model c document
