-- ===== src/Conformance/Manifests.antt =====
-- components/conformance/src/main.c: the manifests of the library's functions, of their tests and of
-- their contracts.
pub mod Rows
pub mod Ending
use p101_test.Base.{
  Text, codes, Bool, true, not, ◌||◌, Option, none, some, List, [], ◌∷◌, ◌++◌, leb, ◌==◌,
  if◌then◌else◌, length, get_or, text_eq, user, errno, M,
}
use p101_test.System.{System}
use p101_test.Conformance.Types.{
  max_apis, max_name, max_usr, einval, eoverflow, ApiRecord, new_api, Conformance,
}
use p101_test.Conformance.Fields.{split_fields, copy_text}
use p101_test.Conformance.Table.{has_usr, find_api, update_first}
use p101_test.Conformance.Lines.{Line, next, bad, settle, load_manifest}

-- The fields of a row of the API manifest.
unfoldable pub add_api : List Text → Conformance → Line
add_api fields c =
    if not (length fields == 5) || leb max_apis (length c.apis)
    then bad (user (codes "malformed API manifest") einval)
    else if not (copy_text max_name (get_or fields 0 []))
    then bad (errno eoverflow)
    else if not (copy_text max_usr (get_or fields 1 []))
    then bad (errno eoverflow)
    else next (record c { apis = c.apis ++ new_api (get_or fields 0 []) (get_or fields 1 []) ∷ [] })

abbrev pub mark_tested : Text → ApiRecord → ApiRecord
mark_tested kind api = record api {
  tested = true;
  fault_test = if text_eq kind (codes "fault") then true else api.fault_test;
}

-- The row that the identity belongs to, if there is one.
unfoldable pub test_api : Text → Text → Conformance → Option ApiRecord → Line
test_api usr kind c none = bad (user (codes "unit-test manifest identity mismatch") einval)
test_api usr kind c (some api) =
    if api.tested
    then bad (user (codes "unit-test manifest identity mismatch") einval)
    else next (record c { apis = update_first (has_usr usr) (mark_tested kind) c.apis })

unfoldable pub add_test : List Text → Conformance → Line
unfolding test_api
add_test fields c =
    if not (length fields == 4)
    then bad (user (codes "malformed unit-test manifest") einval)
    else test_api (get_or fields 1 []) (get_or fields 2 []) c (find_api (get_or fields 1 []) c.apis)

abbrev pub mark_contract : Text → Text → ApiRecord → ApiRecord
mark_contract arguments result api = record api {
  conformance_seen = true;
  require_arguments = text_eq arguments (codes "true");
  require_result = text_eq result (codes "true");
}

unfoldable pub contract_api : Text → Text → Text → Conformance → Option ApiRecord → Line
contract_api usr arguments result c none =
    bad (user (codes "conformance manifest identity mismatch") einval)
contract_api usr arguments result c (some api) =
    if api.conformance_seen
    then bad (user (codes "conformance manifest identity mismatch") einval)
    else next
        (record c { apis = update_first (has_usr usr) (mark_contract arguments result) c.apis })

unfoldable pub add_contract : List Text → Conformance → Line
unfolding contract_api
add_contract fields c =
    if not (length fields == 4)
    then bad (user (codes "malformed conformance manifest") einval)
    else contract_api (get_or fields 1 []) (get_or fields 2 []) (get_or fields 3 []) c
        (find_api (get_or fields 1 []) c.apis)

module _ (S : System) where
  open S use {World}

  -- The bodies of the three loops.
  abbrev pub api_line : Text → Conformance → M World (Bool × Conformance)
  api_line line c = settle S (add_api (split_fields line 5) c) c

  abbrev pub test_line : Text → Conformance → M World (Bool × Conformance)
  test_line line c = settle S (add_test (split_fields line 4) c) c

  abbrev pub contract_line : Text → Conformance → M World (Bool × Conformance)
  contract_line line c = settle S (add_contract (split_fields line 4) c) c

  unfoldable pub load_api_manifest : Text → Conformance → M World (Bool × Conformance)
  unfolding load_manifest
  load_api_manifest repo c = load_manifest S (repo ++ codes "/api-manifest.tsv") (api_line) c

  unfoldable pub load_test_manifest : Text → Conformance → M World (Bool × Conformance)
  unfolding load_manifest
  load_test_manifest repo c =
      load_manifest S (repo ++ codes "/test/unit-test-manifest.tsv") (test_line) c

  unfoldable pub load_conformance_manifest : Text → Conformance → M World (Bool × Conformance)
  unfolding load_manifest
  load_conformance_manifest repo c =
      load_manifest S (repo ++ codes "/test/conformance-manifest.tsv") (contract_line) c
