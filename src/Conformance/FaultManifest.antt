-- ===== src/Conformance/FaultManifest.antt =====
-- components/conformance/src/main.c: `load_fault_manifest`, the fault outcomes that are expected on the
-- platform.
pub mod Rows
use p101_test.Base.{
  ℕ, zero, suc, Text, codes, Bool, true, false, not, Option, none, some, List, [], ◌∷◌, ◌++◌, leb,
  ◌==◌, if◌then◌else◌, length, get_or, text_eq, user, errno, M, ◌>>=◌, ◌>>◌, return, raise,
}
use p101_test.System.{System}
use p101_test.Conformance.Types.{
  max_faults, max_name, max_line, einval, eoverflow, ApiRecord, ExpectedFault, Conformance,
}
use p101_test.Conformance.Fields.{split_fields, copy_text, cut_item, list_contains}
use p101_test.Conformance.Table.{find_api}
use p101_test.Conformance.Lines.{Line, next, bad, settle, load_manifest, macro_present}

-- The columns of the platform's outcomes and of the conditional ones among them.
unfoldable pub platform_columns : Text → Option (ℕ × ℕ)
platform_columns platform =
    if text_eq platform (codes "linux")
    then some (4, 8)
    else if text_eq platform (codes "macos")
    then some (5, 9)
    else if text_eq platform (codes "freebsd")
    then some (6, 10)
    else none

abbrev pub new_fault : Text → Text → Text → ExpectedFault
new_fault wrapper domain symbol = record {
  wrapper = wrapper;
  domain = domain;
  symbol = symbol;
  observed = false;
}

-- An outcome that is available is added.
unfoldable pub add_fault : Text → Text → Text → Conformance → Line
add_fault wrapper domain symbol c =
    if leb max_faults (length c.faults)
    then bad (user (codes "too many expected fault outcomes") eoverflow)
    else if not (copy_text max_name wrapper)
    then bad (errno eoverflow)
    else if not (copy_text max_name domain)
    then bad (errno eoverflow)
    else if not (copy_text max_name symbol)
    then bad (errno eoverflow)
    else next (record c { faults = c.faults ++ new_fault wrapper domain symbol ∷ [] })

module _ (S : System) where
  open S use {World}

  -- A conditional outcome is available where its macro is defined.
  unfoldable pub is_available : Text → Text → Text → M World Bool
  unfolding list_contains
  is_available macros conditional symbol =
      if list_contains conditional symbol then macro_present S macros symbol else return true

  abbrev pub add_available : Text → Text → Text → Conformance → Bool → M World (Bool × Conformance)
  add_available wrapper domain symbol c true = settle S (add_fault wrapper domain symbol c) c
  add_available wrapper domain symbol c false = return (true, c)

  abbrev pub while_loaded :
      (Conformance → M World (Bool × Conformance))
      → Bool × Conformance
      → M World (Bool × Conformance)
  while_loaded again (true, c) = again c
  while_loaded again (false, c) = return (false, c)

  -- The loop over the symbols of a row, on fuel: each round goes forward by a byte at least.
  unfoldable pub add_symbols :
      ℕ → Text → Text → Text → Text → Text → Conformance → M World (Bool × Conformance)
  unfolding is_available
  add_symbols zero macros conditional wrapper domain cursor c = return (true, c)
  add_symbols (suc fuel) macros conditional wrapper domain [] c = return (true, c)
  add_symbols (suc fuel) macros conditional wrapper domain (b ∷ cursor) c =
      let item = cut_item (b ∷ cursor) in
      do
        available ← is_available macros conditional item.0
        r ← add_available wrapper domain item.0 c available
        while_loaded (add_symbols fuel macros conditional wrapper domain item.1) r

  -- A row whose function is known and has a fault test.
  unfoldable pub add_outcomes :
      Text → ℕ × ℕ → List Text → Conformance → Option ApiRecord → M World (Bool × Conformance)
  unfolding add_symbols
  add_outcomes macros columns fields c none = do
    raise (user (codes "fault-outcome manifest identity mismatch") einval)
    return (false, c)
  add_outcomes macros columns fields c (some api) =
      let symbols = get_or fields columns.0 [] in
      if not api.fault_test
      then (do
        raise (user (codes "fault-outcome manifest identity mismatch") einval)
        return (false, c))
      else if not (copy_text max_line symbols)
      then (do raise (errno eoverflow); return (false, c))
      else add_symbols (length symbols) macros (get_or fields columns.1 []) (get_or fields 0 [])
          (get_or fields 2 []) symbols c

  unfoldable pub fault_line : Text → ℕ × ℕ → Text → Conformance → M World (Bool × Conformance)
  unfolding add_outcomes
  fault_line macros columns line c =
      let fields = split_fields line 11 in
      if not (length fields == 11)
      then (do raise (user (codes "malformed fault-outcome manifest") einval); return (false, c))
      else add_outcomes macros columns fields c (find_api (get_or fields 1 []) c.apis)

  unfoldable pub load_faults :
      Text → Text → Conformance → Option (ℕ × ℕ) → M World (Bool × Conformance)
  unfolding fault_line load_manifest
  load_faults repo macros c none = do
    raise (user (codes "unsupported conformance platform") einval)
    return (false, c)
  load_faults repo macros c (some columns) =
      load_manifest S (repo ++ codes "/test/fault-outcome-manifest.tsv") (fault_line macros columns)
        c

  unfoldable pub load_fault_manifest :
      Text → Text → Text → Conformance → M World (Bool × Conformance)
  unfolding load_faults platform_columns
  load_fault_manifest platform repo macros c = load_faults repo macros c (platform_columns platform)
