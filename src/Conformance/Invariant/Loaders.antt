-- ===== src/Conformance/Invariant/Loaders.antt =====
-- The loaders of components/conformance/src/main.c, and what their lines and rows keep.
use p101_test.Base.{
  ℕ, zero, suc, Text, Bool, true, false, not, Option, none, some, List, [], ◌∷◌, get_or, length,
  ◌==◌, State, M, if_cases,
}
use p101_test.System.{System}
use p101_test.Conformance.Types.{max_line, ApiRecord, Conformance}
use p101_test.Conformance.Fields.{split_fields, copy_text, cut_item}
use p101_test.Conformance.Lines.{
  Line, next, bad, behind_header, settle, read_manifest, open_manifest, load_manifest,
}
use p101_test.Conformance.Lines.Runs.{read_all-keeps}
use p101_test.Conformance.Manifests.{
  load_api_manifest, load_test_manifest, load_conformance_manifest,
}
use p101_test.Conformance.FaultManifest.{
  is_available, add_available, while_loaded, add_symbols, add_outcomes, fault_line, load_faults,
  load_fault_manifest, platform_columns,
}
use p101_test.Conformance.Invariant.Steps.{
  IsState, Leaves, add_api-IsState, add_test-IsState, add_contract-IsState, add_fault-IsState,
}

module _ (S : System) where
  open S use {World, Stream}

  settle-keeps {κ} :
      (P : Conformance → Type κ) (line : Line) (c : Conformance) (s : State World)
      → Leaves P line
      → P c
      → P (settle S line c s).0.1
  settle-keeps P (next c') c s h p = h
  settle-keeps P (bad failure) c s h p = p

  -- A loader keeps what the body of its loop keeps.
  module _ {κ} (P : Conformance → Type κ) (body : Text → Conformance → M World (Bool × Conformance))
      (keep : (line : Text) (c : Conformance) (s : State World) → P c → P (body line c s).0.1) where
    behind_header-keeps :
        (line : Text) (a : Bool × Conformance) (s : State World)
        → P a.1
        → P (behind_header S body line a s).0.1.1
    behind_header-keeps line (true, c) s h = h
    behind_header-keeps line (false, c) s h = keep line c s h

    read_manifest-keeps :
        (c : Conformance) (stream : Option Stream) (s : State World)
        → P c
        → P (read_manifest S body c stream s).0.1
    unfolding read_manifest
    read_manifest-keeps c none s h = h
    read_manifest-keeps c (some stream) s h =
        read_all-keeps S (λ (a : Bool × Conformance). P a.1) (behind_header S body)
          behind_header-keeps stream (true, c) s h

    open_manifest-keeps :
        (c : Conformance) (path : Option (ℕ × Text)) (s : State World)
        → P c
        → P (open_manifest S body c path s).0.1
    unfolding open_manifest
    open_manifest-keeps c none s h = h
    open_manifest-keeps c (some path) s h = read_manifest-keeps c _ _ h

    load_manifest-keeps :
        (text : Text) (c : Conformance) (s : State World)
        → P c
        → P (load_manifest S text body c s).0.1
    unfolding load_manifest
    load_manifest-keeps text c s h = open_manifest-keeps c _ _ h

  pub load_api_manifest-IsState :
      (repo : Text) (c : Conformance) (s : State World)
      → IsState c
      → IsState (load_api_manifest S repo c s).0.1
  unfolding load_api_manifest
  load_api_manifest-IsState repo c s v =
      load_manifest-keeps IsState _
        (λ line c s v. settle-keeps IsState _ c s (add_api-IsState (split_fields line 5) c v) v) _ c
        s v

  pub load_test_manifest-IsState :
      (repo : Text) (c : Conformance) (s : State World)
      → IsState c
      → IsState (load_test_manifest S repo c s).0.1
  unfolding load_test_manifest
  load_test_manifest-IsState repo c s v =
      load_manifest-keeps IsState _
        (λ line c s v. settle-keeps IsState _ c s (add_test-IsState (split_fields line 4) c v) v) _
        c s v

  pub load_conformance_manifest-IsState :
      (repo : Text) (c : Conformance) (s : State World)
      → IsState c
      → IsState (load_conformance_manifest S repo c s).0.1
  unfolding load_conformance_manifest
  load_conformance_manifest-IsState repo c s v =
      load_manifest-keeps IsState _
        (λ line c s v.
          settle-keeps IsState _ c s (add_contract-IsState (split_fields line 4) c v) v)
        _ c s v

  add_available-IsState :
      (w d m : Text) (c : Conformance) (available : Bool) (s : State World)
      → IsState c
      → IsState (add_available S w d m c available s).0.1
  add_available-IsState w d m c true s v =
      settle-keeps IsState _ c s (add_fault-IsState w d m c v) v
  add_available-IsState w d m c false s v = v

  while_loaded-IsState :
      (again : Conformance → M World (Bool × Conformance))
      → ((c : Conformance) (s : State World) → IsState c → IsState (again c s).0.1)
      → (r : Bool × Conformance) (s : State World) → IsState r.1
      → IsState (while_loaded S again r s).0.1
  while_loaded-IsState again ih (true, c) s v = ih c s v
  while_loaded-IsState again ih (false, c) s v = v

  add_symbols-IsState :
      (fuel : ℕ) (macros conditional w d cursor : Text) (c : Conformance) (s : State World)
      → IsState c
      → IsState (add_symbols S fuel macros conditional w d cursor c s).0.1
  unfolding add_symbols
  add_symbols-IsState zero macros conditional w d cursor c s v = v
  add_symbols-IsState (suc fuel) macros conditional w d [] c s v = v
  add_symbols-IsState (suc fuel) macros conditional w d (b ∷ cursor) c s v =
      let item = cut_item (b ∷ cursor) in
      let available = is_available S macros conditional item.0 s in
      let r = add_available S w d item.0 c available.0 available.1 in
      while_loaded-IsState (add_symbols S fuel macros conditional w d item.1)
        (add_symbols-IsState fuel macros conditional w d item.1) r.0 r.1
        (add_available-IsState w d item.0 c available.0 available.1 v)

  add_outcomes-IsState :
      (macros : Text) (columns : ℕ × ℕ) (fields : List Text) (c : Conformance)
      (found : Option ApiRecord) (s : State World)
      → IsState c
      → IsState (add_outcomes S macros columns fields c found s).0.1
  unfolding add_outcomes
  add_outcomes-IsState macros columns fields c none s v = v
  add_outcomes-IsState macros columns fields c (some api) s v =
      if_cases (λ (m : M World (Bool × Conformance)). IsState (m s).0.1) (not api.fault_test)
        (λ e. v)
        λ e.
          if_cases (λ (m : M World (Bool × Conformance)). IsState (m s).0.1)
            (not (copy_text max_line (get_or fields columns.0 []))) (λ e. v)
            λ e.
              add_symbols-IsState (length (get_or fields columns.0 [])) macros
                (get_or fields columns.1 []) (get_or fields 0 []) (get_or fields 2 [])
                (get_or fields columns.0 []) c s v

  fault_line-IsState :
      (macros : Text) (columns : ℕ × ℕ) (line : Text) (c : Conformance) (s : State World)
      → IsState c
      → IsState (fault_line S macros columns line c s).0.1
  unfolding fault_line
  fault_line-IsState macros columns line c s v =
      if_cases (λ (m : M World (Bool × Conformance)). IsState (m s).0.1)
        (not (length (split_fields line 11) == 11)) (λ e. v)
        λ e. add_outcomes-IsState macros columns (split_fields line 11) c _ s v

  load_faults-IsState :
      (repo macros : Text) (c : Conformance) (columns : Option (ℕ × ℕ)) (s : State World)
      → IsState c
      → IsState (load_faults S repo macros c columns s).0.1
  unfolding load_faults
  load_faults-IsState repo macros c none s v = v
  load_faults-IsState repo macros c (some columns) s v =
      load_manifest-keeps IsState _ (fault_line-IsState macros columns) _ c s v

  pub load_fault_manifest-IsState :
      (platform repo macros : Text) (c : Conformance) (s : State World)
      → IsState c
      → IsState (load_fault_manifest S platform repo macros c s).0.1
  unfolding load_fault_manifest
  load_fault_manifest-IsState platform repo macros c s v =
      load_faults-IsState repo macros c (platform_columns platform) s v
