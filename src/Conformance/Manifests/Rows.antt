-- ===== src/Conformance/Manifests/Rows.antt =====
-- The manifests of components/conformance/src/main.c, and what their rows make of the table.
use p101_test.Base.{
  suc, ◌&&◌, ◌≡◌, refl, ap, sym, ◌∙◌, inl, inr, Text, codes, Bool, true, false, ◌||◌, Option, none,
  some, List, [], ◌∷◌, ◌++◌, map, append_assoc, append-nil, drop, get_or, text_eq, text_eq→eq,
  text_eq_refl, State, M, Bool-cases, arith,
}
use p101_test.System.{System}
use p101_test.Conformance.Types.{ApiRecord, new_api, Conformance}
use p101_test.Conformance.Fields.{split_fields}
use p101_test.Conformance.Table.{has_usr, find_api, find_first, update_first}
use p101_test.Conformance.Lines.{Line, next, bad, settle, behind_header, read_all}
use p101_test.Conformance.Lines.Runs.{run_lines, run_rest-true, lines_read, read_all-run}
use p101_test.Conformance.Manifests.{add_api, add_test, test_api, mark_tested, api_line, test_line}

-- A line's outcome without effects.
abbrev pub settled : Line → Conformance → Bool × Conformance
settled (next c') c = (true, c')
settled (bad failure) c = (false, c)

-- A step behind a first line that is skipped.
abbrev pub header_step :
    (Text → Conformance → Bool × Conformance)
    → Text
    → Bool × Conformance
    → Bool × (Bool × Conformance)
header_step step line (true, c) = (true, (false, c))
header_step step line (false, c) = let r = step line c in (r.0, (false, r.1))

run-header_step :
    (step : Text → Conformance → Bool × Conformance) (lines : List Text) (c : Conformance)
    (r : Bool × Conformance)
    → run_lines (header_step step) lines (false, c) ≡ (true, r)
    → run_lines step lines c ≡ (true, r.1)
unfolding run_lines
run-header_step step [] c r h = ap (λ p. (p.0, p.1.1)) h
run-header_step step (line ∷ lines) c r h =
    let (first, later) =
      run_rest-true (run_lines (header_step step) lines) (header_step step line (false, c)) r h in
    let go : step line c ≡ (true, (step line c).1) = ap (λ p. (p.0, p.1.1)) first in
    rw go (run-header_step step lines (step line c).1 r later)

-- The rows are the lines behind the first.
run-header :
    (step : Text → Conformance → Bool × Conformance) (lines : List Text) (c : Conformance)
    (r : Bool × Conformance)
    → run_lines (header_step step) lines (true, c) ≡ (true, r)
    → run_lines step (drop 1 lines) c ≡ (true, r.1)
unfolding run_lines
run-header step [] c r h = ap (λ p. (p.0, p.1.1)) h
run-header step (line ∷ lines) c r h = run-header_step step lines c r h

settled-true : (line : Line) (c c' : Conformance) → settled line c ≡ (true, c') → line ≡ next c'
settled-true (next c'') c c' h = ap (λ r. next r.1) h
settled-true (bad failure) c c' h = absurd (cc)

-- The function of a row.
abbrev pub api_of : Text → ApiRecord
api_of line = let fields = split_fields line 5 in new_api (get_or fields 0 []) (get_or fields 1 [])

abbrev api_step : Text → Conformance → Bool × Conformance
api_step line c = settled (add_api (split_fields line 5) c) c

add_api-next :
    (line : Text) (c c' : Conformance)
    → add_api (split_fields line 5) c ≡ next c'
    → c' ≡ record c { apis = c.apis ++ api_of line ∷ [] }
unfolding add_api
add_api-next line c c' h = ground arith

run-apis :
    (lines : List Text) (c c' : Conformance)
    → run_lines api_step lines c ≡ (true, c')
    → c' ≡ record c { apis = c.apis ++ map api_of lines }
unfolding run_lines
run-apis [] c c' h = sym (ap (λ r. r.1) h) ∙ rw (append-nil c.apis) refl
run-apis (line ∷ lines) c c' h =
    let c1 = (api_step line c).1 in
    let (first, later) = run_rest-true (run_lines api_step lines) (api_step line c) c' h in
    let one = add_api-next line c c1 (settled-true (add_api (split_fields line 5) c) c c1 first) in
    run-apis lines c1 c' later
    ∙ ap (λ (x : Conformance). record x { apis = x.apis ++ map api_of lines }) one
    ∙ rw (append_assoc c.apis (api_of line ∷ []) (map api_of lines)) refl

-- A mark of the function that an identity belongs to.
abbrev flag : (ApiRecord → Bool) → Option ApiRecord → Bool
flag get none = false
flag get (some api) = get api

abbrev pub is_tested : Text → Conformance → Bool
is_tested usr c = flag (λ api. api.tested) (find_api usr c.apis)

abbrev pub is_fault_test : Text → Conformance → Bool
is_fault_test usr c = flag (λ api. api.fault_test) (find_api usr c.apis)

-- Some row gives the identity and has a kind of interest.
unfoldable pub named : (Text → Bool) → Text → List Text → Bool
named hit usr [] = false
named hit usr (line ∷ lines) =
    let fields = split_fields line 4 in
    (text_eq (get_or fields 1 []) usr && hit (get_or fields 2 [])) || named hit usr lines

abbrev test_step : Text → Conformance → Bool × Conformance
test_step line c = settled (add_test (split_fields line 4) c) c

find_api-update_same :
    (usr kind : Text) (apis : List ApiRecord) (api : ApiRecord)
    → find_api usr apis ≡ some api
    → find_api usr (update_first (has_usr usr) (mark_tested kind) apis)
      ≡ some (mark_tested kind api)
unfolding find_first update_first
find_api-update_same usr kind [] api h = absurd (cc)
find_api-update_same usr kind (x ∷ apis) api h = elim (Bool-cases (has_usr usr x)) [
  | inl e ↦
      let same : x ≡ api = ground arith in
      rw (e, find_first, e) (ap (λ a. some (mark_tested kind a)) same)
  | inr e ↦
      let later : find_api usr apis ≡ some api = ground arith in
      rw (e, find_first, e) (find_api-update_same usr kind apis api later)
]

find_api-update_other :
    (usr usr' kind : Text) (apis : List ApiRecord)
    → text_eq usr usr' ≡ false
    → find_api usr' (update_first (has_usr usr) (mark_tested kind) apis) ≡ find_api usr' apis
unfolding find_first update_first
find_api-update_other usr usr' kind [] h = refl
find_api-update_other usr usr' kind (x ∷ apis) h = elim (Bool-cases (has_usr usr x)) [
  | inl e ↦
      let other : text_eq x.usr usr' ≡ false = rw (text_eq→eq x.usr usr e) h in
      rw (e, find_first, other) refl
  | inr e ↦ rw (e, find_first, find_api-update_other usr usr' kind apis h) refl
]

test_api-next :
    (usr kind : Text) (c c' : Conformance) (found : Option ApiRecord)
    → find_api usr c.apis ≡ found
    → test_api usr kind c found ≡ next c'
    → (api : ApiRecord) × (find_api usr c.apis ≡ some api)
      × (c'.apis ≡ update_first (has_usr usr) (mark_tested kind) c.apis)
unfolding test_api
test_api-next usr kind c c' none e h = absurd (cc)
test_api-next usr kind c c' (some api) e h = (api, e, ground arith)

add_test-next :
    (line : Text) (c c' : Conformance)
    → add_test (split_fields line 4) c ≡ next c'
    → let fields = split_fields line 4 in
      (api : ApiRecord) × (find_api (get_or fields 1 []) c.apis ≡ some api)
      × (c'.apis
          ≡ update_first (has_usr (get_or fields 1 [])) (mark_tested (get_or fields 2 [])) c.apis)
unfolding add_test
add_test-next line c c' h =
    let fields = split_fields line 4 in
    test_api-next (get_or fields 1 []) (get_or fields 2 []) c c' _ refl (ground arith)

flag-update :
    (get : ApiRecord → Bool) (hit : Text → Bool)
    → ((kind : Text) (api : ApiRecord) → get (mark_tested kind api) ≡ (hit kind || get api))
    → (v usr kind : Text) (apis : List ApiRecord) (api : ApiRecord) → find_api v apis ≡ some api
    → flag get (find_api usr (update_first (has_usr v) (mark_tested kind) apis))
      ≡ ((text_eq v usr && hit kind) || flag get (find_api usr apis))
flag-update get hit law v usr kind apis api found = elim (Bool-cases (text_eq v usr)) [
  | inl e ↦
      rw (← (text_eq→eq v usr e), find_api-update_same v kind apis api found, found, text_eq_refl v)
        (law kind api)
  | inr e ↦ rw (e, find_api-update_other v usr kind apis e) refl
]

run-flag :
    (get : ApiRecord → Bool) (hit : Text → Bool)
    → ((kind : Text) (api : ApiRecord) → get (mark_tested kind api) ≡ (hit kind || get api))
    → (usr : Text) (lines : List Text) (c c' : Conformance)
    → run_lines test_step lines c ≡ (true, c')
    → flag get (find_api usr c'.apis) ≡ (named hit usr lines || flag get (find_api usr c.apis))
unfolding run_lines named
run-flag get hit law usr [] c c' h =
    ap (λ (r : Bool × Conformance). flag get (find_api usr r.1.apis)) (sym h)
run-flag get hit law usr (line ∷ lines) c c' h =
    let fields = split_fields line 4 in
    let v = get_or fields 1 [] in
    let kind = get_or fields 2 [] in
    let c1 = (test_step line c).1 in
    let (first, later) = run_rest-true (run_lines test_step lines) (test_step line c) c' h in
    let (api, found, marked) =
      add_test-next line c c1 (settled-true (add_test fields c) c c1 first) in
    let ih = run-flag get hit law usr lines c1 c' later in
    let one : flag get (find_api usr c1.apis)
        ≡ ((text_eq v usr && hit kind) || flag get (find_api usr c.apis)) =
      rw marked (flag-update get hit law v usr kind c.apis api found) in
    ground (arith, ih, one)

module _ (S : System) where
  open S use {World, Stream, lines_left}

  settle-settled :
      (line : Line) (c : Conformance) (s : State World) → (settle S line c s).0 ≡ settled line c
  settle-settled (next c') c s = refl
  settle-settled (bad failure) c s = refl

  behind_header-step :
      (body : Text → Conformance → M World (Bool × Conformance))
      (step : Text → Conformance → Bool × Conformance)
      → ((line : Text) (c : Conformance) (s : State World) → (body line c s).0 ≡ step line c)
      → (line : Text) (a : Bool × Conformance) (s : State World)
      → (behind_header S body line a s).0 ≡ header_step step line a
  behind_header-step body step same line (true, c) s = refl
  behind_header-step body step same line (false, c) s =
      ap (λ (r : Bool × Conformance). (r.0, (false, r.1))) (same line c s)

  -- The lines that the loop of a manifest reads behind the first.
  abbrev pub rows_read :
      (Text → Conformance → M World (Bool × Conformance))
      → Stream
      → Conformance
      → State World
      → List Text
  rows_read body stream c s =
      drop 1
        (lines_read S (suc (lines_left stream s.world)) stream (behind_header S body) (true, c) s)

  rows-run :
      (body : Text → Conformance → M World (Bool × Conformance))
      (step : Text → Conformance → Bool × Conformance)
      → ((line : Text) (c : Conformance) (s : State World) → (body line c s).0 ≡ step line c)
      → (stream : Stream) (c : Conformance) (r : Bool × Conformance) (s : State World)
      → (read_all S stream (behind_header S body) (true, c) s).0 ≡ (true, r)
      → run_lines step (rows_read body stream c s) c ≡ (true, r.1)
  rows-run body step same stream c r s h = run-header step _ c r (
      read_all-run S (behind_header S body) (header_step step) (behind_header-step body step same)
        stream (true, c) r s h)

  -- A loop of load_api_manifest that ends without a failure adds the functions of the rows behind the first
  -- line, in order, with their names and identities and without any mark, and changes nothing else.
  pub load_api_manifest-rows :
      (stream : Stream) (c : Conformance) (r : Bool × Conformance) (s : State World)
      → (read_all S stream (behind_header S (api_line S)) (true, c) s).0 ≡ (true, r)
      → r.1 ≡ record c { apis = c.apis ++ map api_of (rows_read (api_line S) stream c s) }
  load_api_manifest-rows stream c r s h = run-apis _ c r.1 (
      rows-run (api_line S) api_step
        (λ line c s. settle-settled (add_api (split_fields line 5) c) c s) stream c r s h)

  -- A loop of load_test_manifest that ends without a failure marks as tested exactly the functions whose
  -- identity a row behind the first line gives, and as fault tests those with a row of the kind "fault", and
  -- keeps the marks that were there.
  pub load_test_manifest-marks :
      (stream : Stream) (c : Conformance) (r : Bool × Conformance) (s : State World) (usr : Text)
      → (read_all S stream (behind_header S (test_line S)) (true, c) s).0 ≡ (true, r)
      → let rows = rows_read (test_line S) stream c s in
        (is_tested usr r.1 ≡ (named (λ kind. true) usr rows || is_tested usr c))
        × (is_fault_test usr r.1
            ≡ (named (λ kind. text_eq kind (codes "fault")) usr rows || is_fault_test usr c))
  load_test_manifest-marks stream c r s usr h =
      let run =
        rows-run (test_line S) test_step
          (λ line c s. settle-settled (add_test (split_fields line 4) c) c s) stream c r s h in
      (
        run-flag (λ a. a.tested) (λ kind. true) (λ kind a. refl) usr _ c r.1 run,
        run-flag (λ a. a.fault_test) (λ kind. text_eq kind (codes "fault")) (λ kind a. ground arith)
            usr _ c r.1 run,
      )
