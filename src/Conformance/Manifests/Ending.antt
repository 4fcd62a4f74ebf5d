-- ===== src/Conformance/Manifests/Ending.antt =====
-- The loops over the manifests and the headers in components/conformance/src/main.c end.
use p101_test.Base.{
  ℕ, suc, ◌<◌, ◌≡◌, inl, inr, refl, subst, sym, Text, Bool, true, false, some, State, M, call,
  Option-cases, arith,
}
use p101_test.System.{System}
use p101_test.Conformance.Types.{Conformance, max_line}
use p101_test.Conformance.Fields.{split_fields}
use p101_test.Conformance.Lines.{
  Line, next, bad, settle, behind_header, look_for_macro, read_lines, read_all,
}
use p101_test.Conformance.Lines.Termination.{RoundsFall, read_lines_total}
use p101_test.Conformance.Manifests.{
  add_api, add_test, add_contract, api_line, test_line, contract_line,
}

module _ (S : System) where
  open S use {World, Stream, fgets, lines_left}

  -- `fgets` that gives a line leaves fewer lines in its file.
  abbrev pub IsFinite : Stream → Type 0
  IsFinite stream =
      (w : World) (line : Text)
      → (fgets max_line stream w).0 ≡ some line
      → lines_left stream (fgets max_line stream w).2 < lines_left stream w

  settle-world : (l : Line) (c : Conformance) (s : State World) → (settle S l c s).1.world ≡ s.world
  settle-world (next c') c s = refl
  settle-world (bad failure) c s = refl

  quiet-RoundsFall :
      {A : Type 0} (stream : Stream) (body : Text → A → M World (Bool × A))
      → ((line : Text) (a : A) (s : State World) → (body line a s).1.world ≡ s.world)
      → IsFinite stream
      → RoundsFall S stream body
  quiet-RoundsFall stream body quiet finite a s line e =
      let behind = (call (fgets max_line stream) s).1 in
      subst (λ w. lines_left stream w < lines_left stream s.world) (sym (quiet line a behind))
        (finite s.world line e)

  behind_header-world :
      (body : Text → Conformance → M World (Bool × Conformance))
      → ((line : Text) (c : Conformance) (s : State World) → (body line c s).1.world ≡ s.world)
      → (line : Text) (c : Bool × Conformance) (s : State World)
      → (behind_header S body line c s).1.world ≡ s.world
  behind_header-world body quiet line (true, c) s = refl
  behind_header-world body quiet line (false, c) s = quiet line c s

  -- The loop comes to a result, and this is what the program goes on with: no round is missing.
  abbrev pub Ends : {A : Type 0} → Stream → (Text → A → M World (Bool × A)) → Type 0
  Ends {A} stream body =
      (a : A) (s : State World)
      → (r : Bool × A) × ((read_lines S (suc (lines_left stream s.world)) stream body a s).0
          ≡ some r)
        × ((read_all S stream body a s).0 ≡ r)

  quiet-Ends :
      {A : Type 0} (stream : Stream) (body : Text → A → M World (Bool × A))
      → ((line : Text) (a : A) (s : State World) → (body line a s).1.world ≡ s.world)
      → IsFinite stream
      → Ends stream body
  unfolding read_all
  quiet-Ends stream body quiet finite a s =
      elim (Option-cases (read_lines S (suc (lines_left stream s.world)) stream body a s).0) [
        | inl e ↦ absurd (
            read_lines_total S stream body (quiet-RoundsFall stream body quiet finite)
              (suc (lines_left stream s.world)) a s (omega arith) e)
        | inr (r, e) ↦ (r, e, rw e refl)
      ]

  manifest-Ends :
      (stream : Stream) (line_of : Text → Conformance → Line)
      → IsFinite stream
      → Ends stream (behind_header S (λ line c. settle S (line_of line c) c))
  manifest-Ends stream line_of finite =
      quiet-Ends stream (behind_header S (λ line c. settle S (line_of line c) c))
        (behind_header-world (λ line c. settle S (line_of line c) c)
          (λ line c s. settle-world (line_of line c) c s))
        finite

  -- If each `fgets` that gives a line leaves fewer lines in the file, the loops over the manifests of functions,
  -- of tests and of contracts, and the loop that looks for a macro in a header, come to a result within a
  -- round for each line that is left and one for the end, and the program goes on with this result, whatever
  -- the lines are.
  pub manifest_loops-Ends :
      (stream : Stream)
      → IsFinite stream
      → Ends stream (behind_header S (api_line S))
        × Ends stream (behind_header S (test_line S))
        × Ends stream (behind_header S (contract_line S))
        × ((n : ℕ) (expected : Text) → Ends stream (look_for_macro S n expected))
  manifest_loops-Ends stream finite = (
    manifest-Ends stream (λ line c. add_api (split_fields line 5) c) finite,
    manifest-Ends stream (λ line c. add_test (split_fields line 4) c) finite,
    manifest-Ends stream (λ line c. add_contract (split_fields line 4) c) finite,
    λ n expected. quiet-Ends stream (look_for_macro S n expected) (λ line a s. refl) finite,
  )
