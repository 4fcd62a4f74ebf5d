-- ===== src/Mutation/Paths/Rewrite.antt =====
-- Which paths `p101_mutation_rewrite_path` of components/mutation/src/files.c moves, and where.
use p101_test.Base.{
  ℕ, ◌+◌, ◌<◌, ◌≡◌, ◌≢◌, ◌↔◌, refl, sym, ap, subst, ◌∙◌, Text, Bool, true, false, ◌&&◌, ◌||◌, none,
  some, [], ◌∷◌, ◌++◌, leb, ◌==◌, ◌⊎◌, inl, inr, Bool-cases, All, length, length-append, drop,
  drop-length_append, get_or, has_prefix-append, has_prefix→append, State, arith,
}
use p101_test.System.{System}
use p101_test.Mutation.Candidates.{copy_text}
use p101_test.Mutation.Paths.{slash, is_in_project, moved, rewrite_canonical, rewrite_path}

abbrev pub HasNoNul : Text → Type 0
HasNoNul t = All (λ c. c ≢ 0) t

-- What may stand behind the project in the name of a file of it.
abbrev pub AtBoundary : Text → Type 0
AtBoundary suffix = (suffix ≡ []) ⊎ ((rest : Text) × (suffix ≡ slash ∷ rest))

-- The canonical path is the project or below it.
pub record Inside (project canonical : Text) : Type 0 where
  pub suffix : Text
  pub split : canonical ≡ project ++ suffix
  pub boundary : AtBoundary suffix

get_or-append : (p s : Text) → get_or (p ++ s) (length p) 0 ≡ get_or s 0 0
get_or-append [] s = refl
get_or-append (c ∷ p) s = get_or-append p s

HasNoNul-append : (p s : Text) → HasNoNul (p ++ s) → HasNoNul s
HasNoNul-append [] s h = h
HasNoNul-append (c ∷ p) s (h, hs) = HasNoNul-append p s hs

boundary-test :
    (s : Text) → HasNoNul s → ((get_or s 0 0 == slash) || (get_or s 0 0 == 0)) ≡ true → AtBoundary s
boundary-test [] h e = inl refl
boundary-test (c ∷ s) (h, hs) e = inr (s, ap (λ d. d ∷ s) (ground arith))

test-boundary : (s : Text) → AtBoundary s → ((get_or s 0 0 == slash) || (get_or s 0 0 == 0)) ≡ true
test-boundary s (inl e) = rw e refl
test-boundary s (inr (rest, e)) = rw e refl

three : (a b c : Bool) → (a && b && c) ≡ true → (b ≡ true) × (c ≡ true)
three a b c h = ground arith

-- A canonical path, which has no NUL in it, is in the project exactly when it is the project or the
-- project followed by a '/': a sibling whose name starts with the project's is not.
pub is_in_project-Inside :
    (project canonical : Text)
    → HasNoNul canonical
    → (is_in_project project canonical ≡ true) ↔ Inside project canonical
unfolding is_in_project
is_in_project-Inside project canonical h = (forward, back)
  where
    forward : is_in_project project canonical ≡ true → Inside project canonical
    forward e =
        let (prefix, test) = three (leb (length project) (length canonical)) _ _ e in
        let split = has_prefix→append canonical project prefix in
        let suffix = drop (length project) canonical in
        record {
          suffix = suffix;
          split = split;
          boundary =
              boundary-test suffix (HasNoNul-append project suffix (subst HasNoNul split h)) (
                sym (
                  ap (λ c. (c == slash) || (c == 0))
                    (ap (λ t. get_or t (length project) 0) split ∙ get_or-append project suffix))
                ∙ test);
        }

    back : Inside project canonical → is_in_project project canonical ≡ true
    back i =
        rw
          (
            i.split,
            get_or-append project i.suffix,
            test-boundary i.suffix i.boundary,
            has_prefix-append project i.suffix,
            length-append project i.suffix,
          )
          (ground arith)

drop-suffix :
    (project canonical : Text) (i : Inside project canonical)
    → drop (length project) canonical ≡ i.suffix
drop-suffix project canonical i =
    ap (drop (length project)) i.split ∙ drop-length_append project i.suffix

module _ (S : System) where
  open S use {World}

  -- There is memory, and `snprintf` leaves a text that fits.
  pub record HasRoom : Type 0 where
    pub allocate_lem : (n : ℕ) (w : World) → (S.allocate n w).0 ≡ true
    pub snprintf_lem : (n : ℕ) (t : Text) (w : World) → length t < n → (S.snprintf n t w).0.1 ≡ t

  module _ (R : HasRoom) where
    copy_text_lem : (text : Text) (s : State World) → (copy_text S text s).0 ≡ some text
    unfolding copy_text
    copy_text_lem text s = rw (R.allocate_lem (length text + 1) s.world) refl

    moved_lem :
        (copy suffix : Text) (s : State World)
        → (moved S copy suffix true s).0 ≡ some (copy ++ suffix)
    unfolding moved
    moved_lem copy suffix s = ap some (
        R.snprintf_lem (length copy + length suffix + 1) (copy ++ suffix) s.world
          (rw (length-append copy suffix) (omega arith)))

    module _ (project copy value : Text) (s : State World) where
      -- An absolute path whose canonical form is in the project moves to the same place below the copy.
      pub rewrite_path-inside :
          (canonical : Text) (i : Inside project canonical)
          → HasNoNul canonical
          → (get_or value 0 0 == slash) ≡ true
          → (S.realpath value s.world).0 ≡ some canonical
          → (rewrite_path S project copy value s).0 ≡ some (copy ++ i.suffix)
      unfolding rewrite_path rewrite_canonical
      rewrite_path-inside canonical i clean absolute resolved =
          rw
            (
              absolute,
              resolved,
              (is_in_project-Inside project canonical clean).1 i,
              drop-suffix project canonical i,
              R.allocate_lem,
            )
            (moved_lem copy i.suffix (record s { world = _ }))

      -- An absolute path whose canonical form is outside the project is left as it was.
      pub rewrite_path-outside :
          (canonical : Text)
          → ¬ Inside project canonical
          → HasNoNul canonical
          → (get_or value 0 0 == slash) ≡ true
          → (S.realpath value s.world).0 ≡ some canonical
          → (rewrite_path S project copy value s).0 ≡ some value
      unfolding rewrite_path rewrite_canonical
      rewrite_path-outside canonical h clean absolute resolved =
          elim (Bool-cases (is_in_project project canonical)) [
            | inl e ↦ absurd (h ((is_in_project-Inside project canonical clean).0 e))
            | inr e ↦ rw (absolute, resolved, e) (copy_text_lem value (record s { world = _ }))
          ]

      -- A relative path, and a path without a canonical form, is left as it was.
      pub rewrite_path-plain :
          ((get_or value 0 0 == slash) ≡ false) ⊎ ((S.realpath value s.world).0 ≡ none)
          → (rewrite_path S project copy value s).0 ≡ some value
      unfolding rewrite_path rewrite_canonical
      rewrite_path-plain (inl relative) = rw relative (copy_text_lem value s)
      rewrite_path-plain (inr missing) = elim (Bool-cases (get_or value 0 0 == slash)) [
        | inl e ↦ rw (e, missing) (copy_text_lem value (record s { world = _ }))
        | inr e ↦ rw e (copy_text_lem value s)
      ]
