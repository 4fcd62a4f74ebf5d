-- ===== src/Mutation/Compile/Filter.antt =====
-- The options that the copied command of components/mutation/src/execution.c keeps.
use p101_test.Base.{
  ◌≡◌, refl, sym, ◌∙◌, Text, codes, Bool, true, false, ◌||◌, Option, List, [], ◌∷◌, ◌++◌,
  if◌then◌else◌, if_cases, inl, inr, Bool-cases, All, text_eq, State, M, ◌>>=◌, return,
  has_failures, has_error, arith,
}
use p101_test.System.{System}
use p101_test.Mutation.Paths.{rewrite_path}
use p101_test.Mutation.Compile.{
  compile_option_takes_value, is_compile_output_option, copy_arguments,
}

-- An argument that does not reach the copy.
unfoldable pub is_dropped : Text → Bool
is_dropped value =
    text_eq value (codes "-c") || compile_option_takes_value value || is_compile_output_option value

-- The arguments that reach it; the first one is a dropped option's value when `skip` says so.
unfoldable pub kept : Bool → List Text → List Text
kept skip [] = []
kept true (value ∷ values) = kept false values
kept false (value ∷ values) =
    let rest = kept false values in
    let rest_skipped = kept true values in
    if text_eq value (codes "-c")
    then rest
    else if compile_option_takes_value value
    then rest_skipped
    else if is_compile_output_option value
    then rest
    else value ∷ rest

-- No dropped argument is among those kept.
pub kept-All :
    (skip : Bool) (values : List Text) → All (λ v. is_dropped v ≡ false) (kept skip values)
unfolding kept is_dropped
kept-All skip [] = tt
kept-All true (value ∷ values) = kept-All false values
kept-All false (value ∷ values) =
    if_cases (All (λ v. is_dropped v ≡ false)) (text_eq value (codes "-c"))
      (λ e. kept-All false values)
      (λ e.
        if_cases (All (λ v. is_dropped v ≡ false)) (compile_option_takes_value value)
          (λ e'. kept-All true values)
          (λ e'.
            if_cases (All (λ v. is_dropped v ≡ false)) (is_compile_output_option value)
              (λ e''. kept-All false values)
              (λ e''. (rw (e, e', e'') refl, kept-All false values))))

-- Arguments of which none is dropped are all kept, in front of what the rest keeps.
pub kept-append :
    (pre post : List Text)
    → All (λ v. is_dropped v ≡ false) pre
    → kept false (pre ++ post) ≡ pre ++ kept false post
unfolding kept is_dropped
kept-append [] post h = refl
kept-append (value ∷ pre) post (h, hs) = ground (arith, kept-append pre post hs)

-- `-c` goes alone, an output option alone, and an option with its value apart takes the value with it.
pub kept-output :
    (option file : Text) (pre post : List Text)
    → All (λ v. is_dropped v ≡ false) pre
    → compile_option_takes_value option ≡ true
    → text_eq option (codes "-c") ≡ false
    → kept false (pre ++ (option ∷ file ∷ post)) ≡ pre ++ kept false post
unfolding kept
kept-output option file pre post h takes differs =
    kept-append pre (option ∷ file ∷ post) h ∙ rw (differs, takes) refl

module _ (S : System) (project copy : Text) where
  open S use {World}

  -- Each argument rewritten in turn, until a failure.
  unfoldable pub rewrite_all : List Text → M World (List (Option Text))
  rewrite_all [] = return []
  rewrite_all (value ∷ values) = do
    failed ← has_error
    let rest = rewrite_all values
    if failed then return [] else do
      argument ← rewrite_path S project copy value
      arguments ← rest
      return (argument ∷ arguments)

  rewrite_all-failed :
      (values : List Text) (s : State World)
      → has_failures s.raised ≡ true
      → rewrite_all values s ≡ ([], s)
  unfolding rewrite_all
  rewrite_all-failed [] s e = refl
  rewrite_all-failed (value ∷ values) s e = rw e refl

  nothing : (s : State World) → ([], s) ≡ rewrite_all [] s
  unfolding rewrite_all
  nothing s = refl

  one_more :
      {rest : M World (List (Option Text))} (value : Text) (values : List Text) (s : State World)
      → has_failures s.raised ≡ false
      → ((t : State World) → rest t ≡ rewrite_all values t)
      → (rewrite_path S project copy value >>= λ argument.
            rest >>= λ arguments. return (argument ∷ arguments))
          s
        ≡ rewrite_all (value ∷ values) s
  unfolding rewrite_all
  one_more value values s quiet h = rw (quiet, h)

  -- The loop that drops options as it copies is the rewriting of the arguments that are kept.
  pub copy_arguments-kept :
      (skip : Bool) (values : List Text) (s : State World)
      → copy_arguments S project copy skip values s ≡ rewrite_all (kept skip values) s
  unfolding copy_arguments kept
  copy_arguments-kept skip [] s = nothing s
  copy_arguments-kept true (value ∷ values) s = copy_arguments-kept false values s
  copy_arguments-kept false (value ∷ values) s = elim (Bool-cases (has_failures s.raised)) [
    | inl failed ↦ rw failed (sym (rewrite_all-failed (kept false (value ∷ values)) s failed))
    | inr quiet ↦ elim (Bool-cases (text_eq value (codes "-c"))) [
      | inl e ↦ rw (quiet, e) (copy_arguments-kept false values s)
      | inr e ↦ elim (Bool-cases (compile_option_takes_value value)) [
        | inl e' ↦ rw (quiet, e, e') (copy_arguments-kept true values s)
        | inr e' ↦ elim (Bool-cases (is_compile_output_option value)) [
          | inl e'' ↦ rw (quiet, e, e', e'') (copy_arguments-kept false values s)
          | inr e'' ↦
              rw (quiet, e, e', e'')
                (one_more value (kept false values) s quiet
                  (λ t. copy_arguments-kept false values t))
        ]
      ]
    ]
  ]
