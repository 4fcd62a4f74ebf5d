-- ===== src/Faults/Cli/Checks.antt =====
-- Which arguments `p101_error_path_walk_check_arguments` accepts (src/cli.c).
use native.Mathlib.Omega.{arith}
use p101_test.Base.{
  ℕ, Text, Bool, true, false, ◌&&◌, Option, none, some, List, [], ◌∷◌, if◌then◌else◌, ◌≡◌, refl,
  inl, inr, ◌↔◌, Bool-cases, Option-cases, text_eq, State, has_failures, ap, subst, sym, ◌∙◌,
}
use p101_test.System.{System}
use p101_test.Faults.Types.{Arguments}
use p101_test.Faults.Library.{FaultLibrary}
use p101_test.Faults.Cli.{
  required_text_missing, is_empty, no_command, needs_name, is_missing, check_mode, first_problem,
  raise_problem, check_arguments,
}

pub record IsAccepted (L : FaultLibrary) (args : Arguments) : Type 0 where
  pub command : (word : Text) × (words : List Text) × (args.command_argv ≡ some (word ∷ words))
  pub prefix : ¬ (args.log_prefix ≡ some [])
  pub pipeline : (code : ℕ) × (rest : Text) × (args.p101_run ≡ some (code ∷ rest))
  pub observer : (code : ℕ) × (rest : Text) × (args.p101_observe ≡ some (code ∷ rest))
  pub name : ¬ (args.fault_name ≡ some [])
  pub mode :
      (m : L.FaultMode) × (L.fault_mode_from_name args.fault_mode ≡ some m)
      × (needs_name L m ≡ true → ¬ (args.fault_name ≡ none))

no_command-false :
    (a : Option (List Text))
    → no_command a ≡ false
    → (word : Text) × (words : List Text) × (a ≡ some (word ∷ words))
no_command-false none e = ground arith
no_command-false (some []) e = ground arith
no_command-false (some (word ∷ words)) e = (word, words, refl)

is_empty-false : (t : Option Text) → is_empty t ≡ false → ¬ (t ≡ some [])
unfolding text_eq
is_empty-false none e = λ p. ground arith
is_empty-false (some []) e = ground arith
is_empty-false (some (c ∷ t)) e = λ p. ground arith

required_text_missing-false :
    (t : Option Text)
    → required_text_missing t ≡ false
    → (code : ℕ) × (rest : Text) × (t ≡ some (code ∷ rest))
unfolding required_text_missing text_eq
required_text_missing-false none e = ground arith
required_text_missing-false (some []) e = ground arith
required_text_missing-false (some (c ∷ t)) e = (c, t, refl)

is_empty-back : (t : Option Text) → ¬ (t ≡ some []) → is_empty t ≡ false
unfolding text_eq
is_empty-back none h = refl
is_empty-back (some []) h = ground arith
is_empty-back (some (c ∷ t)) h = refl

is_missing-back : (t : Option Text) → ¬ (t ≡ none) → is_missing t ≡ false
is_missing-back none h = ground arith
is_missing-back (some t) h = refl

-- A chain of checks finds nothing when this one and the later ones do not.
first_none :
    (b : Bool) (m : Text) {o : Option Text}
    → (if b then some m else o) ≡ none
    → (b ≡ false) × (o ≡ none)
first_none true m p = ground arith
first_none false m p = (refl, p)

module _ (L : FaultLibrary) where
  ModeHolds : Arguments → Option L.FaultMode → Type 0
  ModeHolds args o =
      (m : L.FaultMode) × (o ≡ some m) × (needs_name L m ≡ true → ¬ (args.fault_name ≡ none))

  check_mode-none :
      (args : Arguments) (o : Option L.FaultMode) → check_mode L args o ≡ none → ModeHolds args o
  unfolding check_mode ModeHolds
  check_mode-none args none p = ground arith
  check_mode-none args (some m) p = (m, refl, λ needed missing. missing_name needed missing)
    where
      missing_name : needs_name L m ≡ true → ¬ (args.fault_name ≡ none)
      missing_name needed missing =
          let h = (first_none (needs_name L m && is_missing args.fault_name) _ p).0 in
          subst (λ b. ¬ (b ≡ false))
            (sym (ap (λ b. b && is_missing args.fault_name) needed ∙ ap is_missing missing))
            (λ e. ground arith) h

  check_mode-back :
      (args : Arguments) (o : Option L.FaultMode) → ModeHolds args o → check_mode L args o ≡ none
  unfolding check_mode ModeHolds
  check_mode-back args o (m, p, h) = rw p (elim (Bool-cases (needs_name L m)) [
    | inl e ↦ rw (is_missing-back args.fault_name (h e)) (ground arith)
    | inr e ↦ rw e refl
  ])

  first_problem-none : (args : Arguments) → first_problem L args ≡ none → IsAccepted L args
  unfolding first_problem ModeHolds
  first_problem-none args p =
      let (command, p1) = first_none (no_command args.command_argv) _ p in
      let (prefix, p2) = first_none (is_empty args.log_prefix) _ p1 in
      let (pipeline, p3) = first_none (required_text_missing args.p101_run) _ p2 in
      let (observer, p4) = first_none (required_text_missing args.p101_observe) _ p3 in
      let (name, p5) = first_none (is_empty args.fault_name) _ p4 in
      record {
        command = no_command-false _ command;
        prefix = is_empty-false _ prefix;
        pipeline = required_text_missing-false _ pipeline;
        observer = required_text_missing-false _ observer;
        name = is_empty-false _ name;
        mode = check_mode-none args _ p5;
      }

  first_problem-back : (args : Arguments) → IsAccepted L args → first_problem L args ≡ none
  unfolding first_problem required_text_missing text_eq ModeHolds
  first_problem-back args a =
      let (word, words, command) = a.command in
      let (c, rest, pipeline) = a.pipeline in
      let (d, rest', observer) = a.observer in
      rw
        (
          command,
          is_empty-back args.log_prefix a.prefix,
          pipeline,
          observer,
          is_empty-back args.fault_name a.name,
        )
        (check_mode-back args _ a.mode)

impossible {ℓ} : {P : Type ℓ} (message : Text) → some message ≡ none → P
impossible message e = ground arith

module _ (S : System) (L : FaultLibrary) where
  -- For an error object that holds no failure, the checks leave none exactly when the arguments are
  -- acceptable. They call nothing.
  pub check_arguments_lem :
      (args : Arguments) (s : State S.World)
      → s.raised ≡ []
      → ((has_failures (check_arguments S L args s).1.raised ≡ false) ↔ IsAccepted L args)
        × ((check_arguments S L args s).1.world ≡ s.world)
  unfolding check_arguments raise_problem
  check_arguments_lem args s clean = elim (Option-cases (first_problem L args)) [
    | inl none_found ↦ (
      (λ quiet. first_problem-none L args none_found, λ a. rw (none_found, clean) refl),
      rw none_found refl,
    )
    | inr (message, found) ↦ (
      (
        λ quiet. noisy message found quiet,
        λ a. impossible message (sym found ∙ first_problem-back L args a),
      ),
      rw found refl,
    )
  ]
    where
      noisy :
          (message : Text)
          → first_problem L args ≡ some message
          → has_failures (raise_problem S L (first_problem L args) s).1.raised ≡ false
          → IsAccepted L args
      noisy message found quiet = ground arith
