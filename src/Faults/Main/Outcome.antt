-- ===== src/Faults/Main/Outcome.antt =====
-- When `main` of src/main.c ends without EXIT_TROUBLE.
use native.Mathlib.Omega.{arith}
use p101_test.Base.{
  ℕ, Text, Bool, true, false, not, ◌&&◌, List, [], ◌∷◌, if◌then◌else◌, ◌≤◌, ◌≡◌, refl, ◌⊎◌, inl,
  inr, Bool-cases, get_or, ◌==◌, Failure, State, M, has_failures, ap, subst, sym, ◌∙◌,
}
use p101_test.System.{System}
use p101_test.Faults.Types.{Arguments, exit_success, exit_trouble}
use p101_test.Faults.Library.{FaultLibrary}
use p101_test.Faults.Cli.{initial_arguments, parse_arguments, check_arguments}
use p101_test.Faults.Cli.Checks.{IsAccepted, check_arguments_lem}
use p101_test.Faults.Cli.Convert.{convert_arguments}
use p101_test.Faults.Cli.Convert.Numbers.{Conversion, convert_arguments-Conversion}
use p101_test.Faults.Cli.Parse.{parse_arguments_keeps}
use p101_test.Faults.Limits.{max_failures_limit}
use p101_test.Faults.Campaign.{run}
use p101_test.Faults.Main.{unless_failed, converted, checked, help, parsed, main_body, finish, main}

has_failures-false : (fs : List Failure) → has_failures fs ≡ false → fs ≡ []
has_failures-false [] e = refl
has_failures-false (f ∷ fs) e = ground arith

module _ (S : System) (L : FaultLibrary) where
  open S use {World}

  Quiet : State World → Type 0
  Quiet s = has_failures s.raised ≡ false

  IsTrouble : M World ℕ → State World → Type 0
  IsTrouble m s = (m s).0 ≡ exit_trouble

  -- The campaign ran on accepted and converted arguments, and gives the status.
  pub record Ran (args : Arguments) (status : ℕ) : Type 0 where
    pub accepted : IsAccepted L args
    pub numbers : Arguments
    pub conversion : Conversion L args numbers
    pub start : State World
    pub campaign : status ≡ (run S L numbers start).0

  unless_failed_lem :
      (next : M World ℕ) (s : State World)
      → ¬ IsTrouble (unless_failed S L next) s
      → Quiet s × (unless_failed S L next s ≡ next s)
  unfolding unless_failed Quiet IsTrouble
  unless_failed_lem next s h = elim (Bool-cases (has_failures s.raised)) [
    | inl e ↦ absurd (h (rw e refl))
    | inr e ↦ (e, rw e refl)
  ]

  finish_lem :
      (program : Text) (status : ℕ) (raised : List Failure) (s : State World)
      → ¬ ((finish S L program status raised s).0 ≡ exit_trouble)
      → (raised ≡ []) × ((finish S L program status raised s).0 ≡ status)
  unfolding finish
  finish_lem program status [] s h = (refl, refl)
  finish_lem program status (f ∷ fs) s h = absurd (h refl)

  converted_lem :
      (args : Arguments) (s : State World)
      → IsAccepted L args
      → args.max_failures ≤ max_failures_limit
      → Quiet s
      → ¬ IsTrouble (converted S L args) s
      → Ran args (converted S L args s).0
  unfolding converted IsTrouble Quiet
  converted_lem args s accepted bounded clean h =
      let ended = convert_arguments S L args s in
      let (quiet, p) = unless_failed_lem (run S L ended.0) ended.1 h in
      record {
        accepted = accepted;
        numbers = ended.0;
        conversion = convert_arguments-Conversion S L args s bounded clean quiet;
        start = ended.1;
        campaign = ap (λ r. r.0) p;
      }

  checked_lem :
      (args : Arguments) (s : State World)
      → args.max_failures ≤ max_failures_limit
      → Quiet s
      → ¬ IsTrouble (checked S L args) s
      → Ran args (checked S L args s).0
  unfolding checked IsTrouble Quiet
  checked_lem args s bounded clean h =
      let ended = check_arguments S L args s in
      let (quiet, p) = unless_failed_lem (converted S L args) ended.1 h in
      let ran =
        converted_lem args ended.1
          ((check_arguments_lem S L args s (has_failures-false s.raised clean)).0.0 quiet) bounded
          quiet (λ e. h (ap (λ r. r.0) p ∙ e)) in
      subst (Ran args) (sym (ap (λ r. r.0) p)) ran

  parsed_lem :
      (program : Text) (args : Arguments) (s : State World)
      → args.max_failures ≤ max_failures_limit
      → ¬ IsTrouble (parsed S L program (has_failures s.raised) args) s
      → ((args.show_help ≡ true)
          × ((parsed S L program (has_failures s.raised) args s).0 ≡ exit_success))
        ⊎ Ran args (parsed S L program (has_failures s.raised) args s).0
  unfolding parsed IsTrouble Quiet help
  parsed_lem program args s bounded h =
      elim (Bool-cases (args.show_help && not (has_failures s.raised))) [
        | inl e ↦ inl (asked args.show_help (has_failures s.raised) e, rw e refl)
        | inr e ↦
            let stuck =
              subst
                (λ b. ¬ (
                  ((if b then help S L program else unless_failed S L (checked S L args)) s).0
                  ≡ exit_trouble))
                e h in
            let (clean, p) = unless_failed_lem (checked S L args) s stuck in
            let ran =
              checked_lem args s bounded clean (λ trouble. stuck (ap (λ r. r.0) p ∙ trouble)) in
            inr (rw e (subst (Ran args) (sym (ap (λ r. r.0) p)) ran))
      ]
    where
      asked : (a b : Bool) → (a && not b) ≡ true → a ≡ true
      asked a b e = ground arith

  -- The program ends with EXIT_TROUBLE, or no failure is left behind and either it was asked for help,
  -- or the arguments that it parsed pass the checks, their numbers were converted, and the status is the
  -- campaign's on the converted arguments.
  pub main-decided :
      (argv : List Text) (s : State World)
      → ((main S L argv s).0 ≡ exit_trouble)
        ⊎ (((main_body S L argv s).1.raised ≡ [])
            × ((((parse_arguments S L argv initial_arguments s).0.show_help ≡ true)
                  × ((main S L argv s).0 ≡ exit_success))
                ⊎ Ran (parse_arguments S L argv initial_arguments s).0 (main S L argv s).0))
  unfolding main main_body IsTrouble initial_arguments
  main-decided argv s = elim (Bool-cases ((main S L argv s).0 == exit_trouble)) [
    | inl trouble ↦ inl (ground arith)
    | inr e ↦
        let ended = main_body S L argv s in
        let parsing = parse_arguments S L argv initial_arguments s in
        let untroubled =
          λ (t : (main S L argv s).0 ≡ exit_trouble). differ (main S L argv s).0 e t in
        let (clean, p) = finish_lem (get_or argv 0 []) ended.0 ended.1.raised ended.1 untroubled in
        let q =
          parsed_lem (get_or argv 0 []) parsing.0 parsing.1 bounded (λ t. untroubled (p ∙ t)) in
        inr (
          clean,
          subst
              (λ status.
                ((parsing.0.show_help ≡ true) × (status ≡ exit_success)) ⊎ Ran parsing.0 status)
              (sym p) q,
        )
  ]
    where
      bounded : (parse_arguments S L argv initial_arguments s).0.max_failures ≤ max_failures_limit
      bounded = rw (parse_arguments_keeps S L argv initial_arguments s) (omega arith)

      differ : (n : ℕ) → (n == exit_trouble) ≡ false → ¬ (n ≡ exit_trouble)
      differ n e t = ground arith
