-- ===== src/Mutation/Options/Ready.antt =====
-- The arguments of components/mutation/src/cli.c, and the buffer of its unknown operator.
use p101_test.Base.{
  ℕ, ◌+◌, ◌≤◌, ◌<◌, ◌≡◌, ◌⊎◌, refl, inl, inr, Text, codes, Bool, true, false, ◌&&◌, ◌||◌, Option,
  none, some, List, [], ◌∷◌, ◌++◌, ltb, leb, length, length-append, get_or, drop, text_eq,
  has_prefix, State, M, Bool-cases, if_cases, arith,
}
use p101_test.System.{System}
use p101_test.Mutation.Run.{Processes}
use p101_test.Mutation.Library.{MutationLibrary}
use p101_test.Mutation.Options.{
  MutationArguments, message_size, max_operators, max_mutants_limit, join_names, is_given, is_help,
  Arguments, default_arguments, parse_size, valid_size, add_operator, set_max_mutants, set_timeout,
  set_outputs, single_word, valued_option, go_on, with_option, parse_words, is_complete,
  parse_arguments,
}

-- The names of the operators always fit the buffer of raise_unknown_operator with their final NUL, if they
-- do at first.
pub join_names-fits :
    (rest : List Text) (names : Text)
    → length names < message_size
    → length (join_names rest names) < message_size
unfolding join_names
join_names-fits [] names h = h
join_names-fits (name ∷ rest) names h =
    elim (Bool-cases (leb message_size (length names + length name + 3))) [
      | inl e ↦ rw e h
      | inr e ↦ rw e (
          join_names-fits rest _ (
            if_cases (λ (t : Text). length t < message_size) (ltb 0 (length names))
              (λ more. ground (arith, length-append names (codes ", " ++ name)))
              (λ first. ground (arith, length-append names name))))
    ]

-- The numbers of the arguments are in their ranges.
pub record InRange {Timeout : Type 0} (a : MutationArguments Timeout) : Type 0 where
  pub some_mutants : 1 ≤ a.max_mutants
  pub few_mutants : a.max_mutants ≤ max_mutants_limit
  pub few_operators : length a.operators ≤ max_operators

valid_size-range :
    (failed : Bool) (text : Text) (parsed : ℕ × Text) (n : ℕ)
    → valid_size failed text parsed ≡ some n
    → (1 ≤ n) × (n ≤ max_mutants_limit)
unfolding valid_size
valid_size-range failed text parsed n h = ground arith

module _ (S : System) (P : Processes S) (L : MutationLibrary S P) where
  open S use {World}

  -- What an action leaves is in range.
  abbrev Keeps : M World (Bool × Arguments S P L) → Type 0
  Keeps m = (s : State World) → InRange (m s).0.1

  abbrev KeepsIf : Option (M World (Bool × Arguments S P L)) → Type 0
  KeepsIf none = Unit
  KeepsIf (some m) = Keeps m

  default-InRange : InRange (default_arguments S P L)
  default-InRange = record {
    some_mutants = omega arith;
    few_mutants = omega arith;
    few_operators = omega arith;
  }

  set_outputs-Keeps :
      (a : Arguments S P L) (outputs : Option (Bool × Bool))
      → InRange a
      → Keeps (set_outputs S P L a outputs)
  set_outputs-Keeps a none v = λ s. v
  set_outputs-Keeps a (some outputs) v = λ s. record {
    some_mutants = v.some_mutants;
    few_mutants = v.few_mutants;
    few_operators = v.few_operators;
  }

  single_word-Keeps :
      (word : Text) (a : Arguments S P L) → InRange a → Keeps (single_word S P L word a)
  unfolding single_word
  single_word-Keeps word a v =
      let same : InRange (record a { list_only = true }) = record {
        some_mutants = v.some_mutants;
        few_mutants = v.few_mutants;
        few_operators = v.few_operators;
      } in
      let placed : InRange (record a { project = some word }) = record {
        some_mutants = v.some_mutants;
        few_mutants = v.few_mutants;
        few_operators = v.few_operators;
      } in
      if_cases Keeps (text_eq word (codes "--list")) (λ e s. same)
        λ e.
          if_cases Keeps (has_prefix word (codes "-d:"))
            (λ e. set_outputs-Keeps a (L.parse_output_option word) v)
            λ e.
              if_cases Keeps (has_prefix word (codes "-") || is_given a.project) (λ e s. v)
                (λ e s. placed)

  add_operator-Keeps :
      (name : Text) (a : Arguments S P L) (kind : Option ℕ)
      → InRange a
      → length a.operators < max_operators
      → Keeps (add_operator S P L name a kind)
  add_operator-Keeps name a none v room = λ s. v
  add_operator-Keeps name a (some kind) v room = λ s. record {
    some_mutants = v.some_mutants;
    few_mutants = v.few_mutants;
    few_operators = omega (arith, length-append a.operators (kind ∷ []));
  }

  set_max_mutants-InRange :
      (a : Arguments S P L) (size : Option ℕ)
      → InRange a
      → ((n : ℕ) → size ≡ some n → (1 ≤ n) × (n ≤ max_mutants_limit))
      → InRange (set_max_mutants S P L a size).1
  set_max_mutants-InRange a none v range = v
  set_max_mutants-InRange a (some n) v range =
      let r = range n refl in
      record { some_mutants = r.0; few_mutants = r.1; few_operators = v.few_operators }

  set_timeout-InRange :
      (a : Arguments S P L) (timeout : Option P.Timeout)
      → InRange a
      → InRange (set_timeout S P L a timeout).1
  set_timeout-InRange a none v = v
  set_timeout-InRange a (some timeout) v = record {
    some_mutants = v.some_mutants;
    few_mutants = v.few_mutants;
    few_operators = v.few_operators;
  }

  valued_option-Keeps :
      (word value : Text) (a : Arguments S P L)
      → InRange a
      → KeepsIf (valued_option S P L word value a)
  unfolding valued_option parse_size
  valued_option-Keeps word value a v =
      let placed : InRange (record a { compile_database = some value }) = record {
        some_mutants = v.some_mutants;
        few_mutants = v.few_mutants;
        few_operators = v.few_operators;
      } in
      if_cases KeepsIf (text_eq word (codes "--compile-db")) (λ e s. placed)
        λ e.
          if_cases KeepsIf
            (text_eq word (codes "--operator") && ltb (length a.operators) max_operators)
            (λ e. add_operator-Keeps value a (L.kind_from_name value) v (ground arith))
            λ e.
              if_cases KeepsIf (text_eq word (codes "--max-mutants"))
                (λ e s. set_max_mutants-InRange a _ v (λ n h. valid_size-range _ value _ n h))
                λ e.
                  if_cases KeepsIf (text_eq word (codes "--timeout"))
                    (λ e s. set_timeout-InRange a _ v) (λ e. tt)

  go_on-Keeps :
      (again : Arguments S P L → M World (Bool × Arguments S P L))
      → ((a : Arguments S P L) → InRange a → Keeps (again a))
      → (r : Bool × Arguments S P L) → InRange r.1
      → Keeps (go_on S P L again r)
  go_on-Keeps again ih (true, a) v = ih a v
  go_on-Keeps again ih (false, a) v = λ s. v

  with_option-Keeps :
      (one two : Arguments S P L → M World (Bool × Arguments S P L))
      → ((a : Arguments S P L) → InRange a → Keeps (one a))
      → ((a : Arguments S P L) → InRange a → Keeps (two a))
      → (word : Text) (a : Arguments S P L) (option : Option (M World (Bool × Arguments S P L)))
      → InRange a
      → KeepsIf option
      → Keeps (with_option S P L one two word a option)
  with_option-Keeps one two keep_one keep_two word a none v k =
      λ s. go_on-Keeps one keep_one _ (single_word-Keeps word a v s) _
  with_option-Keeps one two keep_one keep_two word a (some option) v k =
      λ s. go_on-Keeps two keep_two _ (k s) _

  parse_words-Keeps :
      (program : Text) (words : List Text) (a : Arguments S P L)
      → InRange a
      → Keeps (parse_words S P L program words a)
  unfolding parse_words
  parse_words-Keeps program [] a v = λ s. v
  parse_words-Keeps program (word ∷ []) a v =
      let ended : InRange (record a { test_command = [] }) = record {
        some_mutants = v.some_mutants;
        few_mutants = v.few_mutants;
        few_operators = v.few_operators;
      } in
      if_cases Keeps (text_eq word (codes "--")) (λ e s. ended)
        λ e. if_cases Keeps (is_help word) (λ e s. v) (λ e. single_word-Keeps word a v)
  parse_words-Keeps program (word ∷ value ∷ words) a v =
      let ended : InRange (record a { test_command = value ∷ words }) = record {
        some_mutants = v.some_mutants;
        few_mutants = v.few_mutants;
        few_operators = v.few_operators;
      } in
      if_cases Keeps (text_eq word (codes "--")) (λ e s. ended)
        λ e.
          if_cases Keeps (is_help word) (λ e s. v)
            λ e.
              with_option-Keeps (parse_words S P L program (value ∷ words))
                (parse_words S P L program words) (parse_words-Keeps program (value ∷ words))
                (parse_words-Keeps program words) word a _ v (valued_option-Keeps word value a v)

  -- Arguments on which the program goes on.
  pub record Ready (a : Arguments S P L) : Type 0 where
    pub project : is_given a.project ≡ true
    pub compile_database : is_given a.compile_database ≡ true
    pub listed_or_tested : (a.list_only ≡ true) ⊎ (0 < length a.test_command)
    pub in_range : InRange a

  -- Arguments that are accepted name a project and a compile database, list only or have a test command, and
  -- have between 1 and 4096 mutants and at most 16 operators.
  pub parse_arguments-Ready :
      (argv : List Text) (s : State World)
      → (parse_arguments S P L argv s).0.0 ≡ true
      → Ready (parse_arguments S P L argv s).0.1
  unfolding parse_arguments
  parse_arguments-Ready argv s h =
      let r = parse_words S P L (get_or argv 0 []) (drop 1 argv) (default_arguments S P L) s in
      let (project, database, last) = complete r.0.0 r.0.1 h in
      record {
        project = project;
        compile_database = database;
        listed_or_tested = last;
        in_range =
            parse_words-Keeps (get_or argv 0 []) (drop 1 argv) (default_arguments S P L)
              default-InRange s;
      }
    where
      complete :
          (ok : Bool) (a : Arguments S P L)
          → ok && is_complete S P L a ≡ true
          → (is_given a.project ≡ true)
            × (is_given a.compile_database ≡ true)
            × ((a.list_only ≡ true) ⊎ (0 < length a.test_command))
      complete ok a h = (
        ground arith,
        ground arith,
        elim (Bool-cases a.list_only) [ inl e ↦ inl e | inr e ↦ inr (ground arith) ],
      )
