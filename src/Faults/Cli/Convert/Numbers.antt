-- ===== src/Faults/Cli/Convert/Numbers.antt =====
-- What a successful `p101_error_path_walk_convert_arguments` leaves (src/cli.c).
use native.Mathlib.Omega.{arith}
use p101_test.Base.{
  ℕ, Text, false, Option, none, some, ltb, ◌≡◌, refl, ◌≤◌, inl, inr, Bool-cases, Option-cases,
  State, has_failures,
}
use p101_test.System.{System}
use p101_test.Faults.Types.{Arguments}
use p101_test.Faults.Library.{FaultLibrary}
use p101_test.Faults.Limits.{max_failures_limit}
use p101_test.Faults.Message.{raise_message}
use p101_test.Faults.Cli.Convert.{
  parsed, refuse, refuse_count, convert_repeat, convert_amount, convert_errno, convert_count,
  convert_arguments,
}

-- A number comes from its option's text, or is left as it was.
abbrev pub Reads : (Text → Option ℕ) → Option Text → ℕ → ℕ → Type 0
Reads parse none old new = new ≡ old
Reads parse (some text) old new = parse text ≡ some new

pub record Conversion (L : FaultLibrary) (args result : Arguments) : Type 0 where
  pub count : ℕ
  pub code : ℕ
  pub amount : ℕ
  pub repeat : ℕ
  pub count_read : Reads L.parse_unsigned_int args.max_failures_str args.max_failures count
  pub code_read : Reads L.parse_positive_int args.fault_errno_str args.fault_errno code
  pub amount_read : Reads L.parse_unsigned_int args.fault_amount_str args.fault_amount amount
  pub repeat_read : Reads L.parse_positive_int args.fault_repeat_str args.fault_repeat repeat
  pub count_in_range : count ≤ max_failures_limit
  pub result_is : result ≡ record args {
    max_failures = count;
    fault_errno = code;
    fault_amount = amount;
    fault_repeat = repeat;
  }

module _ (S : System) (L : FaultLibrary) where
  open S use {World}

  Quiet : State World → Type 0
  Quiet s = has_failures s.raised ≡ false

  repeat_lem :
      (o : Option Text) (args : Arguments) (s : State World)
      → Quiet s
      → Quiet (convert_repeat S L o args s).1
      → (n : ℕ) × Reads L.parse_positive_int o args.fault_repeat n
        × ((convert_repeat S L o args s).0 ≡ record args { fault_repeat = n })
  unfolding convert_repeat parsed refuse Quiet
  repeat_lem none args s clean quiet = (args.fault_repeat, refl, refl)
  repeat_lem (some text) args s clean quiet = elim (Option-cases (L.parse_positive_int text)) [
    | inl e ↦ ground arith
    | inr (n, e) ↦ (n, e, rw (e, clean) refl)
  ]

  amount_lem :
      (o : Option Text) (args : Arguments) (s : State World)
      → Quiet s
      → Quiet (convert_amount S L o args s).1
      → (n m : ℕ) × Reads L.parse_unsigned_int o args.fault_amount n
        × Reads L.parse_positive_int args.fault_repeat_str args.fault_repeat m
        × ((convert_amount S L o args s).0 ≡ record args { fault_amount = n; fault_repeat = m })
  unfolding convert_amount parsed refuse Quiet
  amount_lem none args s clean quiet =
      let (m, read, p) = repeat_lem args.fault_repeat_str args s clean quiet in
      (args.fault_amount, m, refl, read, p)
  amount_lem (some text) args s clean quiet = elim (Option-cases (L.parse_unsigned_int text)) [
    | inl e ↦ ground arith
    | inr (n, e) ↦
        let next = record args { fault_amount = n } in
        let (m, read, p) = repeat_lem args.fault_repeat_str next s clean (later n e) in
        (n, m, e, read, rw (e, clean) p)
  ]
    where
      later :
          (n : ℕ)
          → L.parse_unsigned_int text ≡ some n
          → Quiet (convert_repeat S L args.fault_repeat_str (record args { fault_amount = n }) s).1
      later n e = ground arith

  errno_lem :
      (o : Option Text) (args : Arguments) (s : State World)
      → Quiet s
      → Quiet (convert_errno S L o args s).1
      → (k n m : ℕ) × Reads L.parse_positive_int o args.fault_errno k
        × Reads L.parse_unsigned_int args.fault_amount_str args.fault_amount n
        × Reads L.parse_positive_int args.fault_repeat_str args.fault_repeat m
        × ((convert_errno S L o args s).0
            ≡ record args { fault_errno = k; fault_amount = n; fault_repeat = m })
  unfolding convert_errno parsed refuse Quiet
  errno_lem none args s clean quiet =
      let (n, m, read, read', p) = amount_lem args.fault_amount_str args s clean quiet in
      (args.fault_errno, n, m, refl, read, read', p)
  errno_lem (some text) args s clean quiet = elim (Option-cases (L.parse_positive_int text)) [
    | inl e ↦ ground arith
    | inr (k, e) ↦
        let next = record args { fault_errno = k } in
        let (n, m, read, read', p) = amount_lem args.fault_amount_str next s clean (later k e) in
        (k, n, m, e, read, read', rw (e, clean) p)
  ]
    where
      later :
          (k : ℕ)
          → L.parse_positive_int text ≡ some k
          → Quiet (convert_amount S L args.fault_amount_str (record args { fault_errno = k }) s).1
      later k e = ground arith

  count_lem :
      (o : Option Text) (args : Arguments) (s : State World)
      → args.max_failures_str ≡ o
      → args.max_failures ≤ max_failures_limit
      → Quiet s
      → Quiet (convert_count S L o args s).1
      → Conversion L args (convert_count S L o args s).0
  unfolding convert_count parsed refuse refuse_count raise_message Quiet
  count_lem none args s o bounded clean quiet =
      let (k, n, m, read, read', read'', p) = errno_lem args.fault_errno_str args s clean quiet in
      record {
        count = args.max_failures;
        code = k;
        amount = n;
        repeat = m;
        count_read = rw o refl;
        code_read = read;
        amount_read = read';
        repeat_read = read'';
        count_in_range = bounded;
        result_is = p;
      }
  count_lem (some text) args s o bounded clean quiet =
      elim (Option-cases (L.parse_unsigned_int text)) [
        | inl e ↦ ground arith
        | inr (c, e) ↦ elim (Bool-cases (ltb max_failures_limit c)) [
          | inl big ↦ ground arith
          | inr small ↦
              let next = record args { max_failures = c } in
              let (k, n, m, read, read', read'', p) =
                errno_lem args.fault_errno_str next s clean (later c e small) in
              record {
                count = c;
                code = k;
                amount = n;
                repeat = m;
                count_read = rw o e;
                code_read = read;
                amount_read = read';
                repeat_read = read'';
                count_in_range = ground arith;
                result_is = rw (e, clean, small) p;
              }
        ]
      ]
    where
      later :
          (c : ℕ)
          → L.parse_unsigned_int text ≡ some c
          → ltb max_failures_limit c ≡ false
          → Quiet (convert_errno S L args.fault_errno_str (record args { max_failures = c }) s).1
      later c e small = ground arith

  -- A conversion that starts with a failure count within MAX_FAILURES_LIMIT, and starts and ends without a
  -- failure, reads each number from the text of its option, keeps a number whose option is absent and every
  -- other argument, and leaves the failure count within the limit.
  pub convert_arguments-Conversion :
      (args : Arguments) (s : State World)
      → args.max_failures ≤ max_failures_limit
      → has_failures s.raised ≡ false
      → has_failures (convert_arguments S L args s).1.raised ≡ false
      → Conversion L args (convert_arguments S L args s).0
  unfolding convert_arguments Quiet
  convert_arguments-Conversion args s bounded clean quiet =
      count_lem args.max_failures_str args s refl bounded clean quiet
