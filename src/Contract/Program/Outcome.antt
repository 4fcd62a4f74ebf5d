-- ===== src/Contract/Program/Outcome.antt =====
-- When `main` of components/command-contract/src/main.c ends with which status.
use p101_test.Base.{
  ℕ, ◌≡◌, ◌⊎◌, inl, inr, refl, Text, codes, Bool, true, false, Option, none, some, List, [], ◌++◌,
  drop, get_or, decimal, if◌then◌else◌, Bool-cases, Option-cases, State, call, call_optional,
  has_failures,
}
use p101_test.System.{System}
use p101_test.Contract.Types.{
  ContractLibrary, Timespec, RunCapture, prefix_size, exit_finding, exit_trouble,
}
use p101_test.Contract.Request.{Request, parse_request}
use p101_test.Contract.Files.{run_command, remove_capture_files, fitting}
use p101_test.Contract.Program.{
  tmp_dir, parse_options, read_clock, finished_at, first_run, started_at, with_prefix, run_request,
  answer, selected, main_body, main, status_of,
}
use p101_test.Contract.Program.Answers.{Answer, check_contract-Answer}

module _ (S : System) (L : ContractLibrary S) where
  open S use {World, getpid, snprintf, getenv}

  -- The calls of a request from a state: the prefix of the captured files, the clock, the first run, and the clock.
  abbrev pid_at : State World → ℕ × State World
  pid_at = call_optional getpid

  abbrev prefix_at : State World → (Option ℕ × Text) × State World
  prefix_at s =
      call
        (snprintf prefix_size (
          tmp_dir L.default_tmpdir (getenv (codes "TMPDIR") (pid_at s).1.world)
          ++ codes "/p101-command-contract-"
          ++ decimal (pid_at s).0))
        (pid_at s).1

  abbrev started_from : Request → State World → Option Timespec × State World
  started_from request s = read_clock S L request.mode (prefix_at s).1

  abbrev first_at : Request → Text → State World → Option RunCapture × State World
  first_at request prefix s = run_command S L request.command prefix 1 (started_from request s).1

  abbrev finished_from : Request → Text → State World → Option Timespec × State World
  finished_from request prefix s = read_clock S L request.mode (first_at request prefix s).1

  -- The command of the request was run, and the contract of its mode found something or not.
  pub record Checked (request : Request) (s : State World) (found : Bool) : Type 0 where
    pub prefix : Text
    pub started : Timespec
    pub first : RunCapture
    pub finished : Timespec
    pub named : fitting (prefix_at s).0 ≡ some prefix
    pub clock_before : (started_from request s).0 ≡ some started
    pub ran : (first_at request prefix s).0 ≡ some first
    pub clock_after : (finished_from request prefix s).0 ≡ some finished
    pub answered :
        Answer S L request.mode request.value request.command prefix started finished first
          (finished_from request prefix s).1
          found

  finished-Checked :
      (outputs : ℕ) (request : Request) (s : State World) (found : Bool) (prefix : Text)
      (started : Timespec) (first : RunCapture)
      → fitting (prefix_at s).0 ≡ some prefix
      → (started_from request s).0 ≡ some started
      → (first_at request prefix s).0 ≡ some first
      → (finished : Option Timespec) → (finished_from request prefix s).0 ≡ finished
      → (finished_at S L outputs request prefix started first finished
          (finished_from request prefix s).1).0
        ≡ some found
      → Checked request s found
  unfolding finished_at
  finished-Checked outputs request s found prefix started first e e' e'' none h = λ g. absurd (cc)
  finished-Checked outputs request s found prefix started first e e' e'' (some finished) h = λ g.
      record {
        prefix = prefix;
        started = started;
        first = first;
        finished = finished;
        named = e;
        clock_before = e';
        ran = e'';
        clock_after = h;
        answered =
            check_contract-Answer S L outputs request.mode request.value request.command prefix
              started finished first (finished_from request prefix s).1 found g;
      }

  first-Checked :
      (outputs : ℕ) (request : Request) (s : State World) (found : Bool) (prefix : Text)
      (started : Timespec)
      → fitting (prefix_at s).0 ≡ some prefix
      → (started_from request s).0 ≡ some started
      → (first : Option RunCapture) → (first_at request prefix s).0 ≡ first
      → (first_run S L outputs request prefix started first (first_at request prefix s).1).0
        ≡ some found
      → Checked request s found
  unfolding first_run
  first-Checked outputs request s found prefix started e e' none h = λ g. absurd (cc)
  first-Checked outputs request s found prefix started e e' (some first) h =
      finished-Checked outputs request s found prefix started first e e' h
        (finished_from request prefix s).0 refl

  started-Checked :
      (outputs : ℕ) (request : Request) (s : State World) (found : Bool) (prefix : Text)
      → fitting (prefix_at s).0 ≡ some prefix
      → (started : Option Timespec) → (started_from request s).0 ≡ started
      → (started_at S L outputs request prefix started (started_from request s).1).0 ≡ some found
      → Checked request s found
  unfolding started_at
  started-Checked outputs request s found prefix e none h = λ g. absurd (cc)
  started-Checked outputs request s found prefix e (some started) h =
      first-Checked outputs request s found prefix started e h (first_at request prefix s).0 refl

  prefix-Checked :
      (outputs : ℕ) (request : Request) (s : State World) (found : Bool) (prefix : Option Text)
      → fitting (prefix_at s).0 ≡ prefix
      → (with_prefix S L outputs request prefix (prefix_at s).1).0 ≡ some found
      → Checked request s found
  unfolding with_prefix
  prefix-Checked outputs request s found none h = λ g. absurd (cc)
  prefix-Checked outputs request s found (some prefix) h =
      started-Checked outputs request s found prefix h (started_from request s).0 refl

  run_request-Checked :
      (outputs : ℕ) (request : Request) (s : State World) (found : Bool)
      → (run_request S L outputs request s).0.0 ≡ some found
      → Checked request s found
  unfolding run_request
  run_request-Checked outputs request s found =
      prefix-Checked outputs request s found (fitting (prefix_at s).0) refl

  abbrev options_at : List Text → State World → Option (ℕ × List Text) × State World
  options_at argv = parse_options S L (drop 1 argv) L.default_outputs

  -- The words behind the output options are a request, whose contract was checked.
  pub record Answered (argv : List Text) (s : State World) (found : Bool) : Type 0 where
    pub outputs : ℕ
    pub words : List Text
    pub request : Request
    pub options : (options_at argv s).0 ≡ some (outputs, words)
    pub requested : parse_request words ≡ some request
    pub checked : Checked request (options_at argv s).1 found

  main_body-Answered :
      (argv : List Text) (s : State World) (found : Bool)
      → (main_body S L argv s).0.0 ≡ some found
      → Answered argv s found
  unfolding main_body selected answer
  main_body-Answered argv s found = chosen (options_at argv s).0 refl
    where
      asked :
          (outputs : ℕ) (words : List Text)
          → (options_at argv s).0 ≡ some (outputs, words)
          → (request : Option Request) → parse_request words ≡ request
          → (answer S L (get_or argv 0 []) outputs request (options_at argv s).1).0.0 ≡ some found
          → Answered argv s found
      asked outputs words e none e' = λ h. absurd (cc)
      asked outputs words e (some request) e' = λ h. record {
        outputs = outputs;
        words = words;
        request = request;
        options = e;
        requested = e';
        checked = run_request-Checked outputs request (options_at argv s).1 found h;
      }

      chosen :
          (options : Option (ℕ × List Text))
          → (options_at argv s).0 ≡ options
          → (selected S L (get_or argv 0 []) options (options_at argv s).1).0.0 ≡ some found
          → Answered argv s found
      chosen none e = λ h. absurd (cc)
      chosen (some (outputs, words)) e = asked outputs words e (parse_request words) refl

  -- The program ends with EXIT_TROUBLE, and has a failure left at its end or came to no answer; or it has no
  -- failure left, its words are a request, the command was run, and the contract of the request's mode
  -- answered, with EXIT_FINDING if something was found and with EXIT_SUCCESS if not.
  pub contract-decided :
      (argv : List Text) (s : State World)
      → (((main S L argv s).0 ≡ exit_trouble)
          × ((has_failures (main S L argv s).1.raised ≡ true)
              ⊎ ((main_body S L argv s).0.0 ≡ none)))
        ⊎ ((has_failures (main S L argv s).1.raised ≡ false)
            × ((found : Bool) × ((main S L argv s).0 ≡ (if found then exit_finding else 0))
                × Answered argv s found))
  unfolding main
  contract-decided argv s = elim (Bool-cases (has_failures behind.raised)) [
    | inl e ↦ inl (rw e refl, inl (rw e e))
    | inr e ↦ elim (Option-cases (main_body S L argv s).0.0) [
      | inl p ↦ inl (rw (e, p) refl, inr p)
      | inr (found, p) ↦
          inr (rw e e, (found, rw (e, p) (status found), main_body-Answered argv s found p))
    ]
  ]
    where
      behind : State World
      behind =
          let ended = main_body S L argv s in
          (remove_capture_files S L ended.0.1 1 (remove_capture_files S L ended.0.1 2 ended.1).1).1

      status : (found : Bool) → status_of S L (some found) ≡ (if found then exit_finding else 0)
      status true = refl
      status false = refl
