-- ===== src/Conformance/Program.antt =====
-- components/conformance/src/main.c: the options and the program.
pub mod Outcome
use p101_test.Base.{
  ℕ, Text, codes, Bool, true, false, Option, none, some, List, [], ◌∷◌, ◌++◌, ◌==◌, drop, get_or,
  if◌then◌else◌, text_eq, user, M, ◌>>=◌, ◌>>◌, return, call, call_optional, raise, has_error,
}
use p101_test.System.{System, stderr}
use p101_test.Conformance.Types.{
  einval, Arguments, no_arguments, Inputs, Conformance, no_conformance, ConformanceLibrary,
}
use p101_test.Conformance.Manifests.{
  load_api_manifest, load_test_manifest, load_conformance_manifest,
}
use p101_test.Conformance.FaultManifest.{load_fault_manifest}
use p101_test.Conformance.Instrumentation.{load_instrumentation}
use p101_test.Conformance.RunModel.{load_model}
use p101_test.Conformance.Outcomes.{load_outcomes}
use p101_test.Conformance.Validation.{validate_conformance}
use p101_test.Conformance.Receipt.{write_receipt}

-- The write through the destination that an option's name gives, if it is one of the options.
unfoldable pub set_option : Text → Text → Arguments → Option Arguments
set_option name value args =
    if text_eq name (codes "--receipt")
    then some (record args { receipt = some value })
    else if text_eq name (codes "--macros")
    then some (record args { macros = some value })
    else if text_eq name (codes "--platform")
    then some (record args { platform = some value })
    else if text_eq name (codes "--outcomes")
    then some (record args { outcomes = some value })
    else if text_eq name (codes "--model")
    then some (record args { model = some value })
    else if text_eq name (codes "--instrumentation")
    then some (record args { instrumentation = some value })
    else if text_eq name (codes "--repo")
    then some (record args { repo = some value })
    else if text_eq name (codes "--library")
    then some (record args { library = some value })
    else none

-- The options as inputs, if all are given.
abbrev pub all_inputs :
    Option Text
    → Option Text
    → Option Text
    → Option Text
    → Option Text
    → Option Text
    → Option Text
    → Option Text
    → Option Inputs
all_inputs (some l) (some r) (some i) (some m) (some o) (some p) (some x) (some t) = some (record {
  library = l;
  repo = r;
  instrumentation = i;
  model = m;
  outcomes = o;
  platform = p;
  macros = x;
  receipt = t;
})
all_inputs l r i m o p x t = none

abbrev pub inputs_of : Arguments → Option Inputs
inputs_of a =
    all_inputs a.library a.repo a.instrumentation a.model a.outcomes a.platform a.macros a.receipt

module _ (S : System) (L : ConformanceLibrary S) where
  open S use {World, put, allocate}

  abbrev pub next_option :
      (Arguments → M World (Bool × Arguments))
      → Arguments
      → Option Arguments
      → M World (Bool × Arguments)
  next_option again args none = do
    raise (user (codes "unknown or incomplete conformance option") einval)
    return (false, args)
  next_option again args (some args') = again args'

  -- The loop over the words: whether all are options, and the arguments.
  unfoldable pub parse_words : List Text → Arguments → M World (Bool × Arguments)
  unfolding set_option
  parse_words [] args = return (true, args)
  parse_words (word ∷ []) args =
      if text_eq word (codes "--help") then return (false, record args { help = true }) else (do
        raise (user (codes "unknown or incomplete conformance option") einval)
        return (false, args))
  parse_words (word ∷ value ∷ words) args =
      let again = parse_words words in
      if text_eq word (codes "--help")
      then return (false, record args { help = true })
      else next_option again args (set_option word value args)

  -- Behind the loop: the inputs, if it went to its end and all are given.
  abbrev pub require_inputs : Bool × Arguments → Option Inputs → M World (Option Inputs)
  require_inputs (false, args) inputs = return none
  require_inputs (true, args) none = do
    raise (user (codes "all conformance inputs are required") einval)
    return none
  require_inputs (true, args) (some inputs) = return (some inputs)

  -- The inputs, and whether help was asked for.
  unfoldable pub parse_arguments : List Text → M World (Option Inputs × Bool)
  unfolding parse_words
  parse_arguments words = do
    r ← parse_words words no_arguments
    inputs ← require_inputs r (inputs_of r.1)
    return (inputs, r.1.help)

  abbrev pub usage_text : Text → Text
  usage_text program =
      codes "Usage: "
      ++ program
      ++ codes
          " --library NAME --repo DIR --instrumentation FILE --model FILE --outcomes FILE --platform NAME --macros FILE --receipt FILE\n"

  abbrev pub usage : Text → M World (Unit {0})
  usage program = call_optional (put stderr (usage_text program))

  -- `if(loaded) { loaded = load(...); }`
  abbrev pub and_then :
      (Conformance → M World (Bool × Conformance))
      → Bool × Conformance
      → M World (Bool × Conformance)
  and_then load (true, c) = load c
  and_then load (false, c) = return (false, c)

  -- The seven inputs, one behind the other.
  unfoldable pub load_all : Inputs → Bool → M World (Bool × Conformance)
  load_all inputs allocated = do
    apis ← and_then (load_api_manifest S inputs.repo) (allocated, no_conformance)
    tests ← and_then (load_test_manifest S inputs.repo) apis
    contracts ← and_then (load_conformance_manifest S inputs.repo) tests
    faults ← and_then (load_fault_manifest S inputs.platform inputs.repo inputs.macros) contracts
    seen ← and_then (load_instrumentation S L inputs.instrumentation inputs.library) faults
    calls ← and_then (load_model S L inputs.model) seen
    and_then (load_outcomes S L inputs.outcomes inputs.library) calls

  abbrev pub status_of : Bool → Bool → ℕ
  status_of valid false = 2
  status_of true true = 0
  status_of false true = 1

  unfoldable pub judge : Inputs → Bool × Conformance → M World ℕ
  judge inputs (false, c) = return 2
  judge inputs (true, c) = do
    validated ← validate_conformance S L inputs c
    written ← write_receipt S L inputs.receipt inputs.library validated.1
    return (status_of validated.0 written)

  unfoldable pub run : Text → Bool → Option Inputs × Bool → M World ℕ
  unfolding load_all judge
  run program allocated (none, help) = do usage program; return (if help then 0 else 2)
  run program allocated (some inputs, help) = do
    loaded ← load_all inputs allocated
    judge inputs loaded

  -- The program up to `done`.
  unfoldable pub main_body : List Text → M World ℕ
  unfolding run parse_arguments
  main_body argv = do
    allocated ← call (allocate L.state_size)
    parsed ← parse_arguments (drop 1 argv)
    run (get_or argv 0 []) allocated parsed

  abbrev pub write_failure : ℕ × L.Diagnostic → M World ℕ
  write_failure prepared =
      if prepared.0 == 0 then call_optional (L.diagnostic_write prepared.1) else return prepared.0

  abbrev pub report_failure : Text → M World ℕ
  report_failure program s =
      write_failure
        (L.diagnostic_initialize_id (codes "P101-TEST-CONFORMANCE-001") program (codes "main")
          (L.error_message s.raised))
        s

  unfoldable pub main : List Text → M World ℕ
  unfolding main_body
  main argv = do
    status ← main_body argv
    failed ← has_error
    if failed then (do report_failure (get_or argv 0 []); return 2) else return status
