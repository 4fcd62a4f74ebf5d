-- ===== src/Repository/Program.antt =====
-- components/repository-receipt/src/main.c: the options and `main`. A result of `none` means that the fuel ran
-- out.
pub mod Passing
use p101_test.Base.{
  ℕ, Text, codes, Bool, true, false, not, ◌&&◌, ◌||◌, Option, none, some, List, [], ◌∷◌, ◌++◌, ltb,
  ◌==◌, if◌then◌else◌, length, get_or, drop, text_eq, Failure, user, State, M, ◌>>=◌, ◌>>◌, return,
  call, call_optional, raise, has_error,
}
use p101_test.System.{System, stderr}
use p101_test.Repository.Types.{RepositoryResult, ReceiptLibrary, einval}
use p101_test.Repository.Result.{load_results}
use p101_test.Repository.Receipt.{write_receipt}

pub record Arguments : Type 0 where
  pub results_path : Option Text
  pub output_path : Option Text
  pub help : Bool

abbrev pub no_arguments : Arguments
no_arguments = record { results_path = none; output_path = none; help = false }

unfoldable pub is_failing : RepositoryResult → Bool
unfolding text_eq
is_failing r =
    text_eq r.unit (codes "FAIL")
    || text_eq r.unit (codes "MISSING")
    || text_eq r.fuzz (codes "FAIL")

-- The loop over the records, on `passed`.
unfoldable pub passed_from : Bool → List RepositoryResult → Bool
unfolding is_failing
passed_from passed [] = passed
passed_from passed (r ∷ records) = passed_from (if is_failing r then false else passed) records

module _ (S : System) (L : ReceiptLibrary S) where
  open S use {World, put}

  abbrev pub refuse : Text → Arguments → M World (Bool × Arguments)
  refuse message a = do raise (user message einval); return (false, a)

  abbrev pub is_help : Text → Bool
  is_help word = text_eq word (codes "-h") || text_eq word (codes "--help")

  abbrev pub unknown : Arguments → M World (Bool × Arguments)
  unknown a = refuse (codes "unknown or incomplete repository-receipt option") a

  -- The loop over the words.
  unfoldable pub parse_words : List Text → Arguments → M World (Bool × Arguments)
  parse_words [] a = return (true, a)
  parse_words (word ∷ []) a =
      if is_help word then return (false, record a { help = true }) else unknown a
  parse_words (word ∷ value ∷ words) a =
      let with_results = parse_words words (record a { results_path = some value }) in
      let with_output = parse_words words (record a { output_path = some value }) in
      if is_help word
      then return (false, record a { help = true })
      else if text_eq word (codes "--results")
      then with_results
      else if text_eq word (codes "--output")
      then with_output
      else unknown a

  abbrev pub are_given : Option Text → Option Text → Bool
  are_given none output = false
  are_given (some results) none = false
  are_given (some results) (some output) = true

  unfoldable pub parse_arguments : List Text → M World (Bool × Arguments)
  unfolding parse_words
  parse_arguments argv = do
    r ← parse_words (drop 1 argv) no_arguments
    if r.0 && not (are_given r.1.results_path r.1.output_path)
        then refuse (codes "--results and --output are required") r.1
        else return r

  unfoldable pub usage : Text → M World (Unit {0})
  usage program =
      call_optional
        (put stderr (codes "Usage: " ++ program ++ codes " --results DIRECTORY --output FILE\n"))

  abbrev pub status_of : Bool → Bool → ℕ
  status_of passed written = if written then (if passed then 0 else 1) else 2

  abbrev pub judge : Text → Option (Bool × List RepositoryResult) → M World (Option ℕ)
  judge output none = return none
  judge output (some (false, records)) = return (some 2)
  judge output (some (true, records)) =
      let passed = passed_from (ltb 0 (length records)) records in
      do written ← write_receipt S L output records passed; return (some (status_of passed written))

  abbrev pub text_or_empty : Option Text → Text
  text_or_empty none = []
  text_or_empty (some text) = text

  unfoldable pub run : Text → Bool × Arguments → M World (Option ℕ)
  unfolding usage passed_from
  run program (false, a) = do usage program; return (some (if a.help then 0 else 2))
  run program (true, a) = do
    loaded ← load_results S L (text_or_empty a.results_path)
    judge (text_or_empty a.output_path) loaded

  abbrev pub write_failure : ℕ × L.Diagnostic → M World ℕ
  write_failure prepared =
      if prepared.0 == 0 then call_optional (L.diagnostic_write prepared.1) else return prepared.0

  abbrev pub report_failure : Text → M World ℕ
  report_failure program s =
      write_failure
        (L.diagnostic_initialize_id (codes "P101-TEST-RECEIPT-001") program (codes "main")
          (L.error_message s.raised))
        s

  -- Behind `done`; the status of the diagnostic is overwritten.
  abbrev pub finish : Text → Option ℕ → M World (Option ℕ)
  finish program none = return none
  finish program (some status) = do
    failed ← has_error
    if failed then (do report_failure program; return (some 2)) else return (some status)

  unfoldable pub main : List Text → M World (Option ℕ)
  unfolding run parse_arguments
  main argv = do
    parsed ← parse_arguments argv
    status ← run (get_or argv 0 []) parsed
    finish (get_or argv 0 []) status
