-- ===== src/Mutation/Report.antt =====
-- components/mutation/src/output.c: the report of a run, and the list of candidates.
pub mod Summary
use p101_test.Base.{
  ℕ, suc, Text, codes, Bool, true, false, not, ◌&&◌, ◌||◌, Option, none, some, List, [], ◌∷◌, ◌++◌,
  ltb, leb, ◌==◌, if◌then◌else◌, length, decimal, size_add, Failure, errno, State, M, Call, ◌>>=◌,
  ◌>>◌, return, call, call_optional, raise,
}
use p101_test.System.{System, Output, stdout, stderr}
use p101_test.Mutation.Types.{Candidate, Outcome, inconclusive, survived, killed}
use p101_test.Mutation.Run.{Processes}
use p101_test.Mutation.Library.{MutationLibrary, ToolOutcome, clean, findings, tool_error}

abbrev pub diagnostic_message_size : ℕ
diagnostic_message_size = 1024

-- EIO and EOVERFLOW, as on Linux.
abbrev pub eio : ℕ
eio = 5

abbrev pub eoverflow : ℕ
eoverflow = 75

-- A mutant with its outcome; of the results, the report reads no more.
pub record Judged : Type 0 where
  pub candidate : Candidate
  pub outcome : Outcome

-- The counters behind "selected".
pub record Counters : Type 0 where
  pub killed : ℕ
  pub survived : ℕ
  pub inconclusive : ℕ

abbrev pub no_counters : Counters
no_counters = record { killed = 0; survived = 0; inconclusive = 0 }

abbrev pub add_counter : Counters → Outcome → Counters
add_counter c killed = record c { killed = size_add c.killed 1 }
add_counter c survived = record c { survived = size_add c.survived 1 }
add_counter c inconclusive = record c { inconclusive = size_add c.inconclusive 1 }

-- The first loop over the results.
unfoldable pub count_results : List Judged → Counters → Counters
unfolding size_add
count_results [] c = c
count_results (result ∷ results) c = count_results results (add_counter c result.outcome)

unfoldable pub outcome_of_run : Counters → ToolOutcome
outcome_of_run c =
    if ltb 0 c.inconclusive then tool_error else if ltb 0 c.survived then findings else clean

-- A text that may be null; a null pointer is written as an empty text.
abbrev pub text_or_empty : Option Text → Text
text_or_empty none = []
text_or_empty (some text) = text

abbrev pub counter_list : ℕ → Counters → List (Text × ℕ)
counter_list selected c =
    (codes "selected", selected)
    ∷ (codes "killed", c.killed)
    ∷ (codes "survived", c.survived)
    ∷ (codes "inconclusive", c.inconclusive)
    ∷ []

module _ (S : System) (P : Processes S) (L : MutationLibrary S P) where
  open S use {World, snprintf, put}

  -- `report_check` on a status and errno, and whether the status was 0.
  unfoldable pub report_check : ℕ × ℕ → M World Bool
  report_check status =
      if status.0 == 0
      then return true
      else (do raise (errno (if status.1 == 0 then eio else status.1)); return false)

  abbrev pub message_fits : Option ℕ × Text → M World Text
  message_fits (none, text) = do raise (errno eoverflow); return text
  message_fits (some n, text) =
      if leb diagnostic_message_size n
      then (do raise (errno eoverflow); return text)
      else return text

  unfoldable pub mutation_message : Candidate → M World Text
  mutation_message candidate = do
    written ← call (
        snprintf diagnostic_message_size (
          codes "surviving "
          ++ L.kind_name candidate.kind
          ++ codes " mutation: "
          ++ text_or_empty candidate.original
          ++ codes " -> "
          ++ text_or_empty candidate.replacement))
    message_fits written

  abbrev pub emit : L.Report → L.Diagnostic → Bool → M World Bool
  emit report diagnostic false = return false
  emit report diagnostic true = do
    status ← call (L.report_emit report diagnostic)
    report_check status
    return true

  -- A survivor; `false` is `goto done`.
  unfoldable pub report_survivor : L.Report → Candidate → M World Bool
  unfolding mutation_message report_check
  report_survivor report candidate = do
    message ← mutation_message candidate
    prepared ← call (L.diagnostic_initialize candidate.path candidate.line message)
    ok ← report_check prepared.0
    emit report prepared.1 ok

  abbrev pub report_one : L.Report → Candidate → Outcome → M World Bool
  report_one report candidate survived = report_survivor report candidate
  report_one report candidate killed = return true
  report_one report candidate inconclusive = return true

  -- The second loop; `false` is `goto done`.
  unfoldable pub report_survivors : L.Report → List Judged → M World Bool
  unfolding report_survivor
  report_survivors report [] = return true
  report_survivors report (result ∷ results) = do
    ok ← report_one report result.candidate result.outcome
    let rest = report_survivors report results
    if ok then rest else return false

  abbrev pub end_report : L.Report → List Judged → Bool → M World (Unit {0})
  end_report report results false = return tt
  end_report report results true =
      let c = count_results results no_counters in
      let outcome = outcome_of_run c in
      do
        status ← call (
            L.report_end report outcome (L.outcome_exit_status outcome)
              (counter_list (length results) c))
        report_check status
        return tt

  abbrev pub fill_report : L.Report → List Judged → Bool → M World (Unit {0})
  fill_report report results false = return tt
  fill_report report results true = do
    ok ← report_survivors report results
    end_report report results ok

  -- `p101_mutation_report_results`; without a selection the output is human.
  unfoldable pub report_results : Bool → Bool → List Judged → M World (Unit {0})
  unfolding report_survivors count_results outcome_of_run
  report_results human json results = do
    begun ← call (L.report_begin (human || not json) json)
    ok ← report_check begun.0
    fill_report begun.1 results ok

  unfoldable pub json_string : Output → Option Text → M World (Unit {0})
  unfolding report_check
  json_string stream text = do
    status ← call (L.json_write_string stream (text_or_empty text))
    report_check status
    return tt

  abbrev pub human_stream : Bool → Output
  human_stream true = stderr
  human_stream false = stdout

  unfoldable pub list_json : Bool → Candidate → M World (Unit {0})
  unfolding json_string
  list_json first candidate = do
    (if first then return tt else call (put stdout (codes ",")))
    call (put stdout (codes "{\"path\":"))
    json_string stdout (some candidate.path)
    call (put stdout (codes ",\"line\":" ++ decimal candidate.line ++ codes ",\"operator\":"))
    json_string stdout (some (L.kind_name candidate.kind))
    call (put stdout (codes ",\"original\":"))
    json_string stdout candidate.original
    call (put stdout (codes ",\"replacement\":"))
    json_string stdout candidate.replacement
    call (put stdout (codes "}"))

  abbrev pub human_line : Candidate → Text
  human_line candidate =
      candidate.path
      ++ codes ":"
      ++ decimal candidate.line
      ++ codes ": "
      ++ L.kind_name candidate.kind
      ++ codes ": "
      ++ text_or_empty candidate.original
      ++ codes " -> "
      ++ text_or_empty candidate.replacement
      ++ codes "\n"

  unfoldable pub list_all : Bool → Bool → Bool → List Candidate → M World (Unit {0})
  unfolding list_json
  list_all human json first [] = return tt
  list_all human json first (candidate ∷ candidates) = do
    (if json then list_json first candidate else return tt)
    (if human then call (put (human_stream json) (human_line candidate)) else return tt)
    list_all human json false candidates

  -- `p101_mutation_list_candidates`
  unfoldable pub list_candidates : Bool → Bool → List Candidate → M World (Unit {0})
  unfolding list_all
  list_candidates human json candidates = do
    (if json
        then call
            (put stdout (codes "{\"schema\":\"p101-mutation-candidates-v2\",\"candidates\":["))
        else return tt)
    list_all human json true candidates
    (if json
        then call (
            put stdout
              (codes "],\"summary\":{\"selected\":" ++ decimal (length candidates) ++ codes "}}\n"))
        else return tt)
    (if human
        then call (
            put (human_stream json)
              (codes "test-mutation: " ++ decimal (length candidates) ++ codes " candidate(s)\n"))
        else return tt)
