-- ===== src/Mutation/Candidates.antt =====
-- components/mutation/src/candidates.c: the observer of the scan, which collects the mutants.
pub mod Collect
use p101_test.Base.{
  ℕ, zero, suc, ◌+◌, Text, Bool, true, false, not, ◌||◌, Option, none, some, List, [], ◌∷◌, ◌++◌,
  leb, ◌==◌, if◌then◌else◌, length, Failure, State, M, ◌>>=◌, ◌>>◌, return, call, has_error,
}
use p101_test.System.{System}
use p101_test.Mutation.Types.{path_size, Candidate, Candidates, AnalysisRecord}

member : ℕ → List ℕ → Bool
member kind [] = false
member kind (operator ∷ operators) = (operator == kind) || member kind operators

-- No operator named selects them all.
unfoldable pub operator_selected : List ℕ → ℕ → Bool
unfolding member
operator_selected [] kind = true
operator_selected (operator ∷ operators) kind = member kind (operator ∷ operators)

-- What `p101_memset` leaves.
abbrev pub empty_candidate : Candidate
empty_candidate = record {
  path = [];
  line = 0;
  start = 0;
  end = 0;
  original = none;
  replacement = none;
  kind = 0;
}

abbrev pub add_candidate : Candidates → Candidate → Candidates
add_candidate c candidate = record c { items = c.items ++ (candidate ∷ []) }

module _ (S : System) where
  open S use {World, snprintf, realpath, allocate}

  -- `p101_mutation_copy_text`
  unfoldable pub copy_text : Text → M World (Option Text)
  copy_text text = do
    made ← call (allocate (length text + 1))
    return (if made then some text else none)

  pub fill : AnalysisRecord → Candidates → Option Text → M World (Bool × Candidates)
  unfolding copy_text
  fill record' c none = return (false, add_candidate c empty_candidate)
  fill record' c (some canonical) = do
    path ← call (snprintf path_size canonical)
    original ← copy_text record'.name
    replacement ← copy_text record'.replacement
    failed ← has_error
    return (
      not failed,
      add_candidate c (record {
        path = path.1;
        line = record'.line;
        start = record'.start_offset;
        end = record'.end_offset;
        original = original;
        replacement = replacement;
        kind = record'.mutation;
      }),
    )

  -- `p101_mutation_candidate_observer`: whether to go on, and the candidates.
  unfoldable pub candidate_observer : AnalysisRecord → Candidates → M World (Bool × Candidates)
  unfolding fill
  candidate_observer record' c =
      if not record'.is_mutation || not (operator_selected c.operators record'.mutation)
      then return (true, c)
      else if leb c.capacity (length c.items)
      then return (true, c)
      else do found ← call (realpath record'.path); fill record' c found
