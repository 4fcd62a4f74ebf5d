-- ===== src/Mutation/Program/Killed.antt =====
-- The results of a run of components/mutation/src/main.c in which every mutant is killed.
use p101_test.Base.{ℕ, ◌≡◌, ◌≢◌, refl, false, Option, none, some, List, [], ◌∷◌, map, All, arith}
use p101_test.Mutation.Types.{Candidate, Outcome, inconclusive, survived, killed}
use p101_test.Mutation.Status.{add_outcome, status_from}
use p101_test.Mutation.Execute.{MutationResult}
use p101_test.Mutation.Program.{outcome_in}

abbrev pub candidate_in : MutationResult → Candidate
candidate_in r = r.candidate

-- The test command was not stopped at the timeout, and its result is not 0.
abbrev pub IsNoticed : MutationResult → Type 0
IsNoticed r = (r.timed_out ≡ false) × (r.return_code ≢ some 0)

abbrev pub IsKilled : MutationResult → Type 0
IsKilled r = (r.outcome ≡ killed) × IsNoticed r

add_outcome-zero :
    (status : ℕ) (outcome : Outcome)
    → add_outcome status outcome ≡ 0
    → (status ≡ 0) × (outcome ≡ killed)
unfolding add_outcome
add_outcome-zero status inconclusive h = absurd (omega arith)
add_outcome-zero status survived h = absurd (ground arith)
add_outcome-zero status killed h = (h, refl)

pub status_from-zero :
    (status : ℕ) (results : List MutationResult)
    → status_from status (map outcome_in results) ≡ 0
    → (status ≡ 0) × All (λ (r : MutationResult). r.outcome ≡ killed) results
unfolding status_from
status_from-zero status [] h = (h, tt)
status_from-zero status (r ∷ results) h =
    let (now, rest) = status_from-zero (add_outcome status r.outcome) results h in
    let (before, this) = add_outcome-zero status r.outcome now in (before, (this, rest))

abbrev pub Noticed : MutationResult → Type 0
Noticed r = r.outcome ≡ killed → IsNoticed r

pub killed-both :
    (results : List MutationResult)
    → All (λ (r : MutationResult). r.outcome ≡ killed) results
    → All Noticed results
    → All IsKilled results
killed-both [] h n = tt
killed-both (r ∷ results) (h, hs) (n, ns) = ((h, n h), killed-both results hs ns)

abbrev pub Covers : List Candidate → Option (Option (List MutationResult)) → Type 0
Covers candidates none = Unit {0}
Covers candidates (some none) = Unit {0}
Covers candidates (some (some results)) =
    (map candidate_in results ≡ candidates) × All Noticed results
