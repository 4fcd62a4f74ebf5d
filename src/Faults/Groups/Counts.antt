-- ===== src/Faults/Groups/Counts.antt =====
-- What one update of the fault-group table counts, name by name and in sum.
use p101_test.Base.{
  ℕ, ◌-◌, ◌≤◌, ◌<◌, ◌∙◌, Text, text_eq, text_eq_iff, Bool, true, false, List, [], ◌∷◌, ◌≡◌, ◌||◌,
  ◌&&◌, not, length, take-eq_self, ◌==◌, if◌then◌else◌, size_add, arith, inl, inr, Bool-cases,
}
use p101_test.Faults.Types.{RunResult, name_len}
use p101_test.Faults.Status.{analysis_finding_count}
use p101_test.Faults.Groups.{FaultGroup, fault_group_limit, group_name, update_fault_group}
use p101_test.Faults.Groups.Table.{add_run, record_fault-eq-add_run}

-- The runs and findings of a name; a name with no group has none.
unfoldable pub counts_of : Text → List FaultGroup → ℕ × ℕ
counts_of name [] = (0, 0)
counts_of name (g ∷ groups) =
    if text_eq g.name name then (g.runs, g.findings) else counts_of name groups

-- Whether a run of the name is counted: it has a group, or there is room for one.
unfoldable pub accepts : ℕ → Text → List FaultGroup → Bool
accepts limit name [] = not (limit == 0)
accepts limit name (g ∷ groups) = text_eq g.name name || accepts (limit - 1) name groups

abbrev pub plus_run : ℕ → ℕ × ℕ → ℕ × ℕ
plus_run findings c = (size_add c.0 1, size_add c.1 findings)

counts_of-add_run :
    (other name : Text) (limit findings : ℕ) (groups : List FaultGroup)
    → length name < name_len
    → counts_of other (add_run limit name findings groups) ≡ (
        if text_eq name other && accepts limit name groups
        then plus_run findings (counts_of other groups)
        else counts_of other groups)
unfolding counts_of add_run accepts
counts_of-add_run other name limit findings [] short =
    rw (take-eq_self 127 name (omega arith)) (ground arith)
counts_of-add_run other name limit findings (g ∷ groups) short = ground (
  arith,
  text_eq_iff g.name name,
  text_eq_iff g.name other,
  text_eq_iff name other,
  counts_of-add_run other name (limit - 1) findings groups,
)

-- All runs and all findings of the table, in `size_t`.
unfoldable pub total_findings : List FaultGroup → ℕ
total_findings [] = 0
total_findings (g ∷ groups) = size_add g.findings (total_findings groups)

unfoldable pub total_runs : List FaultGroup → ℕ
total_runs [] = 0
total_runs (g ∷ groups) = size_add g.runs (total_runs groups)

total-add_run :
    (limit : ℕ) (name : Text) (findings : ℕ) (groups : List FaultGroup)
    → accepts limit name groups ≡ true
    → (total_runs (add_run limit name findings groups) ≡ size_add (total_runs groups) 1)
      × (total_findings (add_run limit name findings groups)
          ≡ size_add (total_findings groups) findings)
unfolding total_runs total_findings add_run accepts size_add
total-add_run limit name findings [] h = ground arith
total-add_run limit name findings (g ∷ groups) h =
    ground (arith, total-add_run (limit - 1) name findings groups)

add_run-refused :
    (limit : ℕ) (name : Text) (findings : ℕ) (groups : List FaultGroup)
    → accepts limit name groups ≡ false
    → add_run limit name findings groups ≡ groups
unfolding add_run accepts
add_run-refused limit name findings [] h = ground arith
add_run-refused limit name findings (g ∷ groups) h =
    ground (arith, add_run-refused (limit - 1) name findings groups)

-- A run is counted when it is no baseline, its fault was hit, and the table accepts its name.
abbrev pub is_counted : List FaultGroup → RunResult → Bool
is_counted groups result =
    not (result.fault_index == 0 || not result.fault_hit)
    && accepts fault_group_limit (group_name result) groups

-- Exactly the run's name gains one run and the run's findings, and only when the run is counted;
-- every other name keeps its counts.
pub counts_of-update_fault_group :
    (other : Text) (groups : List FaultGroup) (result : RunResult)
    → length (group_name result) < name_len
    → counts_of other (update_fault_group groups result) ≡ (
        if text_eq (group_name result) other && is_counted groups result
        then plus_run (analysis_finding_count result) (counts_of other groups)
        else counts_of other groups)
unfolding update_fault_group
counts_of-update_fault_group other groups result short = ground (
  arith,
  record_fault-eq-add_run fault_group_limit (group_name result) (analysis_finding_count result)
      groups,
  counts_of-add_run other (group_name result) fault_group_limit (analysis_finding_count result)
      groups short,
)

-- The findings of all groups together grow by the findings of a counted run, and by no others.
pub total_findings-update_fault_group :
    (groups : List FaultGroup) (result : RunResult)
    → total_findings (update_fault_group groups result) ≡ (
        if is_counted groups result
        then size_add (total_findings groups) (analysis_finding_count result)
        else total_findings groups)
unfolding update_fault_group
total_findings-update_fault_group groups result =
    let name = group_name result in
    let findings = analysis_finding_count result in
    elim (Bool-cases (accepts fault_group_limit name groups)) [
      | inl e ↦ ground (
        arith,
        record_fault-eq-add_run fault_group_limit name findings groups,
        total-add_run fault_group_limit name findings groups e,
      )
      | inr e ↦ ground (
        arith,
        record_fault-eq-add_run fault_group_limit name findings groups,
        add_run-refused fault_group_limit name findings groups e,
      )
    ]

-- A table with room accepts every name.
accepts_of_room :
    (limit : ℕ) (name : Text) (groups : List FaultGroup)
    → length groups < limit
    → accepts limit name groups ≡ true
unfolding accepts
accepts_of_room limit name [] h = ground arith
accepts_of_room limit name (g ∷ groups) h = ground (arith, accepts_of_room (limit - 1) name groups)

length-le-add_run :
    (limit : ℕ) (name : Text) (findings : ℕ) (groups : List FaultGroup)
    → length groups ≤ length (add_run limit name findings groups)
unfolding add_run
length-le-add_run limit name findings [] = ground arith
length-le-add_run limit name findings (g ∷ groups) =
    ground (arith, length-le-add_run (limit - 1) name findings groups)

pub length-le-update_fault_group :
    (groups : List FaultGroup) (result : RunResult)
    → length groups ≤ length (update_fault_group groups result)
unfolding update_fault_group
length-le-update_fault_group groups result =
    elim (Bool-cases (result.fault_index == 0 || not result.fault_hit)) [
      | inl e ↦ rw e (omega arith)
      | inr e ↦ rw e (rw record_fault-eq-add_run (length-le-add_run fault_group_limit _ _ groups))
    ]

counted_of_room :
    (groups : List FaultGroup) (result : RunResult)
    → (result.fault_index == 0) ≡ false
    → result.fault_hit ≡ true
    → accepts fault_group_limit (group_name result) groups ≡ true
    → is_counted groups result ≡ true
counted_of_room groups result i h k = ground arith

-- While the table has room behind an update, the findings of a hit are among its totals.
pub total_findings-of_hit :
    (groups : List FaultGroup) (result : RunResult)
    → (result.fault_index == 0) ≡ false
    → result.fault_hit ≡ true
    → length (update_fault_group groups result) < fault_group_limit
    → total_findings (update_fault_group groups result)
      ≡ size_add (total_findings groups) (analysis_finding_count result)
total_findings-of_hit groups result i h room =
    total_findings-update_fault_group groups result
    ∙ ground (
      arith,
      counted_of_room groups result i h (
          accepts_of_room fault_group_limit (group_name result) groups
            (omega (arith, length-le-update_fault_group groups result))),
    )
