-- ===== src/Faults/Groups/Table.antt =====
-- The fault-group table of src/runner.c as one walk over the groups, and what it keeps.
use p101_test.Base.{
  ℕ, ◌-◌, ◌≤◌, ◌<◌, Text, text_eq, text_eq_iff, List, [], ◌∷◌, ◌≡◌, ◌≢◌, ◌||◌, not, length,
  length-take, take, take-eq_self, ◌==◌, if◌then◌else◌, size_add, All, arith, inl, inr, Bool-cases,
}
use p101_test.Faults.Types.{RunResult, name_len}
use p101_test.Faults.Groups.{
  FaultGroup, fault_group_limit, empty_group, record_fault, group_name, update_fault_group,
}

abbrev pub counted : ℕ → FaultGroup → FaultGroup
counted findings g = record g { runs = size_add g.runs 1; findings = size_add g.findings findings }

-- One walk: count in the first group of the name, or append a group if the table has room.
unfoldable pub add_run : ℕ → Text → ℕ → List FaultGroup → List FaultGroup
add_run limit name findings [] = if limit == 0 then [] else counted findings (empty_group name) ∷ []
add_run limit name findings (g ∷ groups) =
    if text_eq g.name name
    then counted findings g ∷ groups
    else g ∷ add_run (limit - 1) name findings groups

pub record_fault-eq-add_run :
    (limit : ℕ) (name : Text) (findings : ℕ) (groups : List FaultGroup)
    → record_fault limit name findings groups ≡ add_run limit name findings groups
unfolding record_fault add_run
record_fault-eq-add_run limit name findings [] = ground arith
record_fault-eq-add_run limit name findings (g ∷ groups) =
    ground (arith, record_fault-eq-add_run (limit - 1) name findings groups)

-- No group of the list has the name.
abbrev pub Absent : Text → List FaultGroup → Type 0
Absent name = All (λ g. g.name ≢ name)

abbrev pub NodupNames : List FaultGroup → Type 0
NodupNames [] = Unit
NodupNames (g ∷ groups) = Absent g.name groups × NodupNames groups

-- What holds of the table: it fits the array, a name heads one group, every name fits its field.
pub record IsTable (limit : ℕ) (groups : List FaultGroup) : Type 0 where
  pub fits : length groups ≤ limit
  pub distinct : NodupNames groups
  pub short : All (λ g. length g.name < name_len) groups

length-add_run :
    (limit : ℕ) (name : Text) (findings : ℕ) (groups : List FaultGroup)
    → length groups ≤ limit
    → length (add_run limit name findings groups) ≤ limit
unfolding add_run
length-add_run limit name findings [] h = ground arith
length-add_run limit name findings (g ∷ groups) h =
    ground (arith, length-add_run (limit - 1) name findings groups)

add_run-Absent :
    (other name : Text) (limit findings : ℕ) (groups : List FaultGroup)
    → length name < name_len
    → name ≢ other
    → Absent other groups
    → Absent other (add_run limit name findings groups)
unfolding add_run
add_run-Absent other name limit findings [] short differs h = ground (arith, take-eq_self 127 name)
add_run-Absent other name limit findings (g ∷ groups) short differs h =
    ground (arith, add_run-Absent other name (limit - 1) findings groups short differs h.1)

add_run-NodupNames :
    (limit : ℕ) (name : Text) (findings : ℕ) (groups : List FaultGroup)
    → length name < name_len
    → NodupNames groups
    → NodupNames (add_run limit name findings groups)
unfolding add_run
add_run-NodupNames limit name findings [] short h = ground arith
add_run-NodupNames limit name findings (g ∷ groups) short h =
    elim (Bool-cases (text_eq g.name name)) [
      | inl e ↦ rw e h
      | inr e ↦ rw e (
        add_run-Absent g.name name (limit - 1) findings groups short
            (λ p. ground (arith, text_eq_iff g.name name)) h.0,
        add_run-NodupNames (limit - 1) name findings groups short h.1,
      )
    ]

name-short : (name : Text) → length (take 127 name) < name_len
name-short name = omega (arith, length-take 127 name)

group_name-short :
    (result : RunResult)
    → length result.fault_name < name_len
    → length (group_name result) < name_len
unfolding group_name
group_name-short result h = elim (Bool-cases (text_eq result.fault_name [])) [
  | inl e ↦ rw e (omega arith)
  | inr e ↦ rw e h
]

add_run-short :
    (limit : ℕ) (name : Text) (findings : ℕ) (groups : List FaultGroup)
    → All (λ g. length g.name < name_len) groups
    → All (λ g. length g.name < name_len) (add_run limit name findings groups)
unfolding add_run
add_run-short limit name findings [] h = elim (Bool-cases (limit == 0)) [
  | inl e ↦ rw e tt
  | inr e ↦ rw e (name-short name, tt)
]
add_run-short limit name findings (g ∷ groups) h = elim (Bool-cases (text_eq g.name name)) [
  | inl e ↦ rw e h
  | inr e ↦ rw e (h.0, add_run-short (limit - 1) name findings groups h.1)
]

record_fault-IsTable :
    (limit : ℕ) (name : Text) (findings : ℕ) (groups : List FaultGroup)
    → length name < name_len
    → IsTable limit groups
    → IsTable limit (record_fault limit name findings groups)
record_fault-IsTable limit name findings groups short t = rw record_fault-eq-add_run (record {
  fits = length-add_run limit name findings groups t.fits;
  distinct = add_run-NodupNames limit name findings groups short t.distinct;
  short = add_run-short limit name findings groups t.short;
})

-- A run of a fault whose name fits its field keeps the table well formed.
pub update_fault_group-IsTable :
    (groups : List FaultGroup) (result : RunResult)
    → length result.fault_name < name_len
    → IsTable fault_group_limit groups
    → IsTable fault_group_limit (update_fault_group groups result)
unfolding update_fault_group
update_fault_group-IsTable groups result short t =
    elim (Bool-cases (result.fault_index == 0 || not result.fault_hit)) [
      | inl e ↦ rw e t
      | inr e ↦ rw e (
          record_fault-IsTable fault_group_limit (group_name result) _ groups
            (group_name-short result short) t)
    ]
