-- ===== src/Faults/Groups.antt =====
-- The table of faulted wrappers of src/runner.c: `update_fault_group`.
pub mod Table
pub mod Counts
use p101_test.Base.{
  ℕ, suc, ◌-◌, Text, codes, text_eq, ◌||◌, not, List, [], ◌∷◌, ◌++◌, length, take, leb, ◌==◌,
  if◌then◌else◌, size_add,
}
use p101_test.Faults.Types.{RunResult, name_len}
use p101_test.Faults.Status.{analysis_finding_count}

abbrev pub fault_group_limit : ℕ
fault_group_limit = 128

pub record FaultGroup : Type 0 where
  pub name : Text
  pub runs : ℕ
  pub findings : ℕ

-- The first index whose name is equal, or the number of groups.
unfoldable pub find_group : Text → List FaultGroup → ℕ
find_group name [] = 0
find_group name (g ∷ groups) = if text_eq g.name name then 0 else suc (find_group name groups)

-- `groups[index].runs++; groups[index].findings += findings;`
unfoldable pub count_run : ℕ → ℕ → List FaultGroup → List FaultGroup
count_run index findings [] = []
count_run index findings (g ∷ groups) =
    if index == 0
    then record g { runs = size_add g.runs 1; findings = size_add g.findings findings } ∷ groups
    else g ∷ count_run (index - 1) findings groups

-- A slot as `memset` left it, with its name copied in.
abbrev pub empty_group : Text → FaultGroup
empty_group name = record { name = take (name_len - 1) name; runs = 0; findings = 0 }

-- The table is the array up to `*group_count`, and `limit` is FAULT_GROUP_LIMIT.
unfoldable pub record_fault : ℕ → Text → ℕ → List FaultGroup → List FaultGroup
unfolding find_group count_run
record_fault limit name findings groups =
    let index = find_group name groups in
    if index == length groups
    then if leb limit (length groups)
      then groups
      else count_run index findings (groups ++ (empty_group name ∷ []))
    else count_run index findings groups

-- The name under which a hit is counted.
unfoldable pub group_name : RunResult → Text
group_name result = if text_eq result.fault_name [] then codes "?" else result.fault_name

unfoldable pub update_fault_group : List FaultGroup → RunResult → List FaultGroup
unfolding record_fault group_name
update_fault_group groups result =
    if result.fault_index == 0 || not result.fault_hit
    then groups
    else record_fault fault_group_limit (group_name result) (analysis_finding_count result) groups
