-- ===== src/Conformance/Invariant/Steps.antt =====
-- The invariant of the state of components/conformance/src/main.c, and the changes that the loaders make.
use p101_test.Base.{
  ℕ, suc, ◌≤◌, ◌<◌, ◌≡◌, refl, sym, ◌∙◌, Text, Bool, false, not, ◌||◌, Option, none, some, List, [],
  ◌∷◌, ◌++◌, leb, ◌==◌, if◌then◌else◌, length, length-append, get_or, All, size_add-eq-add,
  if_cases, arith,
}
use p101_test.Conformance.Types.{
  max_apis, max_name, max_usr, max_faults, ApiRecord, new_api, ExpectedFault, Conformance,
}
use p101_test.Conformance.Fields.{copy_text}
use p101_test.Conformance.Table.{find_first, update_first, has_usr, is_fault_of, find_fault}
use p101_test.Conformance.Table.Laws.{length-update_first, All-update_first}
use p101_test.Conformance.Lines.{Line, next, bad}
use p101_test.Conformance.Manifests.{
  add_api, add_test, test_api, mark_tested, add_contract, contract_api, mark_contract,
}
use p101_test.Conformance.FaultManifest.{add_fault, new_fault}
use p101_test.Conformance.Outcomes.{mark_observed, observe}

-- The number of expected faults that are marked as observed.
unfoldable pub observed_count : List ExpectedFault → ℕ
observed_count [] = 0
observed_count (fault ∷ faults) =
    let rest = observed_count faults in if fault.observed then suc rest else rest

-- The texts fit their arrays, with their final NUL.
abbrev pub ApiFits : ApiRecord → Type 0
ApiFits api = (length api.name < max_name) × (length api.usr < max_usr)

abbrev pub FaultFits : ExpectedFault → Type 0
FaultFits fault =
    (length fault.wrapper < max_name)
    × (length fault.domain < max_name)
    × (length fault.symbol < max_name)

-- Both tables are within their arrays, and the counter of outcomes is the number of marked faults.
pub record IsState (c : Conformance) : Type 0 where
  pub few_apis : length c.apis ≤ max_apis
  pub few_faults : length c.faults ≤ max_faults
  pub apis_fit : All ApiFits c.apis
  pub faults_fit : All FaultFits c.faults
  pub counted : c.fault_outcomes_observed ≡ observed_count c.faults

-- What a line leaves, if it is not refused.
abbrev pub Leaves {κ} : (Conformance → Type κ) → Line → Type κ
Leaves P (next c) = P c
Leaves P (bad failure) = Unit

All-append {ℓ κ} :
    {A : Type ℓ} (P : A → Type κ) (xs : List A) (y : A) → All P xs → P y → All P (xs ++ y ∷ [])
All-append P [] y h p = (p, tt)
All-append P (x ∷ xs) y h p = (h.0, All-append P xs y h.1 p)

observed_count-new :
    (faults : List ExpectedFault) (w d m : Text)
    → observed_count (faults ++ new_fault w d m ∷ []) ≡ observed_count faults
unfolding observed_count
observed_count-new [] w d m = refl
observed_count-new (fault ∷ faults) w d m = ground (arith, observed_count-new faults w d m)

observed_count-le : (faults : List ExpectedFault) → observed_count faults ≤ length faults
unfolding observed_count
observed_count-le [] = omega arith
observed_count-le (fault ∷ faults) = ground (arith, observed_count-le faults)

observed_count-update_first :
    (test : ExpectedFault → Bool) (faults : List ExpectedFault) (fault : ExpectedFault)
    → find_first test faults ≡ some fault
    → fault.observed ≡ false
    → observed_count (update_first test mark_observed faults) ≡ suc (observed_count faults)
unfolding observed_count find_first update_first
observed_count-update_first test [] fault found new = absurd (cc)
observed_count-update_first test (x ∷ faults) fault found new =
    ground (arith, observed_count-update_first test faults fault)

pub add_api-IsState :
    (fields : List Text) (c : Conformance) → IsState c → Leaves IsState (add_api fields c)
unfolding add_api
add_api-IsState fields c v =
    let name = get_or fields 0 [] in
    let usr = get_or fields 1 [] in
    if_cases (Leaves IsState) (not (length fields == 5) || leb max_apis (length c.apis)) (λ e. tt)
      λ full.
        if_cases (Leaves IsState) (not (copy_text max_name name)) (λ e. tt)
          λ short.
            if_cases (Leaves IsState) (not (copy_text max_usr usr)) (λ e. tt)
              λ short'. record {
                few_apis = ground (arith, length-append c.apis (new_api name usr ∷ []));
                few_faults = v.few_faults;
                apis_fit =
                    All-append ApiFits c.apis (new_api name usr) v.apis_fit
                      (ground arith, ground arith);
                faults_fit = v.faults_fit;
                counted = v.counted;
              }

-- A change of rows that leaves their names and identities.
pub update_apis-IsState :
    (test : ApiRecord → Bool) (change : ApiRecord → ApiRecord) (c : Conformance)
    → ((api : ApiRecord) → ApiFits api → ApiFits (change api))
    → IsState c
    → IsState (record c { apis = update_first test change c.apis })
update_apis-IsState test change c keep v = record {
  few_apis = rw (length-update_first test change c.apis) v.few_apis;
  few_faults = v.few_faults;
  apis_fit = All-update_first test ApiFits change c.apis keep v.apis_fit;
  faults_fit = v.faults_fit;
  counted = v.counted;
}

test_api-IsState :
    (usr kind : Text) (c : Conformance) (found : Option ApiRecord)
    → IsState c
    → Leaves IsState (test_api usr kind c found)
unfolding test_api
test_api-IsState usr kind c none v = tt
test_api-IsState usr kind c (some api) v =
    if_cases (Leaves IsState) api.tested (λ e. tt)
      λ e. update_apis-IsState (has_usr usr) (mark_tested kind) c (λ a f. f) v

pub add_test-IsState :
    (fields : List Text) (c : Conformance) → IsState c → Leaves IsState (add_test fields c)
unfolding add_test
add_test-IsState fields c v =
    if_cases (Leaves IsState) (not (length fields == 4)) (λ e. tt) λ e. test_api-IsState _ _ c _ v

contract_api-IsState :
    (usr arguments result : Text) (c : Conformance) (found : Option ApiRecord)
    → IsState c
    → Leaves IsState (contract_api usr arguments result c found)
unfolding contract_api
contract_api-IsState usr arguments result c none v = tt
contract_api-IsState usr arguments result c (some api) v =
    if_cases (Leaves IsState) api.conformance_seen (λ e. tt)
      λ e. update_apis-IsState (has_usr usr) (mark_contract arguments result) c (λ a f. f) v

pub add_contract-IsState :
    (fields : List Text) (c : Conformance) → IsState c → Leaves IsState (add_contract fields c)
unfolding add_contract
add_contract-IsState fields c v =
    if_cases (Leaves IsState) (not (length fields == 4)) (λ e. tt)
      λ e. contract_api-IsState _ _ _ c _ v

pub add_fault-IsState :
    (w d m : Text) (c : Conformance) → IsState c → Leaves IsState (add_fault w d m c)
unfolding add_fault
add_fault-IsState w d m c v =
    if_cases (Leaves IsState) (leb max_faults (length c.faults)) (λ e. tt)
      λ room.
        if_cases (Leaves IsState) (not (copy_text max_name w)) (λ e. tt)
          λ short.
            if_cases (Leaves IsState) (not (copy_text max_name d)) (λ e. tt)
              λ short'.
                if_cases (Leaves IsState) (not (copy_text max_name m)) (λ e. tt)
                  λ short''. record {
                    few_apis = v.few_apis;
                    few_faults = ground (arith, length-append c.faults (new_fault w d m ∷ []));
                    apis_fit = v.apis_fit;
                    faults_fit =
                        All-append FaultFits c.faults (new_fault w d m) v.faults_fit
                          (ground arith, ground arith, ground arith);
                    counted = v.counted ∙ sym (observed_count-new c.faults w d m);
                  }

-- The marking of a fault that was not observed keeps the counter right.
pub observe-IsState :
    (w d m : Text) (c : Conformance) (fault : ExpectedFault)
    → find_fault w d m c.faults ≡ some fault
    → fault.observed ≡ false
    → IsState c
    → IsState (observe w d m c)
observe-IsState w d m c fault found new v =
    let test = is_fault_of w d m in
    let more = observed_count-update_first test c.faults fault found new in
    let same = length-update_first test mark_observed c.faults in
    let bound = observed_count-le (update_first test mark_observed c.faults) in
    let few = v.few_faults in
    let counted = v.counted in
    let e = size_add-eq-add c.fault_outcomes_observed 1 (omega arith) in
    record {
      few_apis = v.few_apis;
      few_faults = omega arith;
      apis_fit = v.apis_fit;
      faults_fit = All-update_first test FaultFits mark_observed c.faults (λ f h. h) v.faults_fit;
      counted = omega arith;
    }
