-- ===== src/Conformance/Table.antt =====
-- components/conformance/src/main.c: `find_api`, `find_api_name` and `find_fault`, and the changes that
-- are made through the pointers that they return.
pub mod Laws
use p101_test.Base.{Text, Bool, ◌&&◌, Option, none, some, List, [], ◌∷◌, if◌then◌else◌, text_eq}
use p101_test.Conformance.Types.{ApiRecord, ExpectedFault}

module _ {A : Type 0} where
  -- The loop of a lookup: the first row that fits.
  unfoldable pub find_first : (A → Bool) → List A → Option A
  find_first test [] = none
  find_first test (x ∷ xs) = let later = find_first test xs in if test x then some x else later

  -- A change through the pointer to the first row that fits.
  unfoldable pub update_first : (A → Bool) → (A → A) → List A → List A
  update_first test change [] = []
  update_first test change (x ∷ xs) =
      let later = update_first test change xs in if test x then change x ∷ xs else x ∷ later

abbrev pub has_usr : Text → ApiRecord → Bool
has_usr usr api = text_eq api.usr usr

abbrev pub has_name : Text → ApiRecord → Bool
has_name name api = text_eq api.name name

abbrev pub is_fault_of : Text → Text → Text → ExpectedFault → Bool
is_fault_of wrapper domain symbol fault =
    text_eq fault.wrapper wrapper && text_eq fault.domain domain && text_eq fault.symbol symbol

abbrev pub find_api : Text → List ApiRecord → Option ApiRecord
find_api usr apis = find_first (has_usr usr) apis

abbrev pub find_api_name : Text → List ApiRecord → Option ApiRecord
find_api_name name apis = find_first (has_name name) apis

abbrev pub find_fault : Text → Text → Text → List ExpectedFault → Option ExpectedFault
find_fault wrapper domain symbol faults = find_first (is_fault_of wrapper domain symbol) faults
