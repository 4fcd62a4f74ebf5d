-- ===== src/Repository/Paths.antt =====
-- components/repository-receipt/src/main.c: `has_suffix` and `sort_paths`.
pub mod Order
use p101_test.Base.{
  ℕ, ◌-◌, Text, Bool, true, false, ◌&&◌, ◌||◌, List, [], ◌∷◌, ltb, leb, ◌==◌, if◌then◌else◌, length,
  drop, text_eq,
}

unfoldable pub has_suffix : Text → Text → Bool
unfolding text_eq
has_suffix text suffix =
    leb (length suffix) (length text) && text_eq (drop (length text - length suffix) text) suffix

-- `strcmp(a, b) <= 0`, on unsigned bytes.
unfoldable pub text_le : Text → Text → Bool
text_le [] bs = true
text_le (a ∷ as') [] = false
text_le (a ∷ as') (b ∷ bs) = ltb a b || ((a == b) && text_le as' bs)

-- The inner loop, on the texts in front of the cursor, the nearest first: the greater ones move up.
unfoldable pub insert_path : Text → List Text → List Text
unfolding text_le
insert_path temporary [] = temporary ∷ []
insert_path temporary (path ∷ before) =
    if text_le path temporary
    then temporary ∷ path ∷ before
    else path ∷ insert_path temporary before

-- The outer loop, on the sorted texts in front of the index, the nearest first, and the others.
unfoldable pub sort_from : List Text → List Text → List Text
unfolding insert_path
sort_from before [] = before
sort_from before (path ∷ paths) = sort_from (insert_path path before) paths

-- The array from its start, of the texts with the nearest first.
unfoldable pub pour : List Text → List Text → List Text
pour [] paths = paths
pour (path ∷ before) paths = pour before (path ∷ paths)

unfoldable pub sort_paths : List Text → List Text
unfolding sort_from pour
sort_paths paths = pour (sort_from [] paths) []
