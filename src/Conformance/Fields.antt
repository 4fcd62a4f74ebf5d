-- ===== src/Conformance/Fields.antt =====
-- components/conformance/src/main.c: `split_fields`, `copy_text` and `list_contains`.
pub mod Split
pub mod Items
use p101_test.Base.{
  ℕ, zero, suc, Text, Bool, true, false, ◌&&◌, Option, none, some, List, [], ◌∷◌, ltb, ◌==◌,
  if◌then◌else◌, length, has_prefix,
}

-- The field at the cursor, and the cursor behind its tab; null where the line ends.
unfoldable pub cut_field : Text → Text × Option Text
cut_field [] = ([], none)
cut_field (c ∷ line) =
    let rest = cut_field line in
    if c == b'\t' then ([], some line) else if c == b'\n' then ([], none) else (c ∷ rest.0, rest.1)

-- The outer loop, with the fields that there is room for.
unfoldable pub split_from : ℕ → Option Text → List Text
split_from zero cursor = []
split_from (suc room) none = []
split_from (suc room) (some cursor) =
    let field = cut_field cursor in field.0 ∷ split_from room field.1

abbrev pub split_fields : Text → ℕ → List Text
split_fields line maximum = split_from maximum (some line)

-- Whether a text is copied to a buffer of the given size; EOVERFLOW is raised where it is not.
abbrev pub copy_text : ℕ → Text → Bool
copy_text output_size input = ltb (length input) output_size

-- The item at the start of a list with commas, and the start behind it.
unfoldable pub cut_item : Text → Text × Text
cut_item [] = ([], [])
cut_item (c ∷ list) =
    let rest = cut_item list in if c == b',' then ([], list) else (c ∷ rest.0, rest.1)

-- The loop of `list_contains` on fuel.
unfoldable pub contains_from : ℕ → Text → Text → Bool
unfolding cut_item has_prefix
contains_from zero list value = false
contains_from (suc fuel) [] value = false
contains_from (suc fuel) (c ∷ list) value =
    let item = cut_item (c ∷ list) in
    let later = contains_from fuel item.1 value in
    if length item.0 == length value && has_prefix (c ∷ list) value then true else later

-- Each round goes forward by a byte at least.
unfoldable pub list_contains : Text → Text → Bool
unfolding contains_from
list_contains list value = contains_from (length list) list value
