-- ===== src/Conformance/Fields/Split.antt =====
-- Rows of fields with tabs, and `split_fields` of components/conformance/src/main.c.
use p101_test.Base.{
  ℕ, zero, suc, ◌≡◌, ◌≢◌, refl, ap, Text, none, some, List, [], ◌∷◌, ◌++◌, take, All, arith,
}
use p101_test.Conformance.Fields.{cut_field, split_from, split_fields}

-- A text without a tab and without a line feed.
abbrev pub IsField : Text → Type 0
IsField = All (λ (c : ℕ). (c ≢ b'\t') × (c ≢ b'\n'))

-- What ends a line: a line feed, or nothing at the end of the file.
pub data LineEnd : Type 0 where
  feed nothing : LineEnd

abbrev pub end_text : LineEnd → Text
end_text feed = b'\n' ∷ []
end_text nothing = []

-- A line of fields.
abbrev pub row_text : LineEnd → Text → List Text → Text
row_text end field [] = field ++ end_text end
row_text end field (next ∷ fields) = field ++ b'\t' ∷ row_text end next fields

cut_field-end :
    (end : LineEnd) (field : Text)
    → IsField field
    → cut_field (field ++ end_text end) ≡ (field, none)
unfolding cut_field
cut_field-end feed [] h = refl
cut_field-end nothing [] h = refl
cut_field-end end (c ∷ field) h = ground (arith, cut_field-end end field h.1)

cut_field-tab :
    (field rest : Text) → IsField field → cut_field (field ++ b'\t' ∷ rest) ≡ (field, some rest)
unfolding cut_field
cut_field-tab [] rest h = refl
cut_field-tab (c ∷ field) rest h = ground (arith, cut_field-tab field rest h.1)

-- A line of fields, with or without its line feed, is split into these fields, up to the maximum.
pub split_fields-row_text :
    (end : LineEnd) (field : Text) (fields : List Text) (maximum : ℕ)
    → All IsField (field ∷ fields)
    → split_fields (row_text end field fields) maximum ≡ take maximum (field ∷ fields)
unfolding split_from
split_fields-row_text end field fields zero h = refl
split_fields-row_text end field [] (suc maximum) h = rw (cut_field-end end field h.0) (stop maximum)
  where
    stop : (n : ℕ) → field ∷ split_from n none ≡ field ∷ take n []
    stop zero = refl
    stop (suc n) = refl
split_fields-row_text end field (next ∷ fields) (suc maximum) h =
    rw (cut_field-tab field (row_text end next fields) h.0)
      (ap (λ l. field ∷ l) (split_fields-row_text end next fields maximum h.1))
