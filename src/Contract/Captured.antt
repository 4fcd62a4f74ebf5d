-- ===== src/Contract/Captured.antt =====
-- components/command-contract/src/main.c: `captured_equal`, `captured_contains` and `parse_mode`.
pub mod Search
use p101_test.Base.{
  ℕ, zero, suc, ◌-◌, Text, codes, Bool, true, false, ◌&&◌, Option, none, some, leb, ltb, ◌==◌,
  if◌then◌else◌, length, take, drop, text_eq,
}
use p101_test.Contract.Types.{
  Mode, determinism, redaction, output_limit, time_limit, recovery, schema_compatibility,
  side_effect_determinism,
}

unfoldable pub captured_equal : Text → Text → Bool
captured_equal left right =
    if (length left == length right) && ltb 0 (length left)
    then text_eq left right
    else length left == length right

-- The loop over the offsets, with the rounds left, on the bytes from the offset on.
unfoldable pub search : ℕ → Text → Text → Bool
search zero data' text = false
search (suc rounds) data' text =
    let rest = search rounds (drop 1 data') text in
    if text_eq (take (length text) data') text then true else rest

unfoldable pub captured_contains : Text → Text → Bool
unfolding search
captured_contains file text =
    if leb (length text) (length file)
    then search (suc (length file - length text)) file text
    else false

unfoldable pub parse_mode : Text → Option Mode
parse_mode text =
    if text_eq text (codes "determinism")
    then some determinism
    else if text_eq text (codes "redaction")
    then some redaction
    else if text_eq text (codes "output-limit")
    then some output_limit
    else if text_eq text (codes "time-limit")
    then some time_limit
    else if text_eq text (codes "recovery")
    then some recovery
    else if text_eq text (codes "schema-compatibility")
    then some schema_compatibility
    else if text_eq text (codes "side-effect-determinism")
    then some side_effect_determinism
    else none
