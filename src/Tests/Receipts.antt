-- ===== src/Tests/Receipts.antt =====
-- The receipt over repositories (components/repository-receipt) on the small system.
use mathlib.Core.List.{Perm}
use p101_test.Base.{
  ℕ, ◌≡◌, ◌⊎◌, refl, true, false, Text, codes, Option, none, some, List, [], ◌∷◌, length,
  has_failures, text_eq, State, drop,
}
use p101_test.Repository.Types.{ReceiptLibrary}
use p101_test.Repository.Paths.{has_suffix, sort_paths, insert_path, sort_from, pour, text_le}
use p101_test.Repository.Paths.Order.{IsSorted, sort_paths-IsSorted}
use p101_test.Repository.Result.{
  load_results, load_result, load_paths, collect_paths, read_fields, split_fields, cut_field,
  cut_line, valid_duration, copy_fields, copy_field,
}
use p101_test.Repository.Receipt.{write_receipt, write_records, write_members, write_json_string}
use p101_test.Repository.Program.{main, run, parse_arguments, parse_words, passed_from, is_failing}
use p101_test.Repository.Program.Passing.{Judged, receipt-decided}
use p101_test.Tests.{Desk, desk, clear_desk}

-- A directory with one entry, which stands as a byte in `left`.
abbrev entry_of : Text → Option Text
entry_of [] = none
entry_of (b ∷ left) = some (codes "one.result")

abbrev shelf : ReceiptLibrary desk
shelf = record {
  Directory = Unit {0};
  opendir = λ path w. (some tt, none, w);
  readdir = λ dir w. (entry_of w.left, none, record w { left = drop 1 w.left });
  closedir = λ dir w. (true, none, w);
  entries_left = λ dir w. length w.left;
  strtol = λ text w. ((some 3, []), none, w);
  write = λ stream text w. (true, none, w);
  json_write_string = λ stream text w. ((0, 0), none, w);
  Diagnostic = Text;
  diagnostic_initialize_id = λ id path identity message. (0, message);
  diagnostic_write = λ diagnostic w. (0, none, w);
  error_message = λ raised. codes "failed";
}

abbrev with_result : Text → State Desk
with_result line = record {
  raised = [];
  world = record clear_desk { lines = line ∷ []; left = 1 ∷ [] };
}

abbrev missing_unit : State Desk
missing_unit = with_result (codes "lib_c|MISSING|PASS|t.log|f.log|3\n")

abbrev receipt_line : List Text
receipt_line =
    codes "repository-receipt"
    ∷ codes "--results"
    ∷ codes "results"
    ∷ codes "--output"
    ∷ codes "receipt.json"
    ∷ []

abbrev one : ℕ
one = 1

missing_fails : (main desk shelf receipt_line missing_unit).0 ≡ some one
unfolding main run parse_arguments parse_words passed_from is_failing write_receipt write_records
    write_members write_json_string load_results load_result load_paths collect_paths read_fields
    split_fields cut_field cut_line valid_duration copy_fields copy_field has_suffix sort_paths
    insert_path sort_from pour text_le text_eq
missing_fails = refl

receipt-decided_example :
    let parsed = parse_arguments desk shelf receipt_line missing_unit in
    (one ≡ 2)
    ⊎ ((has_failures (main desk shelf receipt_line missing_unit).1.raised ≡ false)
        × (((parsed.0.1.help ≡ true) × (one ≡ 0))
            ⊎ ((parsed.0.0 ≡ true) × Judged desk shelf parsed.0.1 parsed.1 one)))
receipt-decided_example = receipt-decided desk shelf receipt_line missing_unit one missing_fails

abbrev three_paths : List Text
three_paths = codes "b.result" ∷ codes "c.result" ∷ codes "a.result" ∷ []

sort_paths-IsSorted_example :
    IsSorted (sort_paths three_paths) × Perm three_paths (sort_paths three_paths)
sort_paths-IsSorted_example = sort_paths-IsSorted three_paths
