-- ===== src/Tests/Options.antt =====
-- The options, the reports and the copies of test-mutation (components/mutation) on the small system.
use p101_test.Base.{
  ℕ, ◌≡◌, ◌+◌, refl, Bool, true, false, Text, codes, none, some, List, [], ◌∷◌, length, text_eq,
  has_prefix, ◌==◌, if◌then◌else◌, arith,
}
use p101_test.Mutation.Types.{Candidate, survived, killed}
use p101_test.Mutation.Trees.{FileTree}
use p101_test.Mutation.Trees.Copies.{write_all}
use p101_test.Mutation.Trees.Copies.Writes.{write_all-fuel}
use p101_test.Mutation.Library.{MutationLibrary}
use p101_test.Mutation.Options.{parse_arguments, parse_words, single_word, valued_option}
use p101_test.Mutation.Options.Ready.{Ready, parse_arguments-Ready}
use p101_test.Mutation.Report.{Judged, count_results, no_counters, outcome_of_run}
use p101_test.Mutation.Report.Summary.{status_of, outcomes, count_results-status_from}
use p101_test.Mutation.Status.{status_from}
use p101_test.Tests.{desk, start}
use p101_test.Mutation.Run.{Processes}
use p101_test.Tests.Running.{endless}

-- Numbers are not read; two operators are known.
abbrev names_of : ℕ → Text
names_of n = if n == 1 then codes "negate" else codes "skip"

module _ (P : Processes desk) (timeout : P.Timeout) where
  abbrev pub library_with : MutationLibrary desk P
  library_with = record {
    strtoul = λ text w. ((0, text), none, w);
    strtod = λ text w. ((timeout, text), none, w);
    is_positive = λ n. false;
    default_timeout = timeout;
    kind_from_name = λ name. none;
    kind_name = names_of;
    kinds = 1 ∷ 2 ∷ [];
    parse_output_option = λ text. some (true, false);
    json_write_string = λ stream text w. ((0, 0), none, w);
    outcome_exit_status = status_of;
    Report = Bool × Bool;
    report_begin = λ human json w. (((0, 0), (human, json)), none, w);
    Diagnostic = Text;
    diagnostic_initialize = λ path line message w. (((0, 0), message), none, w);
    report_emit = λ report diagnostic w. ((0, 0), none, w);
    report_end = λ report outcome status counters w. ((0, 0), none, w);
  }

abbrev library : MutationLibrary desk endless
library = library_with endless 120

-- An output that takes two bytes at a time, on an empty tree.
abbrev pub slow_tree : FileTree desk
slow_tree = record {
  lstat = λ path w. (none, none, w);
  mkdir = λ path mode w. (true, none, w);
  symlink = λ target path w. (true, none, w);
  unlink = λ path w. (true, none, w);
  rmdir = λ path w. (true, none, w);
  readlink = λ n path w. (none, none, w);
  is_exist = λ raised. false;
  Directory = ℕ;
  opendir = λ path w. (none, none, w);
  readdir = λ dir w. (none, none, w);
  closedir = λ dir w. (tt, none, w);
  entries_left = λ dir w. 0;
  File = ℕ;
  reads_left = λ file w. 0;
  open_read = λ path w. (some 3, none, w);
  open_write = λ path mode w. (some 4, none, w);
  read = λ n file w. (some [], none, w);
  write = λ text file w. (some 2, none, w);
  close = λ file w. (tt, none, w);
  mkdtemp = λ template w. (some template, none, w);
}

abbrev listing : List Text
listing =
    codes "test-mutation"
    ∷ codes "--compile-db"
    ∷ codes "db.json"
    ∷ codes "--list"
    ∷ codes "project"
    ∷ []

listing_parses : (parse_arguments desk endless library listing start).0.0 ≡ true
unfolding parse_arguments parse_words single_word valued_option text_eq has_prefix
listing_parses = refl

parse_arguments-Ready_example :
    Ready desk endless library (parse_arguments desk endless library listing start).0.1
parse_arguments-Ready_example =
    parse_arguments-Ready desk endless library listing start listing_parses

abbrev mutant : Candidate
mutant = record {
  path = codes "a.c";
  line = 3;
  start = 10;
  end = 11;
  original = some (codes "+");
  replacement = some (codes "-");
  kind = 1;
}

abbrev judged : List Judged
judged =
    record { candidate = mutant; outcome = killed }
    ∷ record { candidate = mutant; outcome = survived }
    ∷ record { candidate = mutant; outcome = killed }
    ∷ []

count_results-status_from_example :
    let c = count_results judged no_counters in
    (c.killed + (c.survived + c.inconclusive) ≡ length judged)
    × (status_of (outcome_of_run c) ≡ status_from 0 (outcomes judged))
count_results-status_from_example = count_results-status_from judged (omega arith)

write_all-fuel_example :
    write_all desk slow_tree 9 4 (codes "seven b") start
    ≡ write_all desk slow_tree 7 4 (codes "seven b") start
write_all-fuel_example = write_all-fuel desk slow_tree 4 9 (codes "seven b") start (omega arith)
