-- ===== src/Tests/Mutation.antt =====
-- The mutants of components/mutation on the small system.
use p101_test.Base.{
  ◌≡◌, ◌++◌, refl, sym, ap, true, false, Bool, has_failures, has_prefix, State, arith, text_eq,
  Text, codes, none, some, List, [], ◌∷◌, length, take-eq_self, inr, All,
}
use p101_test.System.{System}
use p101_test.Mutation.Types.{Candidate, Candidates, AnalysisRecord}
use p101_test.Mutation.Candidates.Collect.{Works, observe_all, observe_all_lem, collected}
use p101_test.Mutation.Paths.{is_in_project}
use p101_test.Mutation.Paths.Rewrite.{HasNoNul, Inside, HasRoom, is_in_project-Inside}
use p101_test.Mutation.Apply.{is_current, edit, apply_candidate, write_parts}
use p101_test.Mutation.Apply.Splice.{Writes, EditedCopy, apply_candidate-Edited}
use p101_test.Mutation.Compile.{copy_arguments}
use p101_test.Mutation.Compile.Filter.{rewrite_all}
use p101_test.Mutation.Compile.Items.{
  Item, compile_only, apart, joined, word, OutputOption, object, dependencies, target,
  quoted_target, option_text, IsItem, command_of, plain_words, copy_arguments-plain_words,
}
use p101_test.Tests.{Desk, desk, clear_desk, start}

abbrev found : AnalysisRecord
found = record {
  is_mutation = true;
  mutation = 2;
  path = codes "/p/a.c";
  line = 4;
  start_offset = 2;
  end_offset = 4;
  name = codes "==";
  replacement = codes "!=";
}

abbrev none_yet : Candidates
none_yet = record { items = []; capacity = 1; operators = 2 ∷ [] }

-- The small system with a `snprintf` whose buffer is as large as the text.
abbrev roomy_desk : System
roomy_desk = record desk { snprintf = λ n t w. ((some (length t), t), none, w) }

roomy_desk-Works : Works roomy_desk (λ p. p)
roomy_desk-Works = record {
  realpath_lem = λ p w. refl;
  snprintf_lem = λ p w. refl;
  allocate_lem = λ n w. refl;
}

observe_all_lem_example : (observe_all roomy_desk (found ∷ found ∷ []) none_yet start).0 ≡ (
  true,
  record none_yet {
    items = collected roomy_desk (λ p. p) roomy_desk-Works (found ∷ found ∷ []) none_yet;
  },
)
observe_all_lem_example =
    observe_all_lem roomy_desk (λ p. p) roomy_desk-Works (found ∷ found ∷ []) none_yet start refl

abbrev project : Text
project = codes "/p"

abbrev inside_path : Text
inside_path = codes "/p/a.c"

abbrev sibling_path : Text
sibling_path = codes "/pq"

inside_clean : HasNoNul inside_path
inside_clean = (
  λ e. ground arith,
  (
    λ e. ground arith,
    (λ e. ground arith, (λ e. ground arith, (λ e. ground arith, (λ e. ground arith, tt)))),
  ),
)

sibling_clean : HasNoNul sibling_path
sibling_clean = (λ e. ground arith, (λ e. ground arith, (λ e. ground arith, tt)))

abbrev a_inside : Inside project inside_path
a_inside = record { suffix = codes "/a.c"; split = refl; boundary = inr (codes "a.c", refl) }

sibling_test : is_in_project project sibling_path ≡ false
unfolding is_in_project has_prefix
sibling_test = refl

differ : (b : Bool) → b ≡ false → b ≡ true → ⊥
differ b e e' = ground arith

sibling_outside : ¬ Inside project sibling_path
sibling_outside = λ i.
    differ (is_in_project project sibling_path) sibling_test
      ((is_in_project-Inside project sibling_path sibling_clean).1 i)

roomy_desk-HasRoom : HasRoom roomy_desk
roomy_desk-HasRoom = record { allocate_lem = λ n w. refl; snprintf_lem = λ n t w h. refl }

abbrev candidate : Candidate
candidate = record {
  path = inside_path;
  line = 1;
  start = 2;
  end = 4;
  original = some (codes "==");
  replacement = some (codes "!=");
  kind = 2;
}

abbrev source_start : State Desk
source_start = record { raised = []; world = record clear_desk { left = codes "a ==b" } }

abbrev desk_written : Unit {0} → Desk → Text
desk_written output w = w.out

desk-Writes : Writes desk desk_written
unfolding text_eq
desk-Writes = record {
  fopen_lem = λ path w output e. refl;
  fwrite_lem = λ t output w. ap (λ l. w.out ++ l) (sym (take-eq_self (length t) t (omega arith)));
  fclose_lem = λ output w. refl;
}

applied : (apply_candidate desk project candidate (codes "/tmp/m") source_start).0 ≡ true
unfolding apply_candidate text_eq has_prefix is_current edit write_parts
applied = refl

apply_candidate-Edited_example :
    let resolved = desk.realpath project source_start.world in
    (has_failures (apply_candidate desk project candidate (codes "/tmp/m") source_start).1.raised
      ≡ false)
    × EditedCopy desk desk_written desk-Writes candidate
        (codes "/tmp/m")
        resolved.0
        resolved.2
        (apply_candidate desk project candidate (codes "/tmp/m") source_start).1.world
apply_candidate-Edited_example =
    apply_candidate-Edited desk desk_written desk-Writes project (codes "/tmp/m") candidate
      source_start applied

abbrev compile_items : List Item
compile_items =
    word (codes "cc")
    ∷ compile_only
    ∷ apart object (codes "a.o")
    ∷ joined dependencies (codes "a.d")
    ∷ apart quoted_target (codes "a")
    ∷ word (codes "a.c")
    ∷ []

cc-plain : (option : OutputOption) → has_prefix (codes "cc") (option_text option) ≡ false
unfolding has_prefix
cc-plain object = refl
cc-plain dependencies = refl
cc-plain target = refl
cc-plain quoted_target = refl

source-plain : (option : OutputOption) → has_prefix (codes "a.c") (option_text option) ≡ false
unfolding has_prefix
source-plain object = refl
source-plain dependencies = refl
source-plain target = refl
source-plain quoted_target = refl

items-IsItem : All IsItem compile_items
unfolding text_eq
items-IsItem = ((refl, cc-plain), (tt, (tt, (refl, (tt, ((refl, source-plain), tt))))))

copy_arguments-plain_words_example :
    copy_arguments desk project (codes "/tmp/m") false (command_of compile_items) start
    ≡ rewrite_all desk project (codes "/tmp/m") (plain_words compile_items) start
copy_arguments-plain_words_example =
    copy_arguments-plain_words desk project (codes "/tmp/m") compile_items start items-IsItem
