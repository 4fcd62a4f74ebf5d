-- ===== src/Mutation/Compile/Items.antt =====
-- The compile command of components/mutation/src/execution.c as a sequence of options and their values.
use p101_test.Base.{
  ◌≡◌, refl, ap, ◌∙◌, Text, codes, Bool, false, ◌||◌, List, [], ◌∷◌, ◌++◌, All, has_prefix, text_eq,
  State, arith,
}
use p101_test.System.{System}
use p101_test.Mutation.Compile.{
  compile_option_takes_value, is_compile_output_option, copy_arguments,
}
use p101_test.Mutation.Compile.Filter.{kept, rewrite_all, copy_arguments-kept}
use p101_test.Mutation.Compile.Options.{is_compile_output_option-prefixes}

-- The options that name a file that the compiler writes, or a target in one.
pub data OutputOption : Type 0 where
  object dependencies target quoted_target : OutputOption

abbrev pub option_text : OutputOption → Text
option_text object = codes "-o"
option_text dependencies = codes "-MF"
option_text target = codes "-MT"
option_text quoted_target = codes "-MQ"

-- A part of a command: `-c`, an output option with its value behind it or joined to it, where it is not empty,
-- or any other word.
pub data Item : Type 0 where
  compile_only : Item
  apart joined : OutputOption → Text → Item
  word : Text → Item

abbrev pub words_of : Item → List Text
words_of compile_only = codes "-c" ∷ []
words_of (apart option value) = option_text option ∷ value ∷ []
words_of (joined option value) = (option_text option ++ value) ∷ []
words_of (word text) = text ∷ []

abbrev pub command_of : List Item → List Text
command_of [] = []
command_of (item ∷ items) = words_of item ++ command_of items

-- The words that are not options of the output.
abbrev pub plain_words : List Item → List Text
plain_words [] = []
plain_words (compile_only ∷ items) = plain_words items
plain_words (apart option value ∷ items) = plain_words items
plain_words (joined option value ∷ items) = plain_words items
plain_words (word text ∷ items) = text ∷ plain_words items

-- A word is neither `-c` nor starts with an output option; a joined value is not empty.
abbrev pub IsItem : Item → Type 0
IsItem compile_only = Unit {0}
IsItem (apart option value) = Unit {0}
IsItem (joined option value) = text_eq value [] ≡ false
IsItem (word text) =
    (text_eq text (codes "-c") ≡ false)
    × ((option : OutputOption) → has_prefix text (option_text option) ≡ false)

kept-apart :
    (option : OutputOption) (value : Text) (rest : List Text)
    → kept false (option_text option ∷ value ∷ rest) ≡ kept false rest
unfolding kept compile_option_takes_value text_eq
kept-apart object value rest = refl
kept-apart dependencies value rest = refl
kept-apart target value rest = refl
kept-apart quoted_target value rest = refl

kept-joined :
    (option : OutputOption) (value : Text) (rest : List Text)
    → text_eq value [] ≡ false
    → kept false ((option_text option ++ value) ∷ rest) ≡ kept false rest
unfolding kept compile_option_takes_value is_compile_output_option text_eq has_prefix
kept-joined option [] rest h = absurd (cc)
kept-joined object (c ∷ value) rest h = refl
kept-joined dependencies (c ∷ value) rest h = refl
kept-joined target (c ∷ value) rest h = refl
kept-joined quoted_target (c ∷ value) rest h = refl

prefix-text_eq : (text option : Text) → has_prefix text option ≡ false → text_eq text option ≡ false
unfolding has_prefix text_eq
prefix-text_eq text [] h = absurd (cc)
prefix-text_eq [] (c ∷ option) h = refl
prefix-text_eq (a ∷ text) (c ∷ option) h = ground (arith, prefix-text_eq text option)

four-false :
    (a b c d : Bool) → a ≡ false → b ≡ false → c ≡ false → d ≡ false → (a || b || c || d) ≡ false
four-false a b c d h h' h'' h''' = ground arith

takes_no_value :
    (text : Text)
    → ((option : OutputOption) → has_prefix text (option_text option) ≡ false)
    → compile_option_takes_value text ≡ false
unfolding compile_option_takes_value
takes_no_value text h =
    four-false (text_eq text (codes "-o")) (text_eq text (codes "-MF")) (text_eq text (codes "-MT"))
      (text_eq text (codes "-MQ")) (prefix-text_eq text (codes "-o") (h object))
      (prefix-text_eq text (codes "-MF") (h dependencies))
      (prefix-text_eq text (codes "-MT") (h target))
      (prefix-text_eq text (codes "-MQ") (h quoted_target))

is_no_output :
    (text : Text)
    → ((option : OutputOption) → has_prefix text (option_text option) ≡ false)
    → is_compile_output_option text ≡ false
is_no_output text h =
    is_compile_output_option-prefixes text
    ∙ four-false (has_prefix text (codes "-o")) (has_prefix text (codes "-MF"))
        (has_prefix text (codes "-MT")) (has_prefix text (codes "-MQ")) (h object) (h dependencies)
        (h target) (h quoted_target)

kept-command :
    (items : List Item) → All IsItem items → kept false (command_of items) ≡ plain_words items
unfolding kept text_eq
kept-command [] h = refl
kept-command (compile_only ∷ items) (h, hs) = kept-command items hs
kept-command (apart option value ∷ items) (h, hs) =
    kept-apart option value (command_of items) ∙ kept-command items hs
kept-command (joined option value ∷ items) (h, hs) =
    kept-joined option value (command_of items) h ∙ kept-command items hs
kept-command (word text ∷ items) ((plain, h), hs) =
    rw (plain, takes_no_value text h, is_no_output text h)
      (ap (λ rest. text ∷ rest) (kept-command items hs))

-- In a command of -c, of -o, -MF, -MT and -MQ, each with its value behind it or joined to it, and of words that
-- are neither -c nor start with one of these four, the loop rewrites exactly the words, in their order, and
-- stops at the first failure.
pub copy_arguments-plain_words :
    (S : System) (project copy : Text) (items : List Item) (s : State S.World)
    → All IsItem items
    → copy_arguments S project copy false (command_of items) s
      ≡ rewrite_all S project copy (plain_words items) s
copy_arguments-plain_words S project copy items s h =
    copy_arguments-kept S project copy false (command_of items) s
    ∙ ap (λ words. rewrite_all S project copy words s) (kept-command items h)
