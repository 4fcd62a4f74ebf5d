-- ===== src/Mutation/Compile/Options.antt =====
-- Which options `is_compile_output_option` of components/mutation/src/execution.c names.
use p101_test.Base.{
  ◌≡◌, refl, Text, codes, not, ◌&&◌, ◌||◌, [], ◌∷◌, ◌==◌, get_or, has_prefix, text_eq, ap, arith,
}
use p101_test.Mutation.Compile.{is_compile_output_option}

first_test :
    (argument : Text)
    → ((get_or argument 0 0 == b'-')
        && (get_or argument 1 0 == b'o')
        && not (text_eq argument (codes "-ObjC")))
      ≡ has_prefix argument (codes "-o")
unfolding text_eq has_prefix
first_test [] = refl
first_test (a ∷ []) = ground arith
first_test (a ∷ b ∷ argument) = ground arith

-- An argument is an output option exactly when it starts with -o, -MF, -MT or -MQ: that -ObjC is left out
-- makes no difference.
pub is_compile_output_option-prefixes :
    (argument : Text)
    → is_compile_output_option argument ≡ (
        has_prefix argument (codes "-o")
        || has_prefix argument (codes "-MF")
        || has_prefix argument (codes "-MT")
        || has_prefix argument (codes "-MQ"))
unfolding is_compile_output_option
is_compile_output_option-prefixes argument =
    ap
      (λ b.
        b
        || has_prefix argument (codes "-MF")
        || has_prefix argument (codes "-MT")
        || has_prefix argument (codes "-MQ"))
      (first_test argument)
