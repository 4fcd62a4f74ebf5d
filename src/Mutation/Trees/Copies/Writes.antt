-- ===== src/Mutation/Trees/Copies/Writes.antt =====
-- The inner loop of copy_file in components/mutation/src/files.c and its fuel.
use p101_test.Base.{
  ℕ, zero, suc, ◌≤◌, ◌≡◌, refl, inl, inr, Option, none, some, Text, [], ◌∷◌, ltb, length, drop,
  length-drop, State, call, Bool-cases, arith,
}
use p101_test.System.{System}
use p101_test.Mutation.Trees.{FileTree}
use p101_test.Mutation.Trees.Copies.{write_all, write_rest}

module _ (S : System) (F : FileTree S) (output : F.File) where
  open S use {World}

  -- Behind a write, on two fuels.
  write_rest-fuel :
      (m n : ℕ) (text : Text)
      → ((rest : Text) (s : State World)
          → length rest ≤ m
          → length rest ≤ n
          → write_all S F m output rest s ≡ write_all S F n output rest s)
      → length text ≤ suc m
      → length text ≤ suc n
      → (written : Option ℕ) (s : State World)
      → write_rest S F (write_all S F m output) text written s
        ≡ write_rest S F (write_all S F n output) text written s
  write_rest-fuel m n text ih hm hn none s = refl
  write_rest-fuel m n text ih hm hn (some zero) s = refl
  write_rest-fuel m n text ih hm hn (some (suc k)) s =
      elim (Bool-cases (ltb (length text) (suc k))) [
        | inl e ↦ rw e refl
        | inr e ↦ rw e (
            ih (drop (suc k) text) s (omega (arith, length-drop (suc k) text))
              (omega (arith, length-drop (suc k) text)))
      ]

  write_all-agree :
      (m n : ℕ) (text : Text) (s : State World)
      → length text ≤ m
      → length text ≤ n
      → write_all S F m output text s ≡ write_all S F n output text s
  unfolding write_all
  write_all-agree zero zero [] s hm hn = refl
  write_all-agree zero zero (b ∷ text) s hm hn = refl
  write_all-agree zero (suc n) [] s hm hn = refl
  write_all-agree zero (suc n) (b ∷ text) s hm hn = ground arith
  write_all-agree (suc m) zero [] s hm hn = refl
  write_all-agree (suc m) zero (b ∷ text) s hm hn = ground arith
  write_all-agree (suc m) (suc n) [] s hm hn = refl
  write_all-agree (suc m) (suc n) (b ∷ text) s hm hn =
      let r = call (F.write (b ∷ text) output) s in
      write_rest-fuel m n (b ∷ text) (write_all-agree m n) hm hn r.0 r.1

  -- Whatever the calls do, a fuel of the length of the buffer is enough for the loop that writes it: any
  -- greater fuel gives the same result and the same state.
  pub write_all-fuel :
      (fuel : ℕ) (text : Text) (s : State World)
      → length text ≤ fuel
      → write_all S F fuel output text s ≡ write_all S F (length text) output text s
  write_all-fuel fuel text s h = write_all-agree fuel (length text) text s h (omega arith)
