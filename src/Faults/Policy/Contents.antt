-- ===== src/Faults/Policy/Contents.antt =====
-- The contents of the growing buffer of src/resource.c.
use p101_test.Base.{
  ℕ, zero, suc, ◌+◌, ◌-◌, ◌<◌, ◌≤◌, ◌≡◌, Text, true, false, none, [], ◌∷◌, ◌++◌, ltb, ◌==◌, length,
  length-append, length-take, take, drop, take-append-drop, take-length_append, State, M,
  has_failures, arith, refl, sym, ap, subst, ◌∙◌, Bool-cases, inl, inr, append_assoc, append-nil,
  take-eq_self,
}
use p101_test.System.{System}
use p101_test.Faults.Policy.{ReadEnd, filled, next_capacity, read_chunk, grow_and_read, read_loop}
use p101_test.Faults.Policy.Buffer.{Fits, next_capacity-bounds}

-- A readable file and enough memory: `left` is what the stream has not yet given.
pub record IsFile (S : System) (left : S.Stream → S.World → Text) : Type 0 where
  pub fread_lem :
      (n : ℕ) (stream : S.Stream) (w : S.World)
      → S.fread n stream w ≡ (take n (left stream w), none, (S.fread n stream w).2)
  pub left-fread :
      (n : ℕ) (stream : S.Stream) (w : S.World)
      → left stream (S.fread n stream w).2 ≡ drop n (left stream w)
  pub allocate_lem : (n : ℕ) (w : S.World) → S.allocate n w ≡ (true, none, (S.allocate n w).2)
  pub left-allocate :
      (n : ℕ) (stream : S.Stream) (w : S.World) → left stream (S.allocate n w).2 ≡ left stream w

take-eq-nil : (n : ℕ) (xs : Text) → 0 < n → length (take n xs) ≡ 0 → xs ≡ []
take-eq-nil zero xs h e = elim h [ ]
take-eq-nil (suc n) [] h e = refl
take-eq-nil (suc n) (x ∷ xs) h e = absurd (omega arith)

eq-nil_of_length : (xs : Text) → length xs ≡ 0 → xs ≡ []
eq-nil_of_length [] e = refl
eq-nil_of_length (x ∷ xs) e = absurd (omega arith)

-- An empty read with room in the buffer means that the file is used up.
take-append_at_end :
    (n m : ℕ) (contents whole : Text)
    → 0 < n
    → length contents ≤ m
    → length (take n whole) ≡ 0
    → contents ++ take n whole ≡ take m (contents ++ whole)
take-append_at_end n m contents whole h k e =
    rw (eq-nil_of_length (take n whole) e, take-eq-nil n whole h e, append-nil)
      (sym (take-eq_self m contents k))

take-append_of_length : (n : ℕ) (xs ys : Text) → length xs ≡ n → take n (xs ++ ys) ≡ xs
take-append_of_length n xs ys e = rw (← e) (take-length_append xs ys)

module _ (S : System) (left : S.Stream → S.World → Text) (F : IsFile S left) where
  open S use {World, Stream, fread, allocate}

  -- The loop ended with the whole text up to the limit.
  abbrev pub Holds : ℕ → Text → ReadEnd → Type 0
  Holds limit whole end = (capacity : ℕ) × (end ≡ filled (take (limit - 1) whole) capacity)

  read_chunk-Holds :
      (rest : ℕ → Text → M World ReadEnd) (limit : ℕ) (stream : Stream) (capacity : ℕ)
      (contents : Text) (s : State World)
      → length contents + 1 < capacity
      → capacity ≤ limit
      → has_failures s.raised ≡ false
      → ((chunk : Text) (t : State World)
          → 0 < length chunk
          → Fits limit capacity (contents ++ chunk)
          → has_failures t.raised ≡ false
          → (contents ++ chunk) ++ left stream t.world ≡ contents ++ left stream s.world
          → Holds limit (contents ++ left stream s.world) (rest capacity (contents ++ chunk) t).0)
      → Holds limit
          (contents ++ left stream s.world)
          (read_chunk S rest stream capacity contents s).0
  unfolding read_chunk
  read_chunk-Holds rest limit stream capacity contents s h k fine later =
      let n = capacity - length contents - 1 in
      let whole = left stream s.world in
      rw (F.fread_lem n stream s.world, fine)
        (elim (Bool-cases (length (take n whole) == 0)) [
          | inl e ↦ rw e (
            capacity,
            ap (λ t. filled t capacity)
                (take-append_at_end n (limit - 1) contents whole (omega arith) (omega arith)
                  (ground arith)),
          )
          | inr e ↦ rw e (
              later (take n whole) _ (ground arith)
                (omega (arith, length-append contents (take n whole), length-take n whole)) fine
                (rw F.left-fread (rw append_assoc (rw take-append-drop))))
        ])

  grow_and_read-Holds :
      (rest : ℕ → Text → M World ReadEnd) (limit : ℕ) (stream : Stream) (capacity : ℕ)
      (contents : Text) (s : State World)
      → Fits limit capacity contents
      → length contents < limit - 1
      → has_failures s.raised ≡ false
      → ((capacity : ℕ) (chunk : Text) (t : State World)
          → 0 < length chunk
          → Fits limit capacity (contents ++ chunk)
          → has_failures t.raised ≡ false
          → (contents ++ chunk) ++ left stream t.world ≡ contents ++ left stream s.world
          → Holds limit (contents ++ left stream s.world) (rest capacity (contents ++ chunk) t).0)
      → Holds limit
          (contents ++ left stream s.world)
          (grow_and_read S rest limit stream capacity contents s).0
  unfolding grow_and_read
  grow_and_read-Holds rest limit stream capacity contents s fits below fine later =
      elim (Bool-cases (length contents == capacity - 1)) [
        | inl full ↦
            let (grows, capped) =
              next_capacity-bounds limit capacity (omega arith) (ground arith) in
            let cap = next_capacity limit capacity in
            let w' = (allocate cap s.world).2 in
            let same = F.left-allocate cap stream s.world in
            rw (full, F.allocate_lem cap s.world)
              (subst
                (λ l.
                  Holds limit (contents ++ l)
                    (read_chunk S rest stream cap contents
                      (record { raised = s.raised; world = w' })).0)
                same
                (read_chunk-Holds rest limit stream cap contents
                  (record { raised = s.raised; world = w' }) (ground arith) capped fine
                  (λ chunk t grown fits' fine' e.
                    subst (λ l. Holds limit (contents ++ l) (rest cap (contents ++ chunk) t).0)
                      (sym same)
                      (later cap chunk t grown fits' fine' (e ∙ ap (λ l. contents ++ l) same)))))
        | inr roomy ↦ rw roomy (
            read_chunk-Holds rest limit stream capacity contents s (ground arith) fits.capped fine
              (later _))
      ]

  -- With memory and a readable file, the loop ends with the bytes of the file below the limit,
  -- whatever sizes the reads and the buffer take on the way.
  pub read_loop-Holds :
      (fuel limit : ℕ) (stream : Stream) (capacity : ℕ) (contents : Text) (s : State World)
      → Fits limit capacity contents
      → limit < length contents + fuel + 1
      → has_failures s.raised ≡ false
      → Holds limit
          (contents ++ left stream s.world)
          (read_loop S fuel limit stream capacity contents s).0
  unfolding read_loop
  read_loop-Holds zero limit stream capacity contents s fits fuelled fine = absurd (omega arith)
  read_loop-Holds (suc fuel) limit stream capacity contents s fits fuelled fine =
      elim (Bool-cases (ltb (length contents) (limit - 1))) [
        | inl more ↦ rw more (
            grow_and_read-Holds (read_loop S fuel limit stream) limit stream capacity contents s
              fits (ground arith) fine
              (λ cap chunk t grown fits' fine' e.
                subst
                  (λ l. Holds limit l (read_loop S fuel limit stream cap (contents ++ chunk) t).0) e
                  (read_loop-Holds fuel limit stream cap (contents ++ chunk) t fits'
                    (omega (arith, length-append contents chunk)) fine')))
        | inr done ↦ rw done (
          capacity,
          ap (λ t. filled t capacity)
              (sym
                (take-append_of_length (limit - 1) contents (left stream s.world) (ground arith))),
        )
      ]
