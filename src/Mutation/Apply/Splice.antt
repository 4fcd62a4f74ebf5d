-- ===== src/Mutation/Apply/Splice.antt =====
-- What `p101_mutation_apply_candidate` of components/mutation/src/files.c writes.
use p101_test.Base.{
  ℕ, ◌+◌, ◌≤◌, ◌≡◌, refl, sym, ap, subst, ◌∙◌, Text, codes, Bool, true, false, not, ◌&&◌, Option,
  none, some, List, [], ◌∷◌, ◌++◌, append_assoc, append-nil, add_raised, ◌==◌, inl, inr, Bool-cases,
  length, take, drop, take-eq_self, has_prefix, State, Failure, call, has_failures, arith,
}
use p101_test.System.{System}
use p101_test.Mutation.Types.{path_size, Candidate}
use p101_test.Mutation.Apply.Current.{splice, is_current-splice}
use p101_test.Mutation.Apply.{
  text_of, relative_path, is_current, write_parts, write_mutant, edit, give_up, read_source, rewind,
  measure, apply_at, apply_candidate,
}

abbrev pub concat : List Text → Text
concat [] = []
concat (part ∷ parts) = part ++ concat parts

-- Streams that are written: `written` is what a stream has taken.
pub record Writes (S : System) (written : S.Stream → S.World → Text) : Type 0 where
  pub fopen_lem :
      (path : Text) (w : S.World) (output : S.Stream)
      → (S.fopen path (codes "wb") w).0 ≡ some output
      → written output (S.fopen path (codes "wb") w).2 ≡ []
  pub fwrite_lem :
      (t : Text) (output : S.Stream) (w : S.World)
      → written output (S.fwrite t output w).2 ≡ written output w ++ take (S.fwrite t output w).0 t
  pub fclose_lem :
      (output : S.Stream) (w : S.World) → written output (S.fclose output w).2 ≡ written output w

two : (a b : Bool) → (a && not b) ≡ true → (a ≡ true) × (b ≡ false)
two a b h = ground arith

module _ (S : System) (written : S.Stream → S.World → Text) (R : Writes S written) where
  open S use {World, Stream}

  write_parts_lem :
      (output : Stream) (parts : List Text) (s : State World)
      → (write_parts S output parts s).0 ≡ true
      → written output (write_parts S output parts s).1.world
        ≡ written output s.world ++ concat parts
  unfolding write_parts
  write_parts_lem output [] s h = sym (append-nil _)
  write_parts_lem output (part ∷ parts) s h =
      elim (Bool-cases ((S.fwrite part output s.world).0 == length part)) [
        | inl e ↦ rw e (
            write_parts_lem output parts _ (later e)
            ∙ ap (λ t. t ++ concat parts)
                (R.fwrite_lem part output s.world ∙ ap (λ t. written output s.world ++ t) (whole e))
            ∙ append_assoc (written output s.world) part (concat parts))
        | inr e ↦ ground arith
      ]
    where
      next : State World
      next = record {
        raised = add_raised (S.fwrite part output s.world).1 s.raised;
        world = (S.fwrite part output s.world).2;
      }

      later :
          ((S.fwrite part output s.world).0 == length part) ≡ true
          → (write_parts S output parts next).0 ≡ true
      later e = ground arith

      whole :
          ((S.fwrite part output s.world).0 == length part) ≡ true
          → take (S.fwrite part output s.world).0 part ≡ part
      whole e = take-eq_self _ part (ground arith)

  -- The calls on the target, each in the world that the one before leaves.
  abbrev opened : Text → World → Option Stream × Option Failure × World
  opened target w = S.fopen target (codes "rb") w

  abbrev told : Text → Stream → World → Option ℕ × Option Failure × World
  told target stream w = S.ftell stream (S.fseek_end stream (opened target w).2).2

  abbrev bytes_read : Text → Stream → ℕ → World → Text × Option Failure × World
  bytes_read target stream size w =
      S.fread size stream
        (S.allocate (size + 1) (S.fseek_start stream (told target stream w).2).2).2

  abbrev reopened : Text → Stream → ℕ → World → Option Stream × Option Failure × World
  reopened target stream size w =
      S.fopen target (codes "wb") (S.fclose stream (bytes_read target stream size w).2).2

  -- From the world `w` the target was opened and read whole, its bytes were found current, and the target, opened
  -- to be written, has in the world `w'` the bytes with the replacement.
  pub record Edited (candidate : Candidate) (target : Text) (w w' : World) : Type 0 where
    pub input : Stream
    pub size : ℕ
    pub output : Stream
    pub input_opened : (opened target w).0 ≡ some input
    pub size_told : (told target input w).0 ≡ some size
    pub whole : length (bytes_read target input size w).0 ≡ size
    pub in_bounds : candidate.end ≤ size
    pub held :
        (bytes_read target input size w).0
        ≡ splice candidate (text_of candidate.original) (bytes_read target input size w).0
    pub output_opened : (reopened target input size w).0 ≡ some output
    pub replaced :
        written output w'
        ≡ splice candidate (text_of candidate.replacement) (bytes_read target input size w).0

  -- What `edit` does with contents that are current.
  record Replaced (candidate : Candidate) (target contents : Text) (w w' : World) : Type 0 where
    in_bounds : candidate.end ≤ length contents
    held : contents ≡ splice candidate (text_of candidate.original) contents
    output : Stream
    output_opened : (S.fopen target (codes "wb") w).0 ≡ some output
    replaced : written output w' ≡ splice candidate (text_of candidate.replacement) contents

  write_mutant_lem :
      (candidate : Candidate) (contents : Text) (output : Stream) (s : State World)
      → written output s.world ≡ []
      → (write_mutant S candidate contents (some output) s).0 ≡ true
      → written output (write_mutant S candidate contents (some output) s).1.world
        ≡ splice candidate (text_of candidate.replacement) contents
  unfolding write_mutant
  write_mutant_lem candidate contents output s fresh h =
      let parts =
        take candidate.start contents
        ∷ text_of candidate.replacement
        ∷ drop candidate.end contents
        ∷ [] in
      R.fclose_lem output _
      ∙ write_parts_lem output parts s h
      ∙ ap (λ t. t ++ concat parts) fresh
      ∙ ap (λ t. take candidate.start contents ++ (text_of candidate.replacement ++ t))
          (append-nil (drop candidate.end contents))

  edit_lem :
      (candidate : Candidate) (target contents : Text) (s : State World)
      → (edit S candidate target contents s).0 ≡ true
      → Replaced candidate target contents s.world (edit S candidate target contents s).1.world
  unfolding edit write_mutant
  edit_lem candidate target contents s = elim (Bool-cases (is_current candidate contents)) [
    | inr e ↦ rw e (λ h. absurd (cc))
    | inl e ↦ rw e (go e (call (S.fopen target (codes "wb")) s).0 refl)
  ]
    where
      go :
          is_current candidate contents ≡ true
          → (o : Option Stream) → (S.fopen target (codes "wb") s.world).0 ≡ o
          → (write_mutant S candidate contents o (call (S.fopen target (codes "wb")) s).1).0 ≡ true
          → Replaced candidate target contents s.world
              (write_mutant S candidate contents o (call (S.fopen target (codes "wb")) s).1).1.world
      go current none e = λ h. absurd (cc)
      go current (some output) e = λ h.
          let (in_bounds, held) = is_current-splice candidate contents current in
          record {
            in_bounds = in_bounds;
            held = held;
            output = output;
            output_opened = e;
            replaced =
                write_mutant_lem candidate contents output _ (R.fopen_lem target s.world output e)
                  h;
          }

  -- What `read_source` does, from the world behind the allocation.
  record SourceRead (candidate : Candidate) (target : Text) (input : Stream) (size : ℕ)
      (w w' : World) : Type 0 where
    whole : length (S.fread size input w).0 ≡ size
    rest :
        Replaced candidate target
          (S.fread size input w).0
          (S.fclose input (S.fread size input w).2).2
          w'

  read_source_lem :
      (candidate : Candidate) (target : Text) (input : Stream) (size : ℕ) (made : Bool)
      (s : State World)
      → (read_source S candidate target input size made s).0 ≡ true
      → SourceRead candidate target input size s.world
          (read_source S candidate target input size made s).1.world
  unfolding read_source give_up
  read_source_lem candidate target input size false s = λ h. absurd (cc)
  read_source_lem candidate target input size true s =
      elim (Bool-cases (not (length (S.fread size input s.world).0 == size))) [
        | inl e ↦ rw e (λ h. absurd (cc))
        | inr e ↦ rw e (λ h. record {
          whole = ground arith;
          rest = edit_lem candidate target (S.fread size input s.world).0 _ h;
        })
      ]

  rewind_lem :
      (candidate : Candidate) (target : Text) (input : Stream) (size : ℕ) (s : State World)
      → (rewind S candidate target input (some size) s).0 ≡ true
      → SourceRead candidate target input size
          (S.allocate (size + 1) (S.fseek_start input s.world).2).2
          (rewind S candidate target input (some size) s).1.world
  unfolding rewind give_up
  rewind_lem candidate target input size s =
      elim (Bool-cases (not (S.fseek_start input s.world).0)) [
        | inl e ↦ rw e (λ h. absurd (cc))
        | inr e ↦ rw e (read_source_lem candidate target input size _ _)
      ]

  told_lem :
      (candidate : Candidate) (target : Text) (input : Stream) (w : World) (s : State World)
      → (opened target w).0 ≡ some input
      → s.world ≡ (told target input w).2
      → (size : Option ℕ) → (told target input w).0 ≡ size
      → (rewind S candidate target input size s).0 ≡ true
      → Edited candidate target w (rewind S candidate target input size s).1.world
  unfolding rewind give_up
  told_lem candidate target input w s e here none e' h = absurd (cc)
  told_lem candidate target input w s e here (some size) e' h =
      let read =
        subst
          (λ v.
            SourceRead candidate target input size
              (S.allocate (size + 1) (S.fseek_start input v).2).2
              (rewind S candidate target input (some size) s).1.world)
          here (rewind_lem candidate target input size s h) in
      record {
        input = input;
        size = size;
        output = read.rest.output;
        input_opened = e;
        size_told = e';
        whole = read.whole;
        in_bounds = subst (λ n. candidate.end ≤ n) read.whole read.rest.in_bounds;
        held = read.rest.held;
        output_opened = read.rest.output_opened;
        replaced = read.rest.replaced;
      }

  measure_lem :
      (candidate : Candidate) (target : Text) (w : World) (s : State World)
      → s.world ≡ (opened target w).2
      → (o : Option Stream) → (opened target w).0 ≡ o
      → (measure S candidate target o s).0 ≡ true
      → Edited candidate target w (measure S candidate target o s).1.world
  unfolding measure give_up
  measure_lem candidate target w s here none e = λ h. absurd (cc)
  measure_lem candidate target w s here (some input) e =
      elim (Bool-cases (not (S.fseek_end input s.world).0)) [
        | inl e' ↦ rw e' (λ h. absurd (cc))
        | inr e' ↦
            let size = S.ftell input (S.fseek_end input s.world).2 in
            let told_at : size ≡ told target input w =
              ap (λ v. S.ftell input (S.fseek_end input v).2) here in
            rw e' (
              told_lem candidate target input w _ e (ap (λ r. r.2) told_at) size.0
                (sym (ap (λ r. r.0) told_at)))
      ]

  -- The path of the candidate's file in the copy, and the world in which it is opened.
  abbrev target_at : Candidate → Text → Text → World → (Option ℕ × Text) × Option Failure × World
  target_at candidate copy canonical w =
      S.snprintf path_size (copy ++ codes "/" ++ relative_path canonical candidate.path) w

  -- The candidate's path starts with the canonical project, and its file in the copy was edited.
  pub record EditedCopy (candidate : Candidate) (copy : Text) (canonical : Option Text)
      (w w' : World) : Type 0 where
    pub project : Text
    pub resolved : canonical ≡ some project
    pub inside : has_prefix candidate.path project ≡ true
    pub edited :
        Edited candidate
          (target_at candidate copy project w).0.1
          (target_at candidate copy project w).2
          w'

  apply_at_lem :
      (candidate : Candidate) (copy : Text) (o : Option Text) (s : State World)
      → (apply_at S candidate copy o s).0 ≡ true
      → EditedCopy candidate copy o s.world (apply_at S candidate copy o s).1.world
  unfolding apply_at
  apply_at_lem candidate copy none s = λ h. absurd (cc)
  apply_at_lem candidate copy (some project) s =
      elim (Bool-cases (has_prefix candidate.path project)) [
        | inr e ↦ rw e (λ h. absurd (cc))
        | inl e ↦ rw e (λ h. record {
          project = project;
          resolved = refl;
          inside = e;
          edited =
              let target = target_at candidate copy project s.world in
              measure_lem candidate target.0.1 target.2 _ refl (opened target.0.1 target.2).0 refl
                h;
        })
      ]

  -- Where a file that is opened to be written starts empty and takes what is written: when `apply_candidate`
  -- reports success, no failure stands, the candidate's path starts with the canonical project, the file at the
  -- same place in the copy was opened and read whole and held the original text in the candidate's range, and
  -- this file, opened again to be written, has exactly the bytes that were read with the replacement in this
  -- range.
  pub apply_candidate-Edited :
      (project copy : Text) (candidate : Candidate) (s : State World)
      → (apply_candidate S project candidate copy s).0 ≡ true
      → let resolved = S.realpath project s.world in
        (has_failures (apply_candidate S project candidate copy s).1.raised ≡ false)
        × EditedCopy candidate copy resolved.0 resolved.2
            (apply_candidate S project candidate copy s).1.world
  unfolding apply_candidate
  apply_candidate-Edited project copy candidate s h =
      let (applied, quiet) = two _ _ h in (quiet, apply_at_lem candidate copy _ _ applied)
