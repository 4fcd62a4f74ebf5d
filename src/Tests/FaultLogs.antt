-- ===== src/Tests/FaultLogs.antt =====
-- The fault log and the policy files of src/paths.c and src/resource.c on the small system.
use p101_test.Base.{
  ℕ, zero, suc, ◌≡◌, ◌+◌, ◌<◌, ◌++◌, refl, ap, ◌∙◌, ◌==◌, not, ◌||◌, false, Bool, add_raised, State,
  Failure, arith, text_eq, Text, codes, Option, none, some, List, [], ◌∷◌, length, length-take, ◌≤◌,
  take, drop, get_or, if◌then◌else◌,
}
use p101_test.Faults.Paths.FaultLog.{
  read_fault_hit, check_line, contains_byte, fault_semantics_valid, hit, bad,
}
use p101_test.Faults.Paths.FaultLog.Laws.{IsRecordFormat, record_line, check_line-record_line}
use p101_test.Faults.Paths.FaultLog.Scan.{
  Delivers, finish, deliver, LinesFall, first_verdict, outcome_of, raised_by, read_fault_hit_lem,
}
use p101_test.Faults.Policy.{read_loop}
use p101_test.Faults.Policy.Buffer.{Fits, ReadsAtMost}
use p101_test.Faults.Policy.Contents.{IsFile, Holds, read_loop-Holds}
use p101_test.Tests.{
  Desk, desk, clear_desk, library, escape, escape_byte, unescape_from, split_at_tab, first_line,
}

unescape-escape_byte :
    (c n : ℕ) (t : Text) → unescape_from n (escape_byte c t) ≡ (n + c) ∷ unescape_from 0 t
unescape-escape_byte zero n t = ap (λ m. m ∷ unescape_from 0 t) (omega arith)
unescape-escape_byte (suc c) n t =
    unescape-escape_byte c (suc n) t ∙ ap (λ m. m ∷ unescape_from 0 t) (omega arith)

unescape-escape : (t : Text) → unescape_from 0 (escape t) ≡ t
unescape-escape [] = refl
unescape-escape (c ∷ t) =
    unescape-escape_byte c 0 (escape t)
    ∙ ap (λ l. (0 + c) ∷ l) (unescape-escape t)
    ∙ ap (λ m. m ∷ t) (omega arith)

-- Neither of the two bytes of an escaped text.
lacks-escape_byte :
    (b c : ℕ) (t : Text)
    → (b'a' == b) ≡ false
    → (b'b' == b) ≡ false
    → contains_byte b t ≡ false
    → contains_byte b (escape_byte c t) ≡ false
unfolding contains_byte
lacks-escape_byte b zero t h h' e = ground arith
lacks-escape_byte b (suc c) t h h' e = ground (arith, lacks-escape_byte b c t h h' e)

lacks-escape :
    (b : ℕ) (t : Text)
    → (b'a' == b) ≡ false
    → (b'b' == b) ≡ false
    → contains_byte b (escape t) ≡ false
unfolding contains_byte
lacks-escape b [] h h' = refl
lacks-escape b (c ∷ t) h h' = lacks-escape_byte b c (escape t) h h' (lacks-escape b t h h')

neither : (b c : Bool) → (b || c) ≡ false → (b ≡ false) × (c ≡ false)
neither b c h = ground arith

split_last : (f : Text) → contains_byte 9 f ≡ false → split_at_tab f ≡ (f, none)
unfolding contains_byte
split_last [] h = refl
split_last (c ∷ f) h =
    let (e, e') = neither (c == 9) (contains_byte 9 f) h in rw (e, split_last f e') refl

split_more :
    (f rest : Text) → contains_byte 9 f ≡ false → split_at_tab (f ++ (9 ∷ rest)) ≡ (f, some rest)
unfolding contains_byte
split_more [] rest h = refl
split_more (c ∷ f) rest h =
    let (e, e') = neither (c == 9) (contains_byte 9 f) h in rw (e, split_more f rest e') refl

library-IsRecordFormat : IsRecordFormat library 9 escape
unfolding contains_byte
library-IsRecordFormat = record {
  split_last = split_last;
  split_more = split_more;
  unescape-escape = unescape-escape;
  escape-IsClean = λ f. record {
    no_sep = lacks-escape 9 f refl refl;
    no_newline = lacks-escape 10 f refl refl;
    no_return = lacks-escape 13 f refl refl;
  };
  tag-IsClean = record { no_sep = refl; no_newline = refl; no_return = refl };
  sep_ne_newline = λ p. ground arith;
  sep_ne_return = λ p. ground arith;
}

-- A record of the log: version, process, calls seen, name, errno, mode, amount, phase and disposition.
abbrev written : List Text
written =
    codes "1"
    ∷ codes "42"
    ∷ codes "2"
    ∷ codes "p101_open"
    ∷ codes "5"
    ∷ codes "error"
    ∷ codes "0"
    ∷ codes "entry"
    ∷ codes "not-started"
    ∷ []

check_line-record_line_example : check_line library (record_line library 9 escape written) ≡ (
    if not (length written == 9)
    then bad (codes "The fault log contains a malformed P101FAULT record.")
    else if not (text_eq (get_or written 0 []) library.fault_log_version)
    then bad (codes "The fault log version is not supported.")
    else if not (
        fault_semantics_valid library
          (get_or written 5 [])
          (get_or written 7 [])
          (get_or written 8 []))
    then bad (codes "The fault log contains inconsistent phase/disposition semantics.")
    else hit (take 127 (get_or written 3 [])))
check_line-record_line_example =
    check_line-record_line library 9 escape library-IsRecordFormat written

-- A log of a foreign line and a record.
abbrev log : List Text
unfolding record_line
log = (codes "note" ++ (10 ∷ [])) ∷ record_line library 9 escape written ∷ []

abbrev log_desk : Desk
log_desk = record clear_desk { lines = log }

abbrev log_start : State Desk
log_start = record { raised = []; world = log_desk }

drop_falls :
    (lines : List Text) (line : Text)
    → first_line lines ≡ some line
    → length (drop 1 lines) < length lines
drop_falls [] line e = ground arith
drop_falls (l ∷ lines) line e = omega arith

desk_lines_fall : LinesFall desk
desk_lines_fall = λ stream w line e. drop_falls w.lines line e

desk_delivers : Delivers desk tt log_desk log
unfolding log
desk_delivers = deliver _ _ refl (deliver _ _ refl (finish _ refl))

read_fault_hit_lem_example :
    ((read_fault_hit library desk (codes "fault.log") log_start).0
      ≡ outcome_of (first_verdict library log))
    × (x : Option Failure) × ((read_fault_hit library desk (codes "fault.log") log_start).1.raised
        ≡ add_raised x (raised_by (first_verdict library log) []))
unfolding log text_eq
read_fault_hit_lem_example =
    read_fault_hit_lem desk library (codes "fault.log") log_start tt none none desk_lines_fall refl
      refl desk_delivers

-- A file that is longer than the buffer and the limit.
abbrev file_desk : State Desk
file_desk = record { raised = []; world = record clear_desk { left = codes "0123456789" } }

length-take_le : (n : ℕ) (t : Text) → length (take n t) ≤ n
length-take_le n t = rw (length-take n t) (omega arith)

desk_reads_at_most : ReadsAtMost desk
desk_reads_at_most = λ n stream w. length-take_le n w.left

small-Fits : Fits 6 2 []
small-Fits = record { room = omega arith; capped = omega arith }

abbrev desk_left : Unit {0} → Desk → Text
desk_left stream w = w.left

desk-IsFile : IsFile desk desk_left
desk-IsFile = record {
  fread_lem = λ n stream w. refl;
  left-fread = λ n stream w. refl;
  allocate_lem = λ n w. refl;
  left-allocate = λ n stream w. refl;
}

read_loop-Holds_example :
    Holds desk desk_left desk-IsFile 6
      ([] ++ codes "0123456789")
      (read_loop desk 6 6 tt 2 [] file_desk).0
read_loop-Holds_example =
    read_loop-Holds desk desk_left desk-IsFile 6 6 tt 2 [] file_desk small-Fits (omega arith) refl
