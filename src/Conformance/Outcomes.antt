-- ===== src/Conformance/Outcomes.antt =====
-- components/conformance/src/main.c: `finding` and `load_outcomes`.
pub mod Steps
pub mod Matching
use p101_test.Base.{
  ℕ, Text, codes, Bool, true, false, not, ◌&&◌, Option, none, some, List, [], ◌++◌, ◌==◌,
  if◌then◌else◌, length, get_or, text_eq, size_add, user, M, ◌>>=◌, ◌>>◌, return, call,
  call_optional, raise,
}
use p101_test.System.{System}
use p101_test.Conformance.Types.{max_line, einval, ExpectedFault, Conformance, ConformanceLibrary}
use p101_test.Conformance.Fields.{split_fields}
use p101_test.Conformance.Table.{is_fault_of, find_fault, update_first}
use p101_test.Conformance.Lines.{read_all, fitting}

abbrev pub mark_observed : ExpectedFault → ExpectedFault
mark_observed fault = record fault { observed = true }

-- An observed fault is marked, and counted.
abbrev pub observe : Text → Text → Text → Conformance → Conformance
observe wrapper domain symbol c = record c {
  faults = update_first (is_fault_of wrapper domain symbol) mark_observed c.faults;
  fault_outcomes_observed = size_add c.fault_outcomes_observed 1;
}

abbrev pub count_finding : Conformance → Conformance
count_finding c = record c { findings = size_add c.findings 1 }

module _ (S : System) (L : ConformanceLibrary S) where
  open S use {World, Stream, snprintf, fopen, fclose}
  open L use {Diagnostic, diagnostic_initialize_id, diagnostic_write}

  abbrev pub write_prepared : ℕ × Diagnostic → M World ℕ
  write_prepared prepared =
      if prepared.0 == 0 then call_optional (diagnostic_write prepared.1) else return prepared.0

  abbrev pub write_detail : Text → Text → Option (ℕ × Text) → M World ℕ
  write_detail path identity none = return 0
  write_detail path identity (some detail) =
      write_prepared
        (diagnostic_initialize_id (codes "P101-TEST-CONFORMANCE-002") path identity detail.1)

  unfoldable pub finding : Text → Text → Text → Text → Conformance → M World Conformance
  finding path library message identity c = do
    written ←
        call_optional
          (snprintf max_line (library ++ codes ": " ++ identity ++ codes ": " ++ message))
    write_detail path identity (fitting max_line written)
    return (count_finding c)

  -- The finding on an outcome that is not a pass.
  unfoldable pub judge_status : Text → Text → Text → Text → Conformance → M World Conformance
  unfolding finding
  judge_status path library wrapper status c =
      if not (text_eq status (codes "PASS"))
      then finding path library (codes "fault outcome failed") wrapper c
      else return c

  unfoldable pub unexpected : Text → Text → Text → Conformance → M World (Bool × Conformance)
  unfolding finding
  unexpected path library wrapper c = do
    c' ← finding path library (codes "unexpected or duplicate fault outcome") wrapper c
    return (true, c')

  -- The outcome of the fault that is expected, if it is.
  unfoldable pub outcome_of :
      Text → Text → List Text → Conformance → Option ExpectedFault → M World (Bool × Conformance)
  unfolding unexpected judge_status
  outcome_of path library fields c none = unexpected path library (get_or fields 5 []) c
  outcome_of path library fields c (some fault) =
      if fault.observed then unexpected path library (get_or fields 5 []) c else (do
        c' ← judge_status path library (get_or fields 5 []) (get_or fields 9 []) c
        return (true, observe (get_or fields 5 []) (get_or fields 6 []) (get_or fields 7 []) c'))

  abbrev pub reject : Text → Conformance → M World (Bool × Conformance)
  reject message c = do raise (user message einval); return (false, c)

  -- The body of the loop.
  unfoldable pub outcome_line : Text → Text → Text → Conformance → M World (Bool × Conformance)
  unfolding outcome_of
  outcome_line path library line c =
      let fields = split_fields line 10 in
      if not (length fields == 10)
      then reject (codes "malformed wrapper outcome record") c
      else if not (text_eq (get_or fields 0 []) (codes "P101WRAPPER"))
      then reject (codes "unsupported wrapper outcome record") c
      else outcome_of path library fields c
          (find_fault (get_or fields 5 []) (get_or fields 6 []) (get_or fields 7 []) c.faults)

  unfoldable pub read_outcomes :
      Text → Text → Conformance → Option Stream → M World (Bool × Conformance)
  unfolding read_all outcome_line
  read_outcomes path library c none = return (false, c)
  read_outcomes path library c (some stream) = do
    r ← read_all S stream (outcome_line path library) c
    closed ← call (fclose stream)
    return (r.0 && closed, r.1)

  unfoldable pub load_outcomes : Text → Text → Conformance → M World (Bool × Conformance)
  unfolding read_outcomes
  load_outcomes path library c = do
    stream ← call (fopen path (codes "r"))
    read_outcomes path library c stream
