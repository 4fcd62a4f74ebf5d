-- ===== src/Contract/Files.antt =====
-- components/command-contract/src/main.c: the capture of a run, and its files.
use p101_test.Base.{
  ℕ, ◌+◌, ◌-◌, Text, codes, Bool, true, false, not, Option, none, some, List, [], ◌∷◌, ◌++◌, leb,
  ltb, ◌==◌, if◌then◌else◌, length, decimal, size_mod, errno, M, ◌>>=◌, ◌>>◌, return, call,
  call_optional, raise, has_error,
}
use p101_test.System.{System}
use p101_test.Contract.Types.{prefix_size, RunCapture, ContractLibrary}

abbrev pub eoverflow : ℕ
eoverflow = 75

abbrev pub no_capture : RunCapture
no_capture = record { standard_output = []; standard_error = []; status = 0 }

-- A formatted text that the buffer took whole.
abbrev pub fitting : Option ℕ × Text → Option Text
fitting (none, text) = none
fitting (some n, text) = if leb prefix_size n then none else some text

module _ (S : System) (L : ContractLibrary S) where
  open S use {
    World, Stream, snprintf, put, getpid, fopen, fclose, fread, fseek_end, fseek_start, ftell,
    allocate, tool_run_capture, getenv,
  }

  close_with : Stream → Option Text → M World (Option Text)
  close_with stream result = do call_optional (fclose stream); return result

  fill : Stream → ℕ → Bool → M World (Option Text)
  unfolding close_with
  fill stream size false = close_with stream none
  fill stream size true = do
    contents ← call (fread size stream)
    if length contents == size then close_with stream (some contents) else close_with stream none

  overflow : Stream → M World (Option Text)
  unfolding close_with
  overflow stream = do raise (errno eoverflow); close_with stream none

  rewind : Stream → Option ℕ → M World (Option Text)
  unfolding fill overflow
  rewind stream none = overflow stream
  rewind stream (some size) = if ltb (size_mod - 2) size then overflow stream else do
    ok ← call (fseek_start stream)
    if not ok
        then close_with stream none
        else do made ← call (allocate (size + 1)); fill stream size made

  measure : Option Stream → M World (Option Text)
  unfolding rewind
  measure none = return none
  measure (some stream) = do
    ok ← call (fseek_end stream)
    if not ok then close_with stream none else do size ← call (ftell stream); rewind stream size

  unfoldable pub read_file : Text → M World (Option Text)
  unfolding measure
  read_file path = do stream ← call (fopen path (codes "rb")); measure stream

  read_error : Text → RunCapture → M World (Option RunCapture)
  read_error path capture = do
    contents ← read_file path
    elim contents [
      | none ↦ return none
      | some text ↦ return (some (record capture { standard_error = text }))
    ]

  read_both : Text → Text → ℕ → M World (Option RunCapture)
  unfolding read_error
  read_both stdout_path stderr_path status = do
    contents ← read_file stdout_path
    elim contents [
      | none ↦ return none
      | some text ↦
          read_error stderr_path (record no_capture { standard_output = text; status = status })
    ]

  capture_at : List Text → Text → Option Text → M World (Option RunCapture)
  unfolding read_both
  capture_at command stdout_path none = return none
  capture_at command stdout_path (some stderr_path) = do
    status ← call (tool_run_capture command stdout_path stderr_path)
    failed ← has_error
    if failed then return none else read_both stdout_path stderr_path status

  capture_from : List Text → Text → ℕ → Option Text → M World (Option RunCapture)
  unfolding capture_at
  capture_from command prefix run_index none = return none
  capture_from command prefix run_index (some stdout_path) = do
    written ←
        call (snprintf prefix_size (prefix ++ codes "-" ++ decimal run_index ++ codes ".stderr"))
    capture_at command stdout_path (fitting written)

  -- `run_command`; `none` means that it gave false.
  unfoldable pub run_command : List Text → Text → ℕ → M World (Option RunCapture)
  unfolding capture_from
  run_command command prefix run_index = do
    written ←
        call (snprintf prefix_size (prefix ++ codes "-" ++ decimal run_index ++ codes ".stdout"))
    capture_from command prefix run_index (fitting written)

  unlink_at : Option Text → M World (Unit {0})
  unlink_at none = return tt
  unlink_at (some path) = call_optional (L.unlink path)

  unfoldable pub remove_capture_files : Text → ℕ → M World (Unit {0})
  unfolding unlink_at
  remove_capture_files [] run_index = return tt
  remove_capture_files (c ∷ prefix) run_index = do
    out ←
        call_optional
          (snprintf prefix_size ((c ∷ prefix) ++ codes "-" ++ decimal run_index ++ codes ".stdout"))
    unlink_at (fitting out)
    error ←
        call_optional
          (snprintf prefix_size ((c ∷ prefix) ++ codes "-" ++ decimal run_index ++ codes ".stderr"))
    unlink_at (fitting error)
