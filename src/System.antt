-- ===== src/System.antt =====
-- The calls into the C library and the p101 libraries, over an unknown world. A call gives its
-- result, the failure that it raises, if any, and the world that it leaves.
use p101_test.Base.{ℕ, Text, Bool, Option, List, Call}

pub data Output : Type 0 where
  stdout stderr : Output

pub record System : Type 1 where
  pub World : Type 0
  pub Stream : Type 0
  -- `p101_snprintf` into a buffer of the given size: the number that it returns, unless it is
  -- negative, and the text left in the buffer. The second argument is the whole expansion.
  pub snprintf : ℕ → Text → Call World (Option ℕ × Text)
  -- `p101_fputs`, `p101_fputc`, `p101_printf` and `p101_fprintf`, on the expanded text.
  pub put : Output → Text → Call World (Unit {0})
  pub getpid : Call World ℕ
  -- `none` stands for a null result, here and below.
  pub fopen : Text → Text → Call World (Option Stream)
  -- Whether the call returned 0.
  pub fclose : Stream → Call World Bool
  -- A line, up to its first NUL.
  pub fgets : ℕ → Stream → Call World (Option Text)
  -- A bound on the lines that `fgets` still gives: a file is finite. It is the fuel of loops only.
  pub lines_left : Stream → World → ℕ
  pub fread : ℕ → Stream → Call World Text
  pub fwrite : Text → Stream → Call World ℕ
  -- Whether the call returned 0.
  pub fseek_end : Stream → Call World Bool
  pub fseek_start : Stream → Call World Bool
  pub ftell : Stream → Call World (Option ℕ)
  -- Whether the call gave memory: `p101_malloc`, `p101_calloc`, `p101_realloc`.
  pub allocate : ℕ → Call World Bool
  pub error_create : Call World Bool
  pub setenv : Text → Text → Call World (Unit {0})
  pub unsetenv : Text → Call World (Unit {0})
  pub getenv : Text → World → Option Text
  pub realpath : Text → Call World (Option Text)
  -- `p101_tool_run_capture` on an argument vector, with the two files that take its output.
  pub tool_run_capture : List Text → Text → Text → Call World ℕ
