-- ===== src/Faults/Limits.antt =====
-- The defaults and limits of src/cli.c.
use p101_test.Base.{ℕ}

abbrev pub default_max_failures : ℕ
default_max_failures = 1024

abbrev pub max_failures_limit : ℕ
max_failures_limit = 100000

abbrev pub eio : ℕ
eio = 5
