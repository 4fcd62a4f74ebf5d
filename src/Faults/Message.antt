-- ===== src/Faults/Message.antt =====
-- src/cli.c: a message that is formatted in a `char[MSG_LEN]` and raised as a usage error.
use p101_test.Base.{Text, user, M, ◌>>=◌, call, raise}
use p101_test.System.{System}
use p101_test.Faults.Types.{msg_len, err_usage}

module _ (S : System) where
  open S use {World, snprintf}

  unfoldable pub raise_message : Text → M World (Unit {0})
  raise_message text = do written ← call (snprintf msg_len text); raise (user written.1 err_usage)
