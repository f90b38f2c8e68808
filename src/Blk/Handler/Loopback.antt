-- ===== src/Blk/Handler/Loopback.antt =====
-- HandlerBlk::handleBlkLoopBack of Pixie-XC/Protocols/BLK/HandlerBlk.cpp: every message is sent back.
pub mod Echo
use pixiecpp.Base.{ℕ, zero, suc, Bool, true, false, if◌then◌else◌, ℤ, pos, eq_ℤ, length}
use pixiecpp.ErrorCodes.{blk_read_status_eof, blk_read_status_parse_error, blk_read_status_ioerror}
use pixiecpp.Os.{M, pure, ◌>>=◌, ◌>>◌, blocked}
use pixiecpp.Blk.Message.{empty_message}
use pixiecpp.Blk.Socket.{ReadResult, read_message, write_message, flush}
use pixiecpp.Blk.Client.{Junk}
use pixiecpp.Blk.Handler.{HandlerBlk}

-- The tests after the first: `true` where the loop breaks.
later_tests : ℤ → ReadResult → M Bool
later_tests socket r =
    if eq_ℤ r.status blk_read_status_parse_error
    then (flush socket >> pure true)
    else pure (eq_ℤ r.status blk_read_status_ioerror)

-- One round of the loop. The `status` that the write sets is another variable.
echo : ℤ → ReadResult → M Bool
unfolding later_tests
echo socket r =
    if r.got
    then (write_message socket r.msg (pos 0) >> later_tests socket r)
    else if eq_ℤ r.status blk_read_status_eof
    then (flush socket >> pure true)
    else later_tests socket r

unfoldable pub loopback_round : Junk → ℤ → M Bool
unfolding echo
loopback_round junk socket = do
  r ←
      read_message junk.parser_length socket
        (empty_message junk.destination_port junk.message_length)
  echo socket r

unfoldable pub loopback_loop : ℕ → Junk → ℤ → M (Unit {0})
loopback_loop zero junk socket = λ w. blocked w
loopback_loop (suc fuel) junk socket = do
  stop ← loopback_round junk socket
  elim stop [ true ↦ pure tt | false ↦ loopback_loop fuel junk socket ]

-- Every round makes a system call, so one round more than there are replies is enough.
unfoldable pub handle_blk_loopback : Junk → HandlerBlk → M (Unit {0})
handle_blk_loopback junk h w = loopback_loop (suc (length w.script)) junk h.socket_fd w
