-- ===== src/Blk/Socket.antt =====
-- Class BlkSocket of Pixie-XC/Protocols/BLK/BlkSocket.cpp: messages over a socket.
pub mod Read
pub mod Reassembly
pub mod Write
pub mod Calls
use pixiecpp.Base.{
  ℕ, zero, suc, Bool, true, false, if◌then◌else◌, ℤ, eq_ℤ, is_neg, to_int, until_nul, length,
}
use pixiecpp.ErrorCodes.{
  socket_status_good, socket_status_eof, socket_status_error, blk_read_status_ok,
  blk_read_status_eof, blk_read_status_parse_error, blk_read_status_ioerror,
}
use pixiecpp.Os.{M, blocked, pure, ◌>>=◌, throw_exception, assert_failed}
use pixiecpp.Sockets.Data.{
  ReadData, socket_read_data, socket_write_data, socket_wait_for_write_flush, socket_close,
}
use pixiecpp.Blk.Message.{BlkMessage, to_raw_string}
use pixiecpp.Blk.Parser.{BlkParser, new_parser, append}

abbrev pub buffer_length : ℕ
buffer_length = 10000

-- What readMessage hands back: its value, the message behind `msg`, and `status`.
pub record ReadResult : Type 0 where
  pub got : Bool
  pub msg : BlkMessage
  pub status : ℤ

abbrev pub result : Bool → BlkParser → ℤ → ReadResult
result got parser status = record { got = got; msg = parser.msg; status = status }

-- One round of the loop ends with a result or with the parser for the next round.
pub data Round : Type 0 where
  done : ReadResult → Round
  again : BlkParser → Round

-- the tests after `parser.append`
abbrev pub after_append : BlkParser → Round
after_append parser =
    if parser.message_complete
    then done (result true parser blk_read_status_ok)
    else if parser.parse_error
    then done (result false parser blk_read_status_parse_error)
    else again parser

-- the tests of `sockStatus`
abbrev by_status : BlkParser → ReadData → M Round
by_status parser d =
    if eq_ℤ d.status socket_status_good
    then pure (after_append (append parser d.buffer).1)
    else if eq_ℤ d.status socket_status_eof
    then pure (done (result false parser blk_read_status_eof))
    else if eq_ℤ d.status socket_status_error
    then pure (done (result false parser blk_read_status_ioerror))
    else assert_failed

-- One round: `std::string buffer_as_string(buffer, n)` throws std::length_error at a negative `n`.
unfoldable pub read_round : ℤ → BlkParser → M Round
read_round socket parser = do
  d ← socket_read_data socket buffer_length
  if is_neg d.how_much then throw_exception else by_status parser d

-- `for(;;)`. Every round makes a system call, so one round more than there are replies is enough.
unfoldable pub read_loop : ℕ → ℤ → BlkParser → M ReadResult
read_loop zero socket parser = λ w. blocked w
read_loop (suc fuel) socket parser = do
  r ← read_round socket parser
  elim r [ done d ↦ pure d | again p ↦ read_loop fuel socket p ]

-- BlkSocket::readMessage. `junk` is what the memory of the parser's `msgLength` holds.
unfoldable pub read_message : ℤ → ℤ → BlkMessage → M ReadResult
read_message junk socket msg w = read_loop (suc (length w.script)) socket (new_parser msg junk) w

-- BlkSocket::writeMessage: `status` is left as it was, and the value is `true`, whatever
-- socket_write_data says. `strlen` ends the text at the first NUL, and its length is made an `int`.
unfoldable pub write_message : ℤ → BlkMessage → ℤ → M (Bool × ℤ)
write_message socket msg status = do
  let buffer = until_nul (to_raw_string msg)
  _ ← socket_write_data socket buffer (to_int (length buffer))
  pure (true, status)

-- BlkSocket::flush
abbrev pub flush : ℤ → M (Unit {0})
flush socket = socket_wait_for_write_flush socket

-- BlkSocket::close
abbrev pub close : ℤ → M (Unit {0})
close socket = socket_close socket
