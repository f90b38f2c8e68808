-- ===== src/Sockets/Data.antt =====
-- socket_read_data, socket_write_data, the flush and the close of Pixie-XC/socket_functions.cpp.
pub mod Writes
use Prim.Native.String.{String}
use pixiecpp.Base.{
  ℕ, Bool, true, false, not, ◌&&◌, Option, none, some, ◌==◌, ltb, if◌then◌else◌, ℤ, pos, negsuc,
  eq_ℤ, ltb_ℤ, is_pos, is_neg, to_ℕ, to_size, Bytes, take, get_or, length,
}
use pixiecpp.ErrorCodes.{
  socket_status_good, socket_status_eof, socket_status_error, socket_status_eagain,
}
use pixiecpp.Os.{
  Reply, M, pure, ◌>>=◌, ◌>>◌, ask, note, when, assert_failed, eagain, eintr, sys_read, sys_write,
  sys_close, sys_shutdown, sys_recv, sys_getsockopt, report,
}

-- socket_throw_error: it throws nothing, it prints.
abbrev pub socket_throw_error : String → M (Unit {0})
socket_throw_error message = note (report message)

-- What socket_read_data hands back: `howMuch`, the bytes in the buffer, and `*status`.
pub record ReadData : Type 0 where
  pub how_much : ℤ
  pub buffer : Bytes
  pub status : ℤ

read_status : Reply → M ℤ
read_status r =
    let is_error = eq_ℤ r.value (negsuc 0) && (not (r.errno == eagain) && not (r.errno == eintr)) in
    if is_pos r.value
    then pure socket_status_good
    else if eq_ℤ r.value (pos 0) && not is_error
    then pure socket_status_eof
    else do
      socket_throw_error "read failed"
      pure (if r.errno == eagain then socket_status_eagain else socket_status_error)

-- socket_read_data
unfoldable pub socket_read_data : ℤ → ℕ → M ReadData
unfolding read_status
socket_read_data socket buffer_length = do
  r ← ask (sys_read socket buffer_length)
  status ← read_status r
  pure (record { how_much = r.value; buffer = take (to_ℕ r.value) r.bytes; status = status })

-- What socket_write_data hands back: its value, and `*status` if it was written.
pub record WriteData : Type 0 where
  pub good : Bool
  pub status : Option ℤ

write_failed : String → M WriteData
write_failed message = do
  socket_throw_error message
  pure (record { good = false; status = some socket_status_error })

write_result : ℤ → ℤ → M WriteData
unfolding write_failed
write_result (negsuc n) buffer_length = write_failed "write failed r < 0"
write_result (pos n) buffer_length =
    if ltb 0 n && eq_ℤ (pos n) buffer_length
    then pure (record { good = true; status = none })
    else if ltb 0 n && ltb_ℤ (pos n) buffer_length
    then assert_failed
    else write_failed "write failed else"

-- socket_write_data. write(2) takes the length as a size_t; it is given no more bytes than there are.
unfoldable pub socket_write_data : ℤ → Bytes → ℤ → M WriteData
unfolding write_result
socket_write_data socket buffer buffer_length = do
  r ← ask (sys_write socket (take (to_size buffer_length) buffer))
  write_result r.value buffer_length

-- `count` is 3 unless getsockopt stores another value.
unfoldable pub socket_wait_for_write_flush : ℤ → M (Unit {0})
socket_wait_for_write_flush socket = do
  note (sys_shutdown socket "SHUT_WR")
  received ← ask (sys_recv socket)
  when (is_neg received.value) (socket_throw_error "wait on flush recv call failed")
  r ← ask (sys_getsockopt socket "SO_NWRITE")
  when (is_neg r.value) (socket_throw_error "SO_NWRITE call failed")
  when (ltb 0 (get_or r.bytes 0 3))
      (socket_throw_error "SO_NWRITE call returned count > 0 treat as io error")

-- socket_close
abbrev pub socket_close : ℤ → M (Unit {0})
socket_close socket = note (sys_close socket)
