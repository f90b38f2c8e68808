-- ===== src/Sockets/Flags.antt =====
-- The functions of Pixie-XC/socket_functions.cpp that read and set flags and options of a socket.
pub mod Toggle
use pixiecpp.Base.{
  ℕ, ◌+◌, ◌-◌, ◌/◌, ◌%◌, ◌^◌, Bool, true, false, ◌==◌, if◌then◌else◌, ◌||◌, ℤ, pos, negsuc, eq_ℤ,
  is_neg,
}
use pixiecpp.Os.{
  M, pure, ◌>>=◌, ◌>>◌, ask, note, when, unless, sys_getfl, sys_setfl, sys_shutdown, sys_setsockopt,
  sys_set_timeout, report,
}
use pixiecpp.Sockets.Data.{socket_throw_error}

-- The bit pattern of an `int`.
abbrev pub to_u32 : ℤ → ℕ
to_u32 (pos n) = n % 2 ^ 32
to_u32 (negsuc n) = 2 ^ 32 - 1 - n % 2 ^ 32

-- `flags & O_NONBLOCK`, where O_NONBLOCK is 0x0004, as a test
abbrev pub is_non_blocking : ℕ → Bool
is_non_blocking flags = flags / 4 % 2 == 1

-- `flags & ~O_NONBLOCK` and `flags | O_NONBLOCK`
abbrev pub clear_non_blocking : ℕ → ℕ
clear_non_blocking flags = if is_non_blocking flags then flags - 4 else flags

abbrev pub add_non_blocking : ℕ → ℕ
add_non_blocking flags = if is_non_blocking flags then flags else flags + 4

-- socket_is_blocking
unfoldable pub socket_is_blocking : ℤ → M Bool
socket_is_blocking socket = do
  val ← ask (sys_getfl socket)
  when (is_neg val.value) (socket_throw_error "FCNTL failed")
  pure (if is_neg val.value || is_non_blocking (to_u32 val.value) then false else true)

set_flags : ℤ → ℕ → M ℤ
set_flags socket flags = do
  fres ← ask (sys_setfl socket flags)
  when (is_neg fres.value) (socket_throw_error "non-blocking fcntl failed")
  pure socket

-- socket_set_blocking. A failed F_GETFL gives the flags -1.
unfoldable pub socket_set_blocking : ℤ → M ℤ
unfolding set_flags
socket_set_blocking socket = do
  flags ← ask (sys_getfl socket)
  set_flags socket (clear_non_blocking (to_u32 flags.value))

-- socket_set_non_blocking
unfoldable pub socket_set_non_blocking : ℤ → M ℤ
unfolding set_flags
socket_set_non_blocking socket = do
  flags ← ask (sys_getfl socket)
  set_flags socket (add_non_blocking (to_u32 flags.value))

-- socket_shutdown_read
unfoldable pub socket_shutdown_read : ℤ → M (Unit {0})
socket_shutdown_read socket = note (sys_shutdown socket "SHUT_RD")

-- socket_shutdown_write, which passes SHUT_RD too
unfoldable pub socket_shutdown_write : ℤ → M (Unit {0})
socket_shutdown_write socket = note (sys_shutdown socket "SHUT_RD")

-- socket_set_option: `||` makes the second call only if the first succeeds, and the error is
-- printed when neither failed.
unfoldable pub socket_set_option : ℤ → M (Unit {0})
socket_set_option socket = do
  first ← ask (sys_setsockopt socket "SO_NOSIGPIPE")
  unless (is_neg first.value) (
      ask (sys_setsockopt socket "SO_LINGER") >>= λ second.
      unless (is_neg second.value) (socket_throw_error "setsockopt failed"))

-- socket_set_reuse_addr
unfoldable pub socket_set_reuse_addr : ℤ → M (Unit {0})
socket_set_reuse_addr socket = do
  r ← ask (sys_setsockopt socket "SO_REUSEADDR")
  when (is_neg r.value) (note (report "the setsockopt REUSEADDR failed %d "))

-- socket_set_timeout: the interval that is asked for is not used.
unfoldable pub socket_set_timeout : ℤ → ℕ → M (Unit {0})
socket_set_timeout socket time_interval_seconds = do
  r ← ask (sys_set_timeout socket (if eq_ℤ socket (pos 0) then 15 else 2))
  when (is_neg r.value) (socket_throw_error "setsockopt in set timeout failed")
