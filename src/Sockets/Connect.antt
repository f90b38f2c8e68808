-- ===== src/Sockets/Connect.antt =====
-- socket_create_listener_on_port and socket_connect_host_port of Pixie-XC/socket_functions.cpp.
pub mod Calls
use Prim.Native.String.{String}
use pixiecpp.Base.{ℕ, ◌-◌, ◌%◌, ◌^◌, if◌then◌else◌, ℤ, pos, negsuc, eq_ℤ, is_neg, Bytes}
use pixiecpp.Os.{
  M, pure, ◌>>=◌, ◌>>◌, ask, note, when, unless, sys_gethostbyname, sys_socket, sys_connect,
  sys_bind, sys_listen, sys_setsockopt,
}
use pixiecpp.Sockets.Data.{socket_throw_error}

-- An `int` converted to an `unsigned short`.
abbrev pub to_u16 : ℤ → ℕ
to_u16 (pos n) = n % 2 ^ 16
to_u16 (negsuc n) = 2 ^ 16 - 1 - n % 2 ^ 16

-- socket_create_listener_on_port: every failure is printed, and none ends the function.
unfoldable pub socket_create_listener_on_port : ℤ → M ℤ
socket_create_listener_on_port port = do
  s ← ask sys_socket
  when (eq_ℤ s.value (negsuc 0)) (socket_throw_error "socket call failed")
  o ← ask (sys_setsockopt s.value "SO_REUSEADDR")
  unless (eq_ℤ o.value (pos 0)) (socket_throw_error "the bind failed %d")
  b ← ask (sys_bind s.value (pos (to_u16 port)))
  unless (eq_ℤ b.value (pos 0)) (socket_throw_error "the bind failed %d")
  l ← ask (sys_listen s.value)
  unless (eq_ℤ l.value (pos 0)) (socket_throw_error "the listen failed %d")
  pure s.value

-- The value and `*status` of socket_connect_host_port.
pub record Connected : Type 0 where
  pub sock : ℤ
  pub status : ℤ

-- A failure: a line on stderr, `*status = errno`, and the value 0.
refused : String → ℕ → M Connected
refused message errno = do
  socket_throw_error message
  pure (record { sock = pos 0; status = pos errno })

-- the last step, on the new socket `fd`
connect_socket : ℤ → ℕ → M Connected
connect_socket fd port = do
  note (sys_setsockopt fd "SO_NOSIGPIPE")
  c ← ask (sys_connect fd (pos port))
  if is_neg c.value
      then refused "Connection refused." c.errno
      else pure (record { sock = fd; status = pos 0 })

open_socket : ℕ → M Connected
unfolding connect_socket refused
open_socket port = do
  s ← ask sys_socket
  if is_neg s.value then refused "socket call refused." s.errno else connect_socket s.value port

-- socket_connect_host_port. gethostbyname returns 0 for an unknown host.
unfoldable pub socket_connect_host_port : Bytes → ℤ → M Connected
unfolding open_socket refused
socket_connect_host_port hostname port = do
  he ← ask (sys_gethostbyname hostname)
  if eq_ℤ he.value (pos 0) then refused "Unknown host." he.errno else open_socket (to_u16 port)
