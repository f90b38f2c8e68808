-- ===== src/Sockets/Connect/Calls.antt =====
-- socket_connect_host_port writes nothing.
use Prim.Native.String.{String}
use pixiecpp.Base.{ℕ, ℤ, pos, eq_ℤ, is_neg, Bytes}
use pixiecpp.Os.{sys_gethostbyname, sys_socket, sys_connect}
use pixiecpp.Os.Calls.{Only, Only-bind, Only-then, Only-pure, Only-note, Only-ask, Only-if}
use pixiecpp.Sockets.Data.Writes.{Writes}
use pixiecpp.Sockets.Connect.{
  socket_connect_host_port, refused, connect_socket, open_socket, to_u16,
}

module _ {W : ℤ → Bytes → Type 0} where
  refused-Only :
      (message : String) (errno : ℕ) → Only (Writes W) (λ _. Unit {0}) (refused message errno)
  unfolding refused
  refused-Only message errno = Only-then (Only-note _ tt tt) (Only-pure tt)

  connect_socket-Only :
      (fd : ℤ) (port : ℕ) → Only (Writes W) (λ _. Unit {0}) (connect_socket fd port)
  unfolding connect_socket
  connect_socket-Only fd port = Only-then (Only-note _ tt tt) (
      Only-bind (Only-ask (sys_connect fd (pos port)) tt (λ _. tt)) (λ c _.
        Only-if (is_neg c.value) (λ _. refused-Only "Connection refused." c.errno)
          (λ _. Only-pure tt)))

  open_socket-Only : (port : ℕ) → Only (Writes W) (λ _. Unit {0}) (open_socket port)
  unfolding open_socket
  open_socket-Only port = Only-bind (Only-ask sys_socket tt (λ _. tt)) (λ s _.
      Only-if (is_neg s.value) (λ _. refused-Only "socket call refused." s.errno)
        (λ _. connect_socket-Only s.value port))

  pub socket_connect_host_port-Only :
      (hostname : Bytes) (port : ℤ)
      → Only (Writes W) (λ _. Unit {0}) (socket_connect_host_port hostname port)
  unfolding socket_connect_host_port
  socket_connect_host_port-Only hostname port =
      Only-bind (Only-ask (sys_gethostbyname hostname) tt (λ _. tt)) (λ he _.
        Only-if (eq_ℤ he.value (pos 0)) (λ _. refused-Only "Unknown host." he.errno)
          (λ _. open_socket-Only (to_u16 port)))
