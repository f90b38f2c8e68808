-- ===== src/Server/Listener.antt =====
-- Class Listener of Pixie-XC/Listener.cpp: the thread that accepts connections.
pub mod Order
use pixiecpp.Base.{if◌then◌else◌, ℕ, zero, suc, ℤ, is_pos, length}
use pixiecpp.Os.{M, pure, ◌>>=◌, ◌>>◌, ask, blocked, note, sys_accept, report}
use pixiecpp.Sockets.Connect.{socket_create_listener_on_port}
use pixiecpp.Queue
use pixiecpp.Queue.{Queue}

-- The loop of Listener::main. Where accept fails, the exception that it throws is caught below the
-- loop, and the thread ends. Every round makes a system call, so one round more than there are
-- replies is enough.
unfoldable pub accept_loop : ℕ → ℤ → Queue → M Queue
accept_loop zero socket_fd q = λ w. blocked w
accept_loop (suc fuel) socket_fd q = do
  r ← ask (sys_accept socket_fd)
  let rest = accept_loop fuel socket_fd (Queue.add r.value q)
  if is_pos r.value
      then rest
      else (note (report "Listener thread :: accept failed terminating")
          >> (note (report "Listener Thread Terminated abnromally with runtime_error") >> pure q))

-- Listener::main
unfoldable pub listener_main : ℤ → Queue → M Queue
listener_main port q = do
  socket_fd ← socket_create_listener_on_port port
  λ w. accept_loop (suc (length w.script)) socket_fd q w
