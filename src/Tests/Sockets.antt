-- ===== src/Tests/Sockets.antt =====
-- The flags of a socket at concrete inputs: F_GETFL gives O_RDWR, which is 2.
use pixiecpp.Base.{◌≡◌, refl, [], ◌∷◌, arith, ℤ, pos}
use pixiecpp.Os.{Reply, returned, ◌>>=◌, sys_getfl, sys_setfl}
use pixiecpp.Blk.Socket.Read.{world}
use pixiecpp.Sockets.Flags.{socket_set_blocking, socket_set_non_blocking}
use pixiecpp.Sockets.Flags.Toggle.{socket_set_blocking-socket_set_non_blocking}

abbrev answer : ℤ → Reply
answer v = record { value = v; errno = 0; bytes = []; read_set = []; write_set = [] }

socket_set_blocking-socket_set_non_blocking_example :
    (socket_set_non_blocking (pos 5) >>= socket_set_blocking)
      (world (answer (pos 2) ∷ answer (pos 0) ∷ answer (pos 6) ∷ answer (pos 0) ∷ []) [])
    ≡ returned (pos 5) (
        world []
          (sys_getfl (pos 5) ∷ sys_setfl (pos 5) 6 ∷ sys_getfl (pos 5) ∷ sys_setfl (pos 5) 2 ∷ []))
socket_set_blocking-socket_set_non_blocking_example =
    socket_set_blocking-socket_set_non_blocking (pos 5) 2 (answer (pos 2)) (answer (pos 6))
      (answer (pos 0)) (answer (pos 0)) [] [] (omega arith) refl refl refl refl refl
