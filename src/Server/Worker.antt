-- ===== src/Server/Worker.antt =====
-- Class Worker of Pixie-XC/Worker.cpp, and the class Handler of Pixie-XC/Handler.cpp.
pub mod Reset
use pixiecpp.Base.{Bool, true, false, List, [], ◌∷◌, ℤ, pos, ◌≡◌, refl}
use pixiecpp.Os.{World, M, Outcome, returned, blocked, threw, aborted, exited, pure, ◌>>=◌}
use pixiecpp.Blk.Client.{Junk}
use pixiecpp.Blk.Handler.{Protocol, loopback, blk_proxy, http_proxy, new_handler}
use pixiecpp.Blk.Handler.Proxy.{TunnelMemory, handle_blk_normal}
use pixiecpp.Blk.Handler.Loopback.{handle_blk_loopback}

-- Class Handler; the fields that its functions do not use are left out.
pub record Handler : Type 0 where
  pub protocol : Protocol
  pub socket_fd : ℤ
  pub id : ℤ

-- Handler::handle. The HTTP entry does nothing.
by_protocol : Junk → TunnelMemory → Handler → Protocol → M (Unit {0})
by_protocol junk mem h blk_proxy =
    handle_blk_normal junk mem (new_handler junk blk_proxy h.socket_fd h.id)
by_protocol junk mem h http_proxy = pure tt
by_protocol junk mem h loopback =
    handle_blk_loopback junk (new_handler junk loopback h.socket_fd h.id)

unfoldable pub handle : Junk → TunnelMemory → Handler → M (Unit {0})
unfolding by_protocol
handle junk mem h = by_protocol junk mem h h.protocol

pub record Worker : Type 0 where
  pub active : Bool
  pub active_socket : ℤ
  pub protocol : Protocol
  pub id : ℤ

-- Worker::Worker
abbrev pub new_worker : Protocol → ℤ → Worker
new_worker protocol id = record {
  active = false;
  active_socket = pos 0;
  protocol = protocol;
  id = id;
}

-- `try … catch (std::exception e)`: what is thrown is caught, and `active` stays set.
abbrev caught : Worker → Outcome (Unit {0}) → Outcome Worker
caught w (returned _ world) = returned (record w { active = false }) world
caught w (threw world) = returned w world
caught w (blocked world) = blocked world
caught w (aborted world) = aborted world
caught w (exited c world) = exited c world

-- One round of Worker::main, with the descriptor that the queue gave it.
unfoldable pub worker_round : Junk → TunnelMemory → ℤ → Worker → M Worker
worker_round junk mem socket w world =
    let busy = record w { active = true; active_socket = socket } in
    caught busy
      (handle junk mem (record { protocol = w.protocol; socket_fd = socket; id = w.id }) world)

-- Worker::main over the descriptors that the queue hands out to this thread.
unfoldable pub worker_main : Junk → TunnelMemory → List ℤ → Worker → M Worker
worker_main junk mem [] w = pure (record w { active = false })
worker_main junk mem (s ∷ ss) w = do
  w' ← worker_round junk mem s (record w { active = false })
  worker_main junk mem ss w'

-- The handlers of the descriptors, one after the other, each from the world that the one before has
-- left: each of them ends, by a return or by an exception.
pub data Serves (junk : Junk) (mem : TunnelMemory) (protocol : Protocol) (id : ℤ)
    : World → List ℤ → World → Type 0 where
  none_left : {world : World} → Serves junk mem protocol id world [] world
  ended :
      {world world' world'' : World} {s : ℤ} {ss : List ℤ}
      → handle junk mem (record { protocol = protocol; socket_fd = s; id = id }) world
        ≡ returned tt world'
      → Serves junk mem protocol id world' ss world''
      → Serves junk mem protocol id world (s ∷ ss) world''
  thrown :
      {world world' world'' : World} {s : ℤ} {ss : List ℤ}
      → handle junk mem (record { protocol = protocol; socket_fd = s; id = id }) world
        ≡ threw world'
      → Serves junk mem protocol id world' ss world''
      → Serves junk mem protocol id world (s ∷ ss) world''

abbrev pub last_of : ℤ → List ℤ → ℤ
last_of d [] = d
last_of d (s ∷ ss) = last_of s ss

-- A worker serves every descriptor that the queue hands to it, in order, also behind handlers that
-- throw: where each handler ends, by a return or by an exception, Worker::main makes the calls of the
-- handlers one after the other and none of its own, so that it does not close the descriptor of a
-- handler that threw, and then waits for the next descriptor with `active` reset.
pub worker_main-Serves :
    (junk : Junk) (mem : TunnelMemory) (ss : List ℤ) (w : Worker) (world world' : World)
    → Serves junk mem w.protocol w.id world ss world'
    → worker_main junk mem ss w world
      ≡ returned (record w { active = false; active_socket = last_of w.active_socket ss }) world'
unfolding worker_main worker_round
worker_main-Serves junk mem [] w world world' Serves.none_left = refl
worker_main-Serves junk mem (s ∷ ss) w world world' (Serves.ended {world' = between} e more) =
    rw e (
      worker_main-Serves junk mem ss (record w { active = false; active_socket = s }) between world'
        more)
worker_main-Serves junk mem (s ∷ ss) w world world' (Serves.thrown {world' = between} e more) =
    rw e (
      worker_main-Serves junk mem ss (record w { active = true; active_socket = s }) between world'
        more)
