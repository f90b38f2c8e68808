-- ===== src/Server/System/Ending.antt =====
-- The handlers of the server end when their clients do.
use pixiecpp.Base.{ℕ, ◌≡◌, refl, List, [], ◌∷◌, ◌++◌, ℤ, pos}
use pixiecpp.Os.{Reply, Call, World, returned, sys_close}
use pixiecpp.Blk.Message.{empty_message}
use pixiecpp.Blk.Parser.{new_parser, append}
use pixiecpp.Blk.Socket.Read.{world}
use pixiecpp.Blk.Socket.Reassembly.{reads, read_message-eof}
use pixiecpp.Blk.Client.{Junk}
use pixiecpp.Blk.Handler.{Protocol, HandlerBlk, new_handler}
use pixiecpp.Blk.Handler.Proxy.{TunnelMemory, handle_blk_normal}
use pixiecpp.Blk.Handler.Loopback.Echo.{IsGoodbye, echoes, flushed, handle_blk_loopback-echoes}
use pixiecpp.Server.Worker.{Worker, new_worker, handle, worker_round}
use pixiecpp.Server.System.{Setup}

-- A client that ends its stream before a byte of a request.
abbrev at_end : Reply
at_end = record { value = pos 0; errno = 0; bytes = 0 ∷ []; read_set = []; write_set = [] }

at_end-IsGoodbye : IsGoodbye at_end at_end at_end
at_end-IsGoodbye = record { eof = refl; received_none = refl; option_good = refl; none_left = refl }

pub handle_blk_normal-eof :
    (junk : Junk) (mem : TunnelMemory) (h : HandlerBlk) (rs : List Reply) (log : List Call)
    → handle_blk_normal junk mem h (world (at_end ∷ rs) log)
      ≡ returned tt (world rs ((log ++ reads 1 h.socket_fd) ++ (sys_close h.socket_fd ∷ [])))
unfolding handle_blk_normal append
handle_blk_normal-eof junk mem h rs log =
    let old = empty_message junk.destination_port junk.message_length in
    rw
      (read_message-eof junk.parser_length h.socket_fd old [] (new_parser old junk.parser_length)
        at_end rs log refl tt refl)
      refl

round-ends :
    (p : Setup) (protocol : Protocol) (t : ℕ) (a : ℤ)
    → (world world' : World) × (w' : Worker) × (worker_round p.junk p.mem a
          (new_worker protocol (pos t))
          world
        ≡ returned w' world')
unfolding worker_round handle new_handler
round-ends p Protocol.http_proxy t a = (world [] [], world [] [], _, refl)
round-ends p Protocol.blk_proxy t a = (
  world (at_end ∷ []) [],
  world [] (([] ++ reads 1 a) ++ (sys_close a ∷ [])),
  record (new_worker Protocol.blk_proxy (pos t)) { active_socket = a },
  rw (handle_blk_normal-eof p.junk p.mem (new_handler p.junk Protocol.blk_proxy a (pos t)) [] [])
      refl,
)
round-ends p Protocol.loopback t a = (
  world (at_end ∷ at_end ∷ at_end ∷ []) [],
  world [] (flushed p.junk a (echoes a [] [] ++ reads 1 a)),
  record (new_worker Protocol.loopback (pos t)) { active_socket = a },
  rw
      (handle_blk_loopback-echoes p.junk (new_handler p.junk Protocol.loopback a (pos t)) [] at_end
        at_end at_end [] [] tt at_end-IsGoodbye)
      refl,
)

-- Whatever worker gets whatever descriptor, there are answers of the system with which its handler
-- ends.
pub worker_round-ends :
    (p : Setup) (t : ℕ) (a : ℤ)
    → (world world' : World) × (w' : Worker) × (worker_round p.junk p.mem a
          (new_worker p.protocol (pos t))
          world
        ≡ returned w' world')
worker_round-ends p t a = round-ends p p.protocol t a
