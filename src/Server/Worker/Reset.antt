-- ===== src/Server/Worker/Reset.antt =====
-- A worker of Worker.cpp whose client resets the connection.
use pixiecpp.Base.{
  ℕ, Bool, false, ◌≡◌, ◌⊎◌, inl, inr, refl, true, List, [], ◌∷◌, ◌++◌, ℤ, negsuc, Bytes, All,
  length,
}
use pixiecpp.Os.{Reply, Call, World, returned, threw}
use pixiecpp.Blk.Message.{empty_message}
use pixiecpp.Blk.Parser.{BlkParser, new_parser, append}
use pixiecpp.Blk.Socket.{read_message}
use pixiecpp.Blk.Socket.Read.{world, after_failure}
use pixiecpp.Blk.Socket.Reassembly.{NonEmpty, pieces, joined, reads, read_message-failed}
use pixiecpp.Blk.Client.{Junk}
use pixiecpp.Blk.Handler.{Protocol, HandlerBlk, new_handler}
use pixiecpp.Blk.Handler.Proxy.{TunnelMemory, handle_blk_normal}
use pixiecpp.Blk.Handler.Loopback.{handle_blk_loopback, loopback_loop, loopback_round}
use pixiecpp.Server.Worker.{Worker, handle, worker_round, worker_main}

-- The parser of a handler before the first byte.
abbrev pub first_parser : Junk → BlkParser
first_parser junk =
    new_parser (empty_message junk.destination_port junk.message_length) junk.parser_length

module _ (junk : Junk) (mem : TunnelMemory) (cs : List Bytes) (q : BlkParser) (r : Reply) (n : ℕ)
    (rs : List Reply) (log : List Call)
    (incomplete : append (first_parser junk) (joined cs) ≡ (negsuc 0, q))
    (some_bytes : All NonEmpty cs) (failed : r.value ≡ negsuc n) where
  read_lem :
      (socket : ℤ)
      → read_message junk.parser_length socket
          (empty_message junk.destination_port junk.message_length)
          (world (pieces cs (r ∷ rs)) log)
        ≡ threw (after_failure socket rs (log ++ reads (length cs) socket))
  read_lem socket =
      read_message-failed junk.parser_length socket
        (empty_message junk.destination_port junk.message_length) cs q r n rs log incomplete
        some_bytes failed

  handle_blk_normal-reset :
      (h : HandlerBlk)
      → handle_blk_normal junk mem h (world (pieces cs (r ∷ rs)) log)
        ≡ threw (after_failure h.socket_fd rs (log ++ reads (length cs) h.socket_fd))
  unfolding handle_blk_normal
  handle_blk_normal-reset h = rw (read_lem h.socket_fd) refl

  handle_blk_loopback-reset :
      (h : HandlerBlk)
      → handle_blk_loopback junk h (world (pieces cs (r ∷ rs)) log)
        ≡ threw (after_failure h.socket_fd rs (log ++ reads (length cs) h.socket_fd))
  unfolding handle_blk_loopback loopback_loop loopback_round
  handle_blk_loopback-reset h = rw (read_lem h.socket_fd) refl

  handle-reset :
      (protocol : Protocol) (socket id : ℤ)
      → (protocol ≡ Protocol.blk_proxy) ⊎ (protocol ≡ Protocol.loopback)
      → handle junk mem
          (record { protocol = protocol; socket_fd = socket; id = id })
          (world (pieces cs (r ∷ rs)) log)
        ≡ threw (after_failure socket rs (log ++ reads (length cs) socket))
  unfolding handle new_handler
  handle-reset protocol socket id (inl e) =
      rw e (handle_blk_normal-reset (new_handler junk Protocol.blk_proxy socket id))
  handle-reset protocol socket id (inr e) =
      rw e (handle_blk_loopback-reset (new_handler junk Protocol.loopback socket id))

  -- `active` is reset at the head of the loop, before the next descriptor is waited for.
  from_head :
      (sockets : List ℤ) (w : Worker) (b : Bool) (world' : World)
      → worker_main junk mem sockets (record w { active = b }) world'
        ≡ worker_main junk mem sockets (record w { active = false }) world'
  unfolding worker_main
  from_head [] w b world' = refl
  from_head (s ∷ ss) w b world' = refl

  -- A client sends any part of its first message that is no error and does not complete it, in any
  -- pieces, and then its connection fails. The exception of the handler, for the proxy and for
  -- loopback, is caught by the worker; its round has made no calls but the reads, so that it has not
  -- closed the connection, and ends with `active` still set. The worker then goes on with the next
  -- descriptors, from the head of its loop, where `active` is reset.
  pub worker_main-reset :
      (w : Worker) (socket : ℤ) (sockets : List ℤ)
      → (w.protocol ≡ Protocol.blk_proxy) ⊎ (w.protocol ≡ Protocol.loopback)
      → (worker_round junk mem socket w (world (pieces cs (r ∷ rs)) log)
          ≡ returned
              (record w { active = true; active_socket = socket })
              (after_failure socket rs (log ++ reads (length cs) socket)))
        × (worker_main junk mem (socket ∷ sockets) w (world (pieces cs (r ∷ rs)) log)
            ≡ worker_main junk mem sockets
                (record w { active = false; active_socket = socket })
                (after_failure socket rs (log ++ reads (length cs) socket)))
  unfolding worker_main worker_round
  worker_main-reset w socket sockets p =
      let caught = handle-reset w.protocol socket w.id p in
      (
        rw caught refl,
        rw caught (
            from_head sockets (record w { active_socket = socket }) true
              (after_failure socket rs (log ++ reads (length cs) socket))),
      )
