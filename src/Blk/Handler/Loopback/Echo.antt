-- ===== src/Blk/Handler/Loopback/Echo.antt =====
-- The loopback handler over a conversation: what it sends, and how it ends.
use pixiecpp.Base.{
  ℕ, zero, suc, ◌+◌, ◌-◌, get_or, ◌≤◌, ◌<◌, ◌≡◌, refl, ◌∙◌, true, false, List, [], ◌∷◌, ◌++◌, arith,
  ℤ, pos, Bytes, All, length,
}
use pixiecpp.ErrorCodes.{blk_read_status_ok, blk_read_status_eof}
use pixiecpp.Os.{Reply, World, Call, returned, ask, sys_shutdown, sys_recv, sys_getsockopt}
use pixiecpp.Sockets.Data.{socket_wait_for_write_flush}
use pixiecpp.Blk.Message.{BlkMessage, empty_message, to_raw_string}
use pixiecpp.Blk.Parser.{new_parser}
use pixiecpp.Blk.Parser.Chunks.{append-none}
use pixiecpp.Blk.Parser.RoundTrip.{IsWellFormed}
use pixiecpp.Blk.Socket.Read.{world}
use pixiecpp.Blk.Socket.Reassembly.{
  piece, pieces, joined, NonEmpty, reads, length-pieces, read_message-pieces, read_message-eof,
}
use pixiecpp.Blk.Socket.Write.{TakesAll, wire, written, write_message-sent}
use pixiecpp.Blk.Client.{Junk}
use pixiecpp.Blk.Handler.{HandlerBlk}
use pixiecpp.Blk.Handler.Loopback.{echo, loopback_round, loopback_loop, handle_blk_loopback}

-- A message on its way: the pieces that arrive, the bytes behind it in the last of them, and the
-- system's reply when it is sent back.
pub record Delivery : Type 0 where
  pub message : BlkMessage
  pub first_pieces : List Bytes
  pub last_piece : Bytes
  pub extra : Bytes
  pub sent : Reply

pub record IsDelivered (d : Delivery) : Type 0 where
  pub well_formed : IsWellFormed d.message
  pub stream : joined d.first_pieces ++ d.last_piece ≡ to_raw_string d.message ++ d.extra
  pub in_last : length (joined d.first_pieces) < length (to_raw_string d.message)
  pub pieces_hold : All NonEmpty d.first_pieces
  pub last_holds : NonEmpty d.last_piece
  pub all_sent : TakesAll d.sent d.message

-- The replies of the system, in the order of the handler's calls.
abbrev pub conversation : List Delivery → List Reply → List Reply
conversation [] rs = rs
conversation (d ∷ ds) rs = pieces d.first_pieces (piece d.last_piece ∷ d.sent ∷ conversation ds rs)

-- The handler's calls: for each message the reads, and one write of the same message, up to the first zero byte of its text.
abbrev pub echoes : ℤ → List Delivery → List Call → List Call
echoes socket [] log = log
echoes socket (d ∷ ds) log =
    echoes socket ds (written socket d.message (log ++ reads (suc (length d.first_pieces)) socket))

pub wire-pos : (m : BlkMessage) → IsWellFormed m → 0 < length (wire m)
unfolding to_raw_string
wire-pos m w = rw w.start (omega arith)

-- The replies at the end of the stream: nothing to read, and a flush with no error.
pub record IsGoodbye (at_end received option : Reply) : Type 0 where
  pub eof : at_end.value ≡ pos 0
  pub received_none : received.value ≡ pos 0
  pub option_good : option.value ≡ pos 0
  pub none_left : get_or option.bytes 0 3 ≡ 0

module _ (junk : Junk) (socket : ℤ) where
  echo-sent :
      (m : BlkMessage) (r : Reply) (rs : List Reply) (log : List Call)
      → TakesAll r m
      → 0 < length (wire m)
      → echo socket
          (record { got = true; msg = m; status = blk_read_status_ok })
          (world (r ∷ rs) log)
        ≡ returned false (world rs (written socket m log))
  unfolding echo
  echo-sent m r rs log v h = rw (write_message-sent socket m (pos 0) r rs log v h) refl

  loopback_round-delivered :
      (d : Delivery) (rs : List Reply) (log : List Call)
      → IsDelivered d
      → loopback_round junk socket
          (world (pieces d.first_pieces (piece d.last_piece ∷ d.sent ∷ rs)) log)
        ≡ returned false (
            world rs (written socket d.message (log ++ reads (suc (length d.first_pieces)) socket)))
  unfolding loopback_round
  loopback_round-delivered d rs log v =
      rw
        (read_message-pieces junk.parser_length socket
          (empty_message junk.destination_port junk.message_length) d.message d.first_pieces
          d.last_piece d.extra (d.sent ∷ rs) log v.well_formed v.stream v.in_last v.pieces_hold
          v.last_holds)
        (echo-sent d.message d.sent rs _ v.all_sent (wire-pos d.message v.well_formed))

  loopback_loop-again :
      (f : ℕ) (w w' : World)
      → loopback_round junk socket w ≡ returned false w'
      → loopback_loop (suc f) junk socket w ≡ loopback_loop f junk socket w'
  unfolding loopback_loop
  loopback_loop-again f w w' e = rw e refl

  loopback_loop-stop :
      (f : ℕ) (w w' : World)
      → loopback_round junk socket w ≡ returned true w'
      → loopback_loop (suc f) junk socket w ≡ returned tt w'
  unfolding loopback_loop
  loopback_loop-stop f w w' e = rw e refl

  loopback_loop-conversation :
      (fuel f : ℕ) (ds : List Delivery) (rs : List Reply) (log : List Call)
      → fuel ≡ length ds + f
      → All IsDelivered ds
      → loopback_loop fuel junk socket (world (conversation ds rs) log)
        ≡ loopback_loop f junk socket (world rs (echoes socket ds log))
  loopback_loop-conversation fuel f [] rs log e h = let e' : fuel ≡ f = omega arith in rw e' refl
  loopback_loop-conversation zero f (d ∷ ds) rs log e h = absurd (omega arith)
  loopback_loop-conversation (suc fuel) f (d ∷ ds) rs log e (v, h) =
      loopback_loop-again fuel _ _ (loopback_round-delivered d (conversation ds rs) log v)
      ∙ loopback_loop-conversation fuel f ds rs _ (omega arith) h

  -- The end of the stream: a flush that meets no error.
  abbrev pub flushed : List Call → List Call
  flushed log =
      ((log ++ (sys_shutdown socket "SHUT_WR" ∷ [])) ++ (sys_recv socket ∷ []))
      ++ (sys_getsockopt socket "SO_NWRITE" ∷ [])

  module _ (at_end received option : Reply) where
    flush-flushed :
        (rs : List Reply) (log : List Call)
        → IsGoodbye at_end received option
        → socket_wait_for_write_flush socket (world (received ∷ option ∷ rs) log)
          ≡ returned tt (world rs (flushed log))
    unfolding socket_wait_for_write_flush ask
    flush-flushed rs log g = rw (g.received_none, g.option_good, g.none_left) refl

    echo-eof :
        (m : BlkMessage) (rs : List Reply) (log : List Call)
        → IsGoodbye at_end received option
        → echo socket
            (record { got = false; msg = m; status = blk_read_status_eof })
            (world (received ∷ option ∷ rs) log)
          ≡ returned true (world rs (flushed log))
    unfolding echo
    echo-eof m rs log g = rw (flush-flushed rs log g) refl

    loopback_round-eof :
        (rs : List Reply) (log : List Call)
        → IsGoodbye at_end received option
        → loopback_round junk socket (world (at_end ∷ received ∷ option ∷ rs) log)
          ≡ returned true (world rs (flushed (log ++ reads 1 socket)))
    unfolding loopback_round
    loopback_round-eof rs log g =
        let old = empty_message junk.destination_port junk.message_length in
        rw
          (read_message-eof junk.parser_length socket old [] (new_parser old junk.parser_length)
            at_end (received ∷ option ∷ rs) log (append-none _) tt g.eof)
          (echo-eof old rs (log ++ reads 1 socket) g)

length-conversation :
    (ds : List Delivery) (rs : List Reply) → length ds ≤ length (conversation ds rs)
length-conversation [] rs = omega arith
length-conversation (d ∷ ds) rs = omega (
  arith,
  length-pieces d.first_pieces (piece d.last_piece ∷ d.sent ∷ conversation ds rs),
  length-conversation ds rs,
)

-- A client sends well-formed messages, each in any pieces, each behind the answer to the one before,
-- and then closes its side; every write is of at most INT_MAX bytes and takes them all.
-- HandlerBlk::handleBlkLoopBack sends the text of every message back up to its first zero byte, in
-- order, one write each; then it flushes and returns, without closing the socket. Bytes that stand
-- behind a message in its last piece are not answered.
pub handle_blk_loopback-echoes :
    (junk : Junk) (h : HandlerBlk) (ds : List Delivery) (at_end received option : Reply)
    (rs : List Reply) (log : List Call)
    → All IsDelivered ds
    → IsGoodbye at_end received option
    → handle_blk_loopback junk h (world (conversation ds (at_end ∷ received ∷ option ∷ rs)) log)
      ≡ returned tt
          (world rs (flushed junk h.socket_fd (echoes h.socket_fd ds log ++ reads 1 h.socket_fd)))
unfolding handle_blk_loopback
handle_blk_loopback-echoes junk h ds at_end received option rs log v g =
    let script = conversation ds (at_end ∷ received ∷ option ∷ rs) in
    loopback_loop-conversation junk h.socket_fd (suc (length script))
      (suc (length script - length ds)) ds (at_end ∷ received ∷ option ∷ rs) log
      (omega (arith, length-conversation ds (at_end ∷ received ∷ option ∷ rs))) v
    ∙ loopback_loop-stop junk h.socket_fd (length script - length ds) _ _ (
        loopback_round-eof junk h.socket_fd at_end received option rs (echoes h.socket_fd ds log) g)
