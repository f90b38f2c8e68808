-- ===== src/Blk/Handler/Proxy/Conversation.antt =====
-- A whole conversation through HandlerBlk::handleBlkNormal.
use pixiecpp.Base.{
  ℕ, zero, suc, ◌≤◌, ◌<◌, ◌≡◌, refl, true, false, none, some, List, [], ◌∷◌, ◌++◌, arith, ℤ, pos,
  Bytes, All, length,
}
use pixiecpp.Os.{Reply, Call, returned, sys_close}
use pixiecpp.Blk.Message.{BlkMessage, empty_message, is_tunnel_request}
use pixiecpp.Blk.Parser.{new_parser, append}
use pixiecpp.Blk.Socket.Read.{world}
use pixiecpp.Blk.Socket.Reassembly.{piece, pieces, reads, read_message-pieces, read_message-eof}
use pixiecpp.Blk.Client.{Junk}
use pixiecpp.Blk.Handler.{HandlerBlk}
use pixiecpp.Blk.Handler.Proxy.{
  TunnelMemory, proxy_loop, normal_blk_proxy, next_request, handle_blk_normal,
}
use pixiecpp.Blk.Handler.Proxy.Relay.{Exchange, IsExchanged, exchange_replies, exchanged, exchange}

-- The requests one after the other, each with its exchange, and the reply `at_end` to the last read.
abbrev pub served : List Exchange → Reply → List Reply → List Reply
served [] at_end rs = at_end ∷ rs
served (x ∷ xs) at_end rs =
    pieces x.request_pieces (piece x.request_last ∷ exchange_replies x (served xs at_end rs))

-- The calls: every exchange goes to the same port, and at the end the client's socket is closed.
abbrev pub proxied : ℤ → ℤ → List Exchange → List Call → List Call
proxied client port [] log = (log ++ reads 1 client) ++ (sys_close client ∷ [])
proxied client port (x ∷ xs) log =
    proxied client port xs
      (exchanged client port x (log ++ reads (suc (length x.request_pieces)) client))

length-pieces : (cs : List Bytes) (rs : List Reply) → length rs ≤ length (pieces cs rs)
length-pieces [] rs = omega arith
length-pieces (c ∷ cs) rs = omega (arith, length-pieces cs rs)

length-exchange : (x : Exchange) (rs : List Reply) → length rs < length (exchange_replies x rs)
length-exchange x rs =
    omega (arith, length-pieces x.first_pieces (piece x.last_piece ∷ x.returned_reply ∷ rs))

length-served :
    (xs : List Exchange) (at_end : Reply) (rs : List Reply)
    → length xs < length (served xs at_end rs)
length-served [] at_end rs = omega arith
length-served (x ∷ xs) at_end rs =
    let more = piece x.request_last ∷ exchange_replies x (served xs at_end rs) in
    omega (
      arith,
      length-pieces x.request_pieces more,
      length-exchange x (served xs at_end rs),
      length-served xs at_end rs,
    )

module _ (junk : Junk) (h : HandlerBlk) (at_end : Reply) (eof : at_end.value ≡ pos 0)
    (rs : List Reply) where
  next_request-none :
      (msg : BlkMessage) (log : List Call)
      → next_request junk h msg (world (at_end ∷ rs) log)
        ≡ returned none
            (world rs ((log ++ reads 1 h.message_socket) ++ (sys_close h.message_socket ∷ [])))
  unfolding next_request append
  next_request-none msg log =
      rw
        (read_message-eof junk.parser_length h.message_socket msg []
          (new_parser msg junk.parser_length) at_end rs log refl tt eof)
        refl

  next_request-some :
      (msg : BlkMessage) (x : Exchange) (more : List Reply) (log : List Call)
      → h.pipelining_supported ≡ true
      → IsExchanged x
      → next_request junk h msg (world (pieces x.request_pieces (piece x.request_last ∷ more)) log)
        ≡ returned
            (some x.request)
            (world more (log ++ reads (suc (length x.request_pieces)) h.message_socket))
  unfolding next_request
  next_request-some msg x more log p i =
      rw
        (
          read_message-pieces junk.parser_length h.message_socket msg x.request x.request_pieces
              x.request_last x.request_extra more log i.request_well_formed i.request_stream
              i.request_in_last i.request_pieces_hold i.request_last_holds,
          p,
        )
        refl

  loop_lem :
      (fuel : ℕ) (port : ℤ) (x : Exchange) (xs : List Exchange) (log : List Call)
      → length xs < fuel
      → h.pipelining_supported ≡ true
      → IsExchanged x
      → All IsExchanged xs
      → proxy_loop fuel junk h port x.request (world (exchange_replies x (served xs at_end rs)) log)
        ≡ returned tt
            (world rs (proxied h.message_socket port xs (exchanged h.message_socket port x log)))
  unfolding proxy_loop
  loop_lem zero port x xs log lt p i is = absurd (omega arith)
  loop_lem (suc fuel) port x [] log lt p i is =
      rw
        (
          exchange junk h port x (at_end ∷ rs) log i,
          next_request-none x.request (exchanged h.message_socket port x log),
        )
        refl
  loop_lem (suc fuel) port x (y ∷ ys) log lt p i (iy, is) =
      let log' = exchanged h.message_socket port x log in
      let log'' = log' ++ reads (suc (length y.request_pieces)) h.message_socket in
      rw
        (
          exchange junk h port x (served (y ∷ ys) at_end rs) log i,
          next_request-some x.request y (exchange_replies y (served ys at_end rs)) log' p iy,
        )
        (loop_lem fuel port y ys log'' (omega arith) p iy is)

-- A client sends any number of well-formed requests, the first of them not for a tunnel, and ends
-- its stream; the handler supports pipelining, every connection to the server is made, every write
-- is of at most INT_MAX bytes and takes them all, and the server answers each request with a
-- well-formed message. Then HandlerBlk::handleBlkNormal writes, in order, every request with the body
-- rewritten by blk_proxy_rules, over a new connection to the port of the first request, and the
-- server's response to the client, each of them up to the first zero byte of its text; it closes the
-- connection, and at the end the client's socket. The messages of both sides may arrive in pieces;
-- bytes behind a message in its last piece are dropped. The log names every system call on the way.
pub handle_blk_normal-proxied :
    (junk : Junk) (mem : TunnelMemory) (h : HandlerBlk) (x : Exchange) (xs : List Exchange)
    (at_end : Reply) (rs : List Reply) (log : List Call)
    → h.pipelining_supported ≡ true
    → is_tunnel_request x.request ≡ false
    → at_end.value ≡ pos 0
    → IsExchanged x
    → All IsExchanged xs
    → handle_blk_normal junk mem h (world (served (x ∷ xs) at_end rs) log)
      ≡ returned tt (world rs (proxied h.socket_fd x.request.destination_port (x ∷ xs) log))
unfolding handle_blk_normal normal_blk_proxy
handle_blk_normal-proxied junk mem h x xs at_end rs log p no_tunnel eof i is =
    let more = exchange_replies x (served xs at_end rs) in
    let log' = log ++ reads (suc (length x.request_pieces)) h.socket_fd in
    rw
      (
        read_message-pieces junk.parser_length h.socket_fd
            (empty_message junk.destination_port junk.message_length) x.request x.request_pieces
            x.request_last x.request_extra more log i.request_well_formed i.request_stream
            i.request_in_last i.request_pieces_hold i.request_last_holds,
        no_tunnel,
      )
      (loop_lem junk (record h { message_socket = h.socket_fd }) at_end eof rs (suc (length more))
        x.request.destination_port x xs log'
        (omega (arith, length-exchange x (served xs at_end rs), length-served xs at_end rs)) p i is)
