-- ===== src/Blk/Handler/Proxy/Opening.antt =====
-- A request for a tunnel and the connection that HandlerBlk::tunnelBlkProxy makes for it.
use pixiecpp.Base.{
  ℕ, suc, ◌<◌, ◌≡◌, refl, true, List, ◌∷◌, ◌++◌, arith, ℤ, pos, Bytes, All, codes, length,
}
use pixiecpp.Os.{Reply, Call}
use pixiecpp.Blk.Message.{BlkMessage, empty_message, new_message, is_tunnel_request, to_raw_string}
use pixiecpp.Blk.Socket.Read.{world}
use pixiecpp.Blk.Socket.Reassembly.{NonEmpty, piece, pieces, joined, reads, read_message-pieces}
use pixiecpp.Blk.Socket.Write.{TakesAll, wire, written}
use pixiecpp.Blk.Client.{Junk}
use pixiecpp.Blk.Handler.{HandlerBlk}
use pixiecpp.Blk.Parser.RoundTrip.{IsWellFormed}
use pixiecpp.Blk.Handler.Proxy.{TunnelMemory, tunnel_blk_proxy, handle_blk_normal}
use pixiecpp.Blk.Handler.Proxy.Relay.{IsConnected, connecting}
use pixiecpp.Twc.Channel.Start.{Ends}

-- A request for a tunnel, which arrives in pieces.
pub record Request : Type 0 where
  pub message : BlkMessage
  pub first_pieces : List Bytes
  pub last_piece : Bytes
  pub extra : Bytes

pub record IsRequest (x : Request) : Type 0 where
  pub for_tunnel : is_tunnel_request x.message ≡ true
  pub well_formed : IsWellFormed x.message
  pub stream : joined x.first_pieces ++ x.last_piece ≡ to_raw_string x.message ++ x.extra
  pub in_last : length (joined x.first_pieces) < length (to_raw_string x.message)
  pub pieces_hold : All NonEmpty x.first_pieces
  pub last_holds : NonEmpty x.last_piece

abbrev pub request_replies : Request → List Reply → List Reply
request_replies x rs = pieces x.first_pieces (piece x.last_piece ∷ rs)

abbrev pub after_request : ℤ → Request → List Call → List Call
after_request client x log = log ++ reads (suc (length x.first_pieces)) client

-- The answer to the client.
abbrev pub ok_message : BlkMessage
ok_message = new_message (pos 8001) (codes "TUNNEL") (codes "OK TO TUNNEL")

-- The connection to the server, and the reply to the write of the answer.
pub record Opening : Type 0 where
  pub host_reply : Reply
  pub socket_reply : Reply
  pub connect_reply : Reply
  pub server_fd : ℕ
  pub told : Reply

pub record IsOpened (o : Opening) : Type 0 where
  pub connects : IsConnected o.host_reply o.socket_reply o.connect_reply o.server_fd
  pub all_told : TakesAll o.told ok_message

abbrev pub opening_replies : Opening → List Reply → List Reply
opening_replies o rs = o.host_reply ∷ o.socket_reply ∷ o.connect_reply ∷ o.told ∷ rs

abbrev pub after_opening : ℤ → ℤ → Opening → List Call → List Call
after_opening client port o log =
    written client ok_message (connecting (codes "localhost") port o.server_fd log)

abbrev pub ends : TunnelMemory → HandlerBlk → Opening → Ends
ends mem h o = record {
  client = h.socket_fd;
  server = pos o.server_fd;
  memory_a = mem.a2b;
  memory_b = mem.b2a;
  junk = mem.errorno;
}

pub ok_message-some : 0 < length (wire ok_message)
unfolding to_raw_string
ok_message-some = omega arith

module _ (junk : Junk) (mem : TunnelMemory) (h : HandlerBlk) (x : Request) (i : IsRequest x) where
  -- A well-formed request for a tunnel leads to tunnelBlkProxy.
  pub handle_blk_normal-tunnel :
      (rs : List Reply) (log : List Call)
      → handle_blk_normal junk mem h (world (request_replies x rs) log)
        ≡ tunnel_blk_proxy mem
            (record h { message_socket = h.socket_fd })
            x.message
            (world rs (after_request h.socket_fd x log))
  unfolding handle_blk_normal
  handle_blk_normal-tunnel rs log =
      rw
        (
          read_message-pieces junk.parser_length h.socket_fd
              (empty_message junk.destination_port junk.message_length) x.message x.first_pieces
              x.last_piece x.extra rs log i.well_formed i.stream i.in_last i.pieces_hold
              i.last_holds,
          i.for_tunnel,
        )
        refl
