-- ===== src/Blk/Handler/Proxy/Relay.antt =====
-- One request through the proxy entry of HandlerBlk: it is forwarded and answered.
use pixiecpp.Base.{
  ℕ, suc, ◌<◌, ◌≡◌, refl, true, false, List, [], ◌∷◌, ◌++◌, ◌==◌, ℤ, eq_ℤ, pos, Bytes, All, codes,
  length,
}
use pixiecpp.Os.{
  Reply, Call, returned, ask, sys_gethostbyname, sys_socket, sys_setsockopt, sys_connect, sys_close,
}
use pixiecpp.Sockets.Connect.{socket_connect_host_port, to_u16}
use pixiecpp.Blk.Message.{BlkMessage, to_raw_string}
use pixiecpp.Blk.Socket.Read.{world}
use pixiecpp.Blk.Socket.Reassembly.{NonEmpty, piece, pieces, joined, reads, read_message-pieces}
use pixiecpp.Blk.Socket.Write.{TakesAll, wire, written, write_message-sent}
use pixiecpp.Blk.Client
use pixiecpp.Blk.Client.{BlkClient, Junk, ClientResult, new_client, connect, execute_request}
use pixiecpp.Blk.Handler.{HandlerBlk, blk_proxy_rules, connect_with_retries}
use pixiecpp.Blk.Parser.RoundTrip.{IsWellFormed}
use pixiecpp.Blk.Handler.Proxy.{proxy_round, next_request}

-- The replies of a connect that succeeds with the descriptor `f`.
pub record IsConnected (he s c : Reply) (f : ℕ) : Type 0 where
  pub host_known : eq_ℤ he.value (pos 0) ≡ false
  pub opened : s.value ≡ pos f
  pub not_zero : (f == 0) ≡ false
  pub accepted : c.value ≡ pos 0

abbrev pub connecting : Bytes → ℤ → ℕ → List Call → List Call
connecting host port f log =
    (((log ++ (sys_gethostbyname host ∷ [])) ++ (sys_socket ∷ []))
      ++ (sys_setsockopt (pos f) "SO_NOSIGPIPE" ∷ []))
    ++ (sys_connect (pos f) (pos (to_u16 port)) ∷ [])

pub socket_connect_host_port-IsConnected :
    (host : Bytes) (port : ℤ) (he s c : Reply) (f : ℕ) (rs : List Reply) (log : List Call)
    → IsConnected he s c f
    → socket_connect_host_port host port (world (he ∷ s ∷ c ∷ rs) log)
      ≡ returned (record { sock = pos f; status = pos 0 }) (world rs (connecting host port f log))
unfolding socket_connect_host_port ask
socket_connect_host_port-IsConnected host port he s c f rs log i =
    rw (i.host_known, i.opened, i.accepted) refl

pub connect_with_retries-IsConnected :
    (client : BlkClient) (he s c : Reply) (f : ℕ) (rs : List Reply) (log : List Call)
    → IsConnected he s c f
    → connect_with_retries client (world (he ∷ s ∷ c ∷ rs) log)
      ≡ returned
          (record {
            good = true;
            client = record client { socket = pos f; message_socket = pos f };
            status = pos 0;
          })
          (world rs (connecting client.host client.port f log))
unfolding connect_with_retries connect
connect_with_retries-IsConnected client he s c f rs log i =
    rw (socket_connect_host_port-IsConnected client.host client.port he s c f rs log i, i.not_zero)
      refl

-- One request `request` for the port `port`, forwarded to the server at the descriptor `f`, which answers
-- with `response`. Both messages arrive in pieces.
pub record Exchange : Type 0 where
  pub request : BlkMessage
  pub request_pieces : List Bytes
  pub request_last : Bytes
  pub request_extra : Bytes
  pub response : BlkMessage
  pub host_reply : Reply
  pub socket_reply : Reply
  pub connect_reply : Reply
  pub server_fd : ℕ
  pub forwarded : Reply
  pub first_pieces : List Bytes
  pub last_piece : Bytes
  pub extra : Bytes
  pub returned_reply : Reply

-- What the server is sent.
abbrev pub outgoing : Exchange → BlkMessage
outgoing x = blk_proxy_rules x.request x.request

pub record IsExchanged (x : Exchange) : Type 0 where
  pub request_well_formed : IsWellFormed x.request
  pub request_stream :
      joined x.request_pieces ++ x.request_last ≡ to_raw_string x.request ++ x.request_extra
  pub request_in_last : length (joined x.request_pieces) < length (to_raw_string x.request)
  pub request_pieces_hold : All NonEmpty x.request_pieces
  pub request_last_holds : NonEmpty x.request_last
  pub connects : IsConnected x.host_reply x.socket_reply x.connect_reply x.server_fd
  pub sent : TakesAll x.forwarded (outgoing x)
  pub sent_some : 0 < length (wire (outgoing x))
  pub well_formed : IsWellFormed x.response
  pub stream : joined x.first_pieces ++ x.last_piece ≡ to_raw_string x.response ++ x.extra
  pub in_last : length (joined x.first_pieces) < length (to_raw_string x.response)
  pub pieces_hold : All NonEmpty x.first_pieces
  pub last_holds : NonEmpty x.last_piece
  pub answered : TakesAll x.returned_reply x.response
  pub answered_some : 0 < length (wire x.response)

abbrev pub exchange_replies : Exchange → List Reply → List Reply
exchange_replies x rs =
    x.host_reply
    ∷ x.socket_reply
    ∷ x.connect_reply
    ∷ x.forwarded
    ∷ pieces x.first_pieces (piece x.last_piece ∷ x.returned_reply ∷ rs)

-- The calls: connect, send the rewritten request, read the response, send it to the client, close.
abbrev pub exchanged : ℤ → ℤ → Exchange → List Call → List Call
exchanged client port x log =
    written client x.response (
      written (pos x.server_fd) (outgoing x) (connecting (codes "localhost") port x.server_fd log)
      ++ reads (suc (length x.first_pieces)) (pos x.server_fd))
    ++ (sys_close (pos x.server_fd) ∷ [])

-- A round of the proxy for such a request goes on with the next.
pub exchange :
    (junk : Junk) (h : HandlerBlk) (port : ℤ) (x : Exchange) (rs : List Reply) (log : List Call)
    → IsExchanged x
    → proxy_round junk h port x.request (world (exchange_replies x rs) log)
      ≡ next_request junk h x.request (world rs (exchanged h.message_socket port x log))
unfolding proxy_round execute_request new_client Client.close
exchange junk h port x rs log i =
    let client = new_client junk (codes "localhost") (codes "dont care") port x.request in
    let fd = pos x.server_fd in
    let log1 = connecting (codes "localhost") port x.server_fd log in
    let log2 = written fd (outgoing x) log1 in
    let log3 = log2 ++ reads (suc (length x.first_pieces)) fd in
    let rs1 = pieces x.first_pieces (piece x.last_piece ∷ x.returned_reply ∷ rs) in
    rw
      (
        connect_with_retries-IsConnected client x.host_reply x.socket_reply x.connect_reply
            x.server_fd (x.forwarded ∷ rs1) log i.connects,
        write_message-sent fd (outgoing x) (pos 0) x.forwarded rs1 log1 i.sent i.sent_some,
        read_message-pieces junk.parser_length fd client.response_message x.response x.first_pieces
            x.last_piece x.extra (x.returned_reply ∷ rs) log2 i.well_formed i.stream i.in_last
            i.pieces_hold i.last_holds,
        write_message-sent h.message_socket x.response (pos 0) x.returned_reply rs log3 i.answered
            i.answered_some,
      )
      refl
