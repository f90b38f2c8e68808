-- ===== src/Programs/Requests.antt =====
-- The requests of a thread of blk_client/main.cpp.
use pixiecpp.Base.{
  ℕ, suc, ◌+◌, ◌-◌, ◌<◌, ◌≡◌, refl, ap, ◌∙◌, true, List, [], ◌∷◌, ◌++◌, arith, pos, Bytes, All,
  codes, length,
}
use pixiecpp.Os.{Reply, Call, returned, report, sys_close}
use pixiecpp.Blk.Message.{BlkMessage, empty_message, to_raw_string}
use pixiecpp.Blk.Socket.Read.{world}
use pixiecpp.Blk.Socket.Reassembly.{
  NonEmpty, piece, pieces, joined, reads, read_message-pieces, read_message-eof,
}
use pixiecpp.Blk.Parser.{new_parser, append}
use pixiecpp.Blk.Socket.Write.{TakesAll, wire, written, write_message-sent}
use pixiecpp.Blk.Client
use pixiecpp.Blk.Client.{BlkClient, Junk, new_client, connect, execute_request}
use pixiecpp.Blk.Parser.RoundTrip.{IsWellFormed}
use pixiecpp.Blk.Handler.Proxy.Relay.{IsConnected, connecting, socket_connect_host_port-IsConnected}
use pixiecpp.Programs.{
  nbr_requests_per_thread, client_message, request_client, request_loop, client_worker,
}

-- One request: the connection, the reply to the write, and the response in pieces.
pub record Round : Type 0 where
  pub host_reply : Reply
  pub socket_reply : Reply
  pub connect_reply : Reply
  pub fd : ℕ
  pub told : Reply
  pub response : BlkMessage
  pub first_pieces : List Bytes
  pub last_piece : Bytes
  pub extra : Bytes

pub record IsSent (x : Round) : Type 0 where
  pub connects : IsConnected x.host_reply x.socket_reply x.connect_reply x.fd
  pub all_told : TakesAll x.told client_message

pub record IsAnswered (x : Round) : Type 0 where
  pub sent : IsSent x
  pub well_formed : IsWellFormed x.response
  pub stream : joined x.first_pieces ++ x.last_piece ≡ to_raw_string x.response ++ x.extra
  pub in_last : length (joined x.first_pieces) < length (to_raw_string x.response)
  pub pieces_hold : All NonEmpty x.first_pieces
  pub last_holds : NonEmpty x.last_piece

abbrev pub sent_replies : Round → List Reply → List Reply
sent_replies x rs = x.host_reply ∷ x.socket_reply ∷ x.connect_reply ∷ x.told ∷ rs

abbrev pub round_replies : Round → List Reply → List Reply
round_replies x rs = sent_replies x (pieces x.first_pieces (piece x.last_piece ∷ rs))

abbrev pub rounds_replies : List Round → List Reply → List Reply
rounds_replies [] rs = rs
rounds_replies (x ∷ xs) rs = round_replies x (rounds_replies xs rs)

abbrev pub sent_log : Round → List Call → List Call
sent_log x log =
    written (pos x.fd) client_message (connecting (codes "localhost") (pos 8001) x.fd log)

-- The calls of a round: connect, write, read the pieces, close.
abbrev pub round_log : Round → List Call → List Call
round_log x log =
    (sent_log x log ++ reads (suc (length x.first_pieces)) (pos x.fd))
    ++ (sys_close (pos x.fd) ∷ [])

abbrev pub rounds_log : List Round → List Call → List Call
rounds_log [] log = log
rounds_log (x ∷ xs) log = rounds_log xs (round_log x log)

message-some : 0 < length (wire client_message)
unfolding to_raw_string
message-some = omega arith

module _ (junk : Junk) where
  connect-IsSent :
      (x : Round) (rs : List Reply) (log : List Call)
      → IsSent x
      → connect
          (request_client junk)
          (world (x.host_reply ∷ x.socket_reply ∷ x.connect_reply ∷ rs) log)
        ≡ returned
            (record {
              good = true;
              client = record (request_client junk) {
                socket = pos x.fd;
                message_socket = pos x.fd;
              };
              status = pos 0;
            })
            (world rs (connecting (codes "localhost") (pos 8001) x.fd log))
  unfolding connect new_client
  connect-IsSent x rs log i =
      rw
        (
          socket_connect_host_port-IsConnected (codes "localhost") (pos 8001) x.host_reply
              x.socket_reply x.connect_reply x.fd rs log i.connects,
          i.connects.not_zero,
        )
        refl

  request_loop-answered :
      (left : ℕ) (x : Round) (rs : List Reply) (log : List Call)
      → IsAnswered x
      → request_loop (suc left) junk (world (round_replies x rs) log)
        ≡ request_loop left junk (world rs (round_log x log))
  unfolding request_loop execute_request new_client Client.close
  request_loop-answered left x rs log i =
      let rs1 = pieces x.first_pieces (piece x.last_piece ∷ rs) in
      rw
        (
          connect-IsSent x (x.told ∷ rs1) log i.sent,
          write_message-sent (pos x.fd) client_message (pos 0) x.told rs1
              (connecting (codes "localhost") (pos 8001) x.fd log) i.sent.all_told message-some,
          read_message-pieces junk.parser_length (pos x.fd)
              (empty_message junk.destination_port junk.message_length) x.response x.first_pieces
              x.last_piece x.extra rs (sent_log x log) i.well_formed i.stream i.in_last
              i.pieces_hold i.last_holds,
        )
        refl

  request_loop-rounds :
      (xs : List Round) (left : ℕ) (rs : List Reply) (log : List Call)
      → All IsAnswered xs
      → request_loop (length xs + left) junk (world (rounds_replies xs rs) log)
        ≡ request_loop left junk (world rs (rounds_log xs log))
  request_loop-rounds [] left rs log is = ap (λ n. request_loop n junk (world rs log)) (omega arith)
  request_loop-rounds (x ∷ xs) left rs log (i, is) =
      ap (λ n. request_loop n junk (world (rounds_replies (x ∷ xs) rs) log)) (omega arith)
      ∙ (request_loop-answered (length xs + left) x (rounds_replies xs rs) log i
          ∙ request_loop-rounds xs left rs (round_log x log) is)

  -- A round whose stream ends before a byte of the response: the connection stays open.
  request_loop-unanswered :
      (left : ℕ) (x : Round) (at_end : Reply) (rs : List Reply) (log : List Call)
      → IsSent x
      → at_end.value ≡ pos 0
      → request_loop (suc left) junk (world (sent_replies x (at_end ∷ rs)) log)
        ≡ returned tt (
            world rs (
              (sent_log x log ++ reads 1 (pos x.fd))
              ++ (report "executeRequest for worker Failed" ∷ [])))
  unfolding request_loop execute_request new_client append
  request_loop-unanswered left x at_end rs log i eof =
      rw
        (
          connect-IsSent x (x.told ∷ at_end ∷ rs) log i,
          write_message-sent (pos x.fd) client_message (pos 0) x.told (at_end ∷ rs)
              (connecting (codes "localhost") (pos 8001) x.fd log) i.all_told message-some,
          read_message-eof junk.parser_length (pos x.fd)
              (empty_message junk.destination_port junk.message_length) []
              (new_parser (empty_message junk.destination_port junk.message_length)
                junk.parser_length)
              at_end rs (sent_log x log) refl tt eof,
        )
        refl

-- A hundred connections to port 8001 are accepted, every write takes the whole request, and each is
-- answered with a well-formed message, in any pieces: then a thread of the test client makes a
-- hundred requests, each over a connection of its own which it closes after the response, and
-- nothing else.
pub client_worker-answered :
    (junk : Junk) (xs : List Round) (rs : List Reply) (log : List Call)
    → length xs ≡ nbr_requests_per_thread
    → All IsAnswered xs
    → client_worker junk (world (rounds_replies xs rs) log)
      ≡ returned tt (world rs (rounds_log xs log))
unfolding client_worker request_loop
client_worker-answered junk xs rs log n is =
    let all : nbr_requests_per_thread ≡ length xs + 0 = omega (arith, n) in
    ap (λ k. request_loop k junk (world (rounds_replies xs rs) log)) all
    ∙ request_loop-rounds junk xs 0 rs log is

-- Fewer than a hundred requests are answered, and for the next one the connection is made and the
-- request is written, but the stream ends before a byte of the response: the thread makes no further
-- request, prints a line, and leaves that last connection open.
pub client_worker-breaks :
    (junk : Junk) (xs : List Round) (x : Round) (at_end : Reply) (rs : List Reply) (log : List Call)
    → length xs < nbr_requests_per_thread
    → All IsAnswered xs
    → IsSent x
    → at_end.value ≡ pos 0
    → client_worker junk (world (rounds_replies xs (sent_replies x (at_end ∷ rs))) log)
      ≡ returned tt (
          world rs (
            (sent_log x (rounds_log xs log) ++ reads 1 (pos x.fd))
            ++ (report "executeRequest for worker Failed" ∷ [])))
unfolding client_worker
client_worker-breaks junk xs x at_end rs log few is i eof =
    let left = nbr_requests_per_thread - suc (length xs) in
    ap (λ k. request_loop k junk (world (rounds_replies xs (sent_replies x (at_end ∷ rs))) log))
      (omega arith)
    ∙ (request_loop-rounds junk xs (suc left) (sent_replies x (at_end ∷ rs)) log is
        ∙ request_loop-unanswered junk left x at_end rs (rounds_log xs log) i eof)
