-- ===== src/Blk/Handler/Proxy/Cut.antt =====
-- A server whose stream ends in the middle of its response.
use pixiecpp.Base.{
  lengths, ℕ, suc, ◌<◌, ◌≡◌, refl, sym, ap, ◌∙◌, false, none, List, [], ◌∷◌, ◌++◌, append-nil, ℤ,
  pos, Bytes, All, codes, length,
}
use pixiecpp.ErrorCodes.{blk_read_status_eof}
use pixiecpp.Os.{Reply, Call, returned, sys_close}
use pixiecpp.Blk.Message.{BlkMessage, to_raw_string, empty_message}
use pixiecpp.Blk.Parser.{new_parser, append}
use pixiecpp.Blk.Parser.Feeding.{feed}
use pixiecpp.Blk.Parser.Chunks.{append-split_closed}
use pixiecpp.Blk.Parser.RoundTrip.{IsWellFormed, append-to_raw_string}
use pixiecpp.Blk.Socket.{read_message}
use pixiecpp.Blk.Socket.Read.{world}
use pixiecpp.Blk.Socket.Reassembly.{NonEmpty, pieces, joined, reads, read_message-eof}
use pixiecpp.Blk.Socket.Write.{TakesAll, wire, written, write_message-sent}
use pixiecpp.Blk.Client
use pixiecpp.Blk.Client.{Junk, new_client, execute_request}
use pixiecpp.Blk.Handler.{HandlerBlk, blk_proxy_rules}
use pixiecpp.Blk.Handler.Proxy.{proxy_round}
use pixiecpp.Blk.Handler.Proxy.Relay.{IsConnected, connecting, connect_with_retries-IsConnected}

-- A read of a message whose stream ends before its last byte reports the end of the stream.
read_message-cut :
    (junk socket : ℤ) (old m : BlkMessage) (cs : List Bytes) (missing : Bytes) (at_end : Reply)
    (rs : List Reply) (log : List Call)
    → IsWellFormed m
    → joined cs ++ missing ≡ to_raw_string m
    → NonEmpty missing
    → All NonEmpty cs
    → at_end.value ≡ pos 0
    → read_message junk socket old (world (pieces cs (at_end ∷ rs)) log)
      ≡ returned
          (record {
            got = false;
            msg = (feed (new_parser old junk) (joined cs)).msg;
            status = blk_read_status_eof;
          })
          (world rs (log ++ reads (suc (length cs)) socket))
read_message-cut junk socket old m cs missing at_end rs log w e lack h eof =
    let parser = new_parser old junk in
    let (count, full, no_error, msg) = append-to_raw_string old junk [] m w in
    let q = (append parser (to_raw_string m ++ [])).1 in
    let whole : append parser (joined cs ++ missing) ≡ (pos (length (to_raw_string m)), q) =
      ap (append parser) (e ∙ sym (append-nil (to_raw_string m))) ∙ (λ i. (count i, q)) in
    let (first, _) =
      append-split_closed parser (joined cs) missing _ q whole (grind (lengths, ap length e)) in
    read_message-eof junk socket old cs (feed parser (joined cs)) at_end rs log first h eof

-- A request that is forwarded to a server which accepts the connection and takes all of the at most
-- INT_MAX bytes that are written, and whose stream ends before the last byte of a well-formed response, at any point and in any
-- pieces: a round of the proxy sends the client nothing of the part that came, closes the connection
-- to the server, then the client's socket, and ends the conversation.
pub proxy_round-cut :
    (junk : Junk) (h : HandlerBlk) (port : ℤ) (request response : BlkMessage)
    (host_reply socket_reply connect_reply forwarded at_end : Reply) (fd : ℕ) (cs : List Bytes)
    (missing : Bytes) (rs : List Reply) (log : List Call)
    → IsConnected host_reply socket_reply connect_reply fd
    → TakesAll forwarded (blk_proxy_rules request request)
    → 0 < length (wire (blk_proxy_rules request request))
    → IsWellFormed response
    → joined cs ++ missing ≡ to_raw_string response
    → NonEmpty missing
    → All NonEmpty cs
    → at_end.value ≡ pos 0
    → proxy_round junk h port request (
        world (host_reply ∷ socket_reply ∷ connect_reply ∷ forwarded ∷ pieces cs (at_end ∷ rs)) log)
      ≡ returned none (
          world rs (
            ((written
                  (pos fd)
                  (blk_proxy_rules request request)
                  (connecting (codes "localhost") port fd log)
                ++ reads (suc (length cs)) (pos fd))
              ++ (sys_close (pos fd) ∷ []))
            ++ (sys_close h.message_socket ∷ [])))
unfolding proxy_round execute_request new_client Client.close
proxy_round-cut junk h port request response host_reply socket_reply connect_reply forwarded at_end
      fd cs missing rs log i sent some_bytes w e lack hold eof =
    let client = new_client junk (codes "localhost") (codes "dont care") port request in
    let outgoing = blk_proxy_rules request request in
    let rs1 = pieces cs (at_end ∷ rs) in
    let log1 = connecting (codes "localhost") port fd log in
    rw
      (
        connect_with_retries-IsConnected client host_reply socket_reply connect_reply fd
            (forwarded ∷ rs1) log i,
        write_message-sent (pos fd) outgoing (pos 0) forwarded rs1 log1 sent some_bytes,
        read_message-cut junk.parser_length (pos fd)
            (empty_message junk.destination_port junk.message_length) response cs missing at_end rs
            (written (pos fd) outgoing log1) w e lack hold eof,
      )
      refl
