-- ===== src/Blk/Journey/Delivered.antt =====
-- Client, proxy and server over sockets that deliver what was written to them.
use pixiecpp.Base.{suc, ◌+◌, ◌<◌, ◌^◌, ◌≡◌, refl, true, false, List, [], ◌∷◌, ◌++◌, pos, length}
use pixiecpp.Os.{Reply, Call, returned}
use pixiecpp.Blk.Message.{to_raw_string, is_tunnel_request}
use pixiecpp.Blk.Parser.RoundTrip.{IsWellFormed}
use pixiecpp.Blk.Socket.Read.{world}
use pixiecpp.Blk.Socket.Reassembly.{piece, pieces, reads, read_message-pieces}
use pixiecpp.Blk.Socket.Write.{wire, written, write_message-sent}
use pixiecpp.Blk.Client.{BlkClient, Junk, execute_request}
use pixiecpp.Blk.Handler.{HandlerBlk}
use pixiecpp.Blk.Handler.Proxy.{TunnelMemory, handle_blk_normal}
use pixiecpp.Blk.Handler.Proxy.Relay.{IsExchanged}
use pixiecpp.Blk.Handler.Proxy.Conversation.{served, proxied, handle_blk_normal-proxied}
use pixiecpp.Blk.Handler.Loopback.{handle_blk_loopback}
use pixiecpp.Blk.Handler.Loopback.Echo.{
  IsDelivered, conversation, echoes, IsGoodbye, flushed, wire-pos, handle_blk_loopback-echoes,
}
use pixiecpp.Blk.Journey.{
  NoNul, wire-whole, rewritten, rewritten-IsWellFormed, rewritten-NoNul, Journey, IsDelivering,
  at_proxy, at_server, Carries-raw, Carries-in_last,
}

module _ (j : Journey) (d : IsDelivering j) (w : IsWellFormed j.message) (n : NoNul j.message.body)
    (fits : length j.message.body + 12 < 2 ^ 31) where
  answer-IsWellFormed : IsWellFormed (rewritten j.message)
  answer-IsWellFormed = rewritten-IsWellFormed j.message w fits

  answer_whole : wire (rewritten j.message) ≡ to_raw_string (rewritten j.message)
  answer_whole = wire-whole (rewritten j.message) answer-IsWellFormed (rewritten-NoNul j.message n)

  at_proxy-IsExchanged : IsExchanged (at_proxy j)
  at_proxy-IsExchanged =
      let request_whole = wire-whole j.message w n in
      record {
        request_well_formed = w;
        request_stream = Carries-raw j.to_proxy j.message request_whole d.to_proxy;
        request_in_last = Carries-in_last j.to_proxy j.message request_whole d.to_proxy;
        request_pieces_hold = d.to_proxy.first_hold;
        request_last_holds = d.to_proxy.last_holds;
        connects = d.connects;
        sent = d.proxy_forwarded;
        sent_some = wire-pos (rewritten j.message) answer-IsWellFormed;
        well_formed = answer-IsWellFormed;
        stream = Carries-raw j.from_server (rewritten j.message) answer_whole d.from_server;
        in_last = Carries-in_last j.from_server (rewritten j.message) answer_whole d.from_server;
        pieces_hold = d.from_server.first_hold;
        last_holds = d.from_server.last_holds;
        answered = d.proxy_answered;
        answered_some = wire-pos (rewritten j.message) answer-IsWellFormed;
      }

  at_server-IsDelivered : IsDelivered (at_server j)
  at_server-IsDelivered = record {
    well_formed = answer-IsWellFormed;
    stream = Carries-raw j.to_server (rewritten j.message) answer_whole d.to_server;
    in_last = Carries-in_last j.to_server (rewritten j.message) answer_whole d.to_server;
    pieces_hold = d.to_server.first_hold;
    last_holds = d.to_server.last_holds;
    all_sent = d.server_wrote;
  }

  -- The client's part.
  execute_request-answered :
      (junk : Junk) (client : BlkClient) (log : List Call)
      → execute_request junk
          (record client { request_message = j.message })
          (pos 0)
          (world (j.client_wrote ∷ pieces j.to_client.first (piece j.to_client.last ∷ [])) log)
        ≡ returned
            (record {
              good = true;
              client = record client {
                request_message = j.message;
                response_message = rewritten j.message;
              };
              status = pos 0;
            })
            (world [] (
              written client.message_socket j.message log
              ++ reads (suc (length j.to_client.first)) client.message_socket))
  unfolding execute_request
  execute_request-answered junk client log =
      rw
        (
          write_message-sent client.message_socket j.message (pos 0) j.client_wrote
              (pieces j.to_client.first (piece j.to_client.last ∷ [])) log d.client_wrote
              (wire-pos j.message w),
          read_message-pieces junk.parser_length client.message_socket client.response_message
              (rewritten j.message) j.to_client.first j.to_client.last [] []
              (written client.message_socket j.message log) answer-IsWellFormed
              (Carries-raw j.to_client (rewritten j.message) answer_whole d.to_client)
              (Carries-in_last j.to_client (rewritten j.message) answer_whole d.to_client)
              d.to_client.first_hold d.to_client.last_holds,
        )
        refl

-- A client, the proxy and a loopback server, joined by sockets. The request is well-formed, not for a
-- tunnel, with no zero byte in its body and a body that fits an `int` when twelve bytes are added;
-- the connections are made, every write is of at most INT_MAX bytes and takes them all, and every socket delivers exactly the
-- bytes that were written to it, in any pieces. Then BlkClient::executeRequest returns true with
-- status 0 and, as the response, the request with the body that blk_proxy_rules gives it;
-- HandlerBlk::handleBlkNormal makes one exchange over one connection, closes that connection, and
-- closes the client's socket at the end of the client's stream; and HandlerBlk::handleBlkLoopBack
-- receives the rewritten request and sends it back.
pub execute_request-handle_blk_normal :
    (j : Journey) (junk_c junk_p junk_s : Junk) (client : BlkClient) (mem : TunnelMemory)
    (proxy server : HandlerBlk) (proxy_end server_end received option : Reply)
    → IsDelivering j
    → IsWellFormed j.message
    → NoNul j.message.body
    → length j.message.body + 12 < 2 ^ 31
    → is_tunnel_request j.message ≡ false
    → proxy.pipelining_supported ≡ true
    → proxy_end.value ≡ pos 0
    → IsGoodbye server_end received option
    → (execute_request junk_c
          (record client { request_message = j.message })
          (pos 0)
          (world (j.client_wrote ∷ pieces j.to_client.first (piece j.to_client.last ∷ [])) [])
        ≡ returned
            (record {
              good = true;
              client = record client {
                request_message = j.message;
                response_message = rewritten j.message;
              };
              status = pos 0;
            })
            (world [] (
              written client.message_socket j.message []
              ++ reads (suc (length j.to_client.first)) client.message_socket)))
      × (handle_blk_normal junk_p mem proxy (world (served (at_proxy j ∷ []) proxy_end []) [])
          ≡ returned tt
              (world [] (proxied proxy.socket_fd j.message.destination_port (at_proxy j ∷ []) [])))
      × (handle_blk_loopback junk_s server
            (world (conversation (at_server j ∷ []) (server_end ∷ received ∷ option ∷ [])) [])
          ≡ returned tt (
              world [] (
                flushed junk_s server.socket_fd
                  (echoes server.socket_fd (at_server j ∷ []) [] ++ reads 1 server.socket_fd))))
execute_request-handle_blk_normal j junk_c junk_p junk_s client mem proxy server proxy_end
      server_end received option d w n fits no_tunnel pipelining eof goodbye =
    (
      execute_request-answered j d w n fits junk_c client [],
      handle_blk_normal-proxied junk_p mem proxy (at_proxy j) [] proxy_end [] [] pipelining
          no_tunnel eof (at_proxy-IsExchanged j d w n fits) tt,
      handle_blk_loopback-echoes junk_s server (at_server j ∷ []) server_end received option [] []
          (at_server-IsDelivered j d w n fits, tt) goodbye,
    )
