-- ===== src/Tests/Proxy.antt =====
-- The proxy entry of the BLK handler at concrete inputs.
use pixiecpp.Base.{
  bit, eq_ℤ, ◌+◌, ◌≡◌, ◌⊎◌, inl, refl, true, none, [], ◌∷◌, ◌++◌, arith, ℤ, pos, negsuc, codes,
}
use pixiecpp.Decimal.{to_string}
use pixiecpp.Os.{World, Reply, returned, sys_close}
use pixiecpp.Blk.Message.{BlkMessage, new_message, to_raw_string, is_tunnel_request}
use pixiecpp.Blk.Parser.RoundTrip.{IsWellFormed}
use pixiecpp.Blk.Socket.Read.{world}
use pixiecpp.Blk.Client.{Junk, new_client}
use pixiecpp.Blk.Handler.{HandlerBlk, Protocol, blk_proxy_rules}
use pixiecpp.Blk.Handler.Proxy.{TunnelMemory, handle_blk_normal, proxy_round}
use pixiecpp.Blk.Socket.Reassembly.{pieces, reads}
use pixiecpp.Blk.Socket.Write.{written}
use pixiecpp.Blk.Handler.Proxy.Relay.{Exchange, IsExchanged, connecting}
use pixiecpp.Blk.Handler.Proxy.Closes.{closes, connects, handle_blk_normal-closes}
use pixiecpp.Blk.Handler.Proxy.Cut.{proxy_round-cut}
use pixiecpp.Blk.Handler.Proxy.Refused.{Refusal, IsRefused, refusals, attempts, proxy_round-refused}
use pixiecpp.Os.Calls.{Ends}
use pixiecpp.Sockets.Data.Writes.{Writes}
use pixiecpp.Blk.Handler.Proxy.Forwards.{AsksForTunnel, Forwards, handle_blk_normal-Forwards}
use pixiecpp.Blk.Handler.Proxy.Conversation.{served, proxied, handle_blk_normal-proxied}

abbrev request : BlkMessage
request = new_message (pos 8002) (codes "NORMAL") (codes "hi")

abbrev response : BlkMessage
response = new_message (pos 8001) (codes "NORMAL") (codes "ok")

request-IsWellFormed : IsWellFormed request
request-IsWellFormed = record {
  start = refl;
  port_fits = omega arith;
  verb = inl refl;
  announced = refl;
  some_body = omega arith;
  body_fits = omega arith;
}

response-IsWellFormed : IsWellFormed response
response-IsWellFormed = record {
  start = refl;
  port_fits = omega arith;
  verb = inl refl;
  announced = refl;
  some_body = omega arith;
  body_fits = omega arith;
}

abbrev answer : ℤ → Reply
answer v = record { value = v; errno = 0; bytes = []; read_set = []; write_set = [] }

-- The request arrives in two pieces; the rewritten request has 35 bytes, and the response 22.
abbrev one_exchange : Exchange
one_exchange = record {
  request = request;
  request_pieces = codes "START\n80" ∷ [];
  request_last = codes "02\nNORMAL\n2\nhi";
  request_extra = [];
  response = response;
  host_reply = answer (pos 1);
  socket_reply = answer (pos 9);
  connect_reply = answer (pos 0);
  server_fd = 9;
  forwarded = answer (pos 35);
  first_pieces = codes "START\n8001\n" ∷ [];
  last_piece = codes "NORMAL\n2\nok";
  extra = [];
  returned_reply = answer (pos 22);
}

one_exchange-IsExchanged : IsExchanged one_exchange
unfolding to_raw_string to_string blk_proxy_rules
one_exchange-IsExchanged = record {
  request_well_formed = request-IsWellFormed;
  request_stream = refl;
  request_in_last = omega arith;
  request_pieces_hold = (omega arith, tt);
  request_last_holds = omega arith;
  connects = record { host_known = refl; opened = refl; not_zero = refl; accepted = refl };
  sent = (refl, omega arith);
  sent_some = omega arith;
  well_formed = response-IsWellFormed;
  stream = refl;
  in_last = omega arith;
  pieces_hold = (omega arith, tt);
  last_holds = omega arith;
  answered = (refl, omega arith);
  answered_some = omega arith;
}

abbrev junk : Junk
junk = record {
  socket = pos 77;
  message_socket = pos 78;
  destination_port = pos 0;
  message_length = pos 0;
  parser_length = pos 9;
}

abbrev handler : HandlerBlk
handler = record {
  protocol = Protocol.blk_proxy;
  pipelining_supported = true;
  socket_fd = pos 5;
  id = pos 1;
  message_socket = pos 78;
}

abbrev memory : TunnelMemory
memory = record { a2b = []; b2a = []; errorno = 0 }

handle_blk_normal-proxied_example :
    handle_blk_normal junk memory handler
      (world (served (one_exchange ∷ one_exchange ∷ []) (answer (pos 0)) []) [])
    ≡ returned tt (world [] (proxied (pos 5) (pos 8002) (one_exchange ∷ one_exchange ∷ []) []))
unfolding is_tunnel_request
handle_blk_normal-proxied_example =
    handle_blk_normal-proxied junk memory handler one_exchange (one_exchange ∷ []) (answer (pos 0))
      [] [] refl refl refl one_exchange-IsExchanged (one_exchange-IsExchanged, tt)

handle_blk_normal-closes_example :
    (w : World) × (handle_blk_normal junk memory handler
        (world (served (one_exchange ∷ one_exchange ∷ []) (answer (pos 0)) []) [])
      ≡ returned tt w)
    × ((fd : ℤ) → closes fd w.log ≡ connects fd w.log + bit (eq_ℤ (pos 5) fd))
unfolding is_tunnel_request
handle_blk_normal-closes_example =
    handle_blk_normal-closes junk memory handler one_exchange (one_exchange ∷ []) (answer (pos 0))
      [] refl refl refl one_exchange-IsExchanged (one_exchange-IsExchanged, tt)

-- ECONNREFUSED of Darwin is 61.
abbrev refusal : Refusal
refusal = record {
  host_reply = answer (pos 1);
  socket_reply = answer (pos 9);
  connect_reply = record (answer (negsuc 0)) { errno = 61 };
  fd = 9;
  how = 0;
}

refusal-IsRefused : IsRefused 61 refusal
refusal-IsRefused = record { host_known = refl; opened = refl; refused = refl; errno = refl }

proxy_round-refused_example :
    proxy_round junk handler
      (pos 8002)
      request
      (world (refusals (refusal ∷ refusal ∷ refusal ∷ refusal ∷ []) []) [])
    ≡ returned none (
        world [] (
          (attempts
              (new_client junk (codes "localhost") (codes "dont care") (pos 8002) request)
              refusal
              (refusal ∷ refusal ∷ refusal ∷ [])
              []
            ++ (sys_close (pos 77) ∷ []))
          ++ (sys_close (pos 78) ∷ [])))
proxy_round-refused_example =
    proxy_round-refused junk handler (pos 8002) request 61 refusal refusal refusal refusal [] []
      refl (refusal-IsRefused, (refusal-IsRefused, (refusal-IsRefused, (refusal-IsRefused, tt))))

-- The server sends ten bytes of its response and ends its stream.
proxy_round-cut_example :
    proxy_round junk handler (pos 8002) request (
      world
        (answer (pos 1)
          ∷ answer (pos 9)
          ∷ answer (pos 0)
          ∷ answer (pos 35)
          ∷ pieces (codes "START\n8001" ∷ []) (answer (pos 0) ∷ []))
        [])
    ≡ returned none (
        world [] (
          ((written
                (pos 9)
                (blk_proxy_rules request request)
                (connecting (codes "localhost") (pos 8002) 9 [])
              ++ reads 2 (pos 9))
            ++ (sys_close (pos 9) ∷ []))
          ++ (sys_close (pos 78) ∷ [])))
unfolding to_raw_string to_string blk_proxy_rules
proxy_round-cut_example =
    proxy_round-cut junk handler (pos 8002) request response (answer (pos 1)) (answer (pos 9))
      (answer (pos 0)) (answer (pos 35)) (answer (pos 0)) 9 (codes "START\n8001" ∷ [])
      (codes "\nNORMAL\n2\nok") [] []
      (record { host_known = refl; opened = refl; not_zero = refl; accepted = refl })
      (refl, omega arith) (omega arith) response-IsWellFormed refl (omega arith) (omega arith, tt)
      refl

-- The client sends a whole message, and the server half of one before its stream ends.
abbrev half_answered : World
half_answered =
    world
      (pieces (codes "START\n8002\nNORMAL\n2\nhi" ∷ []) (
        answer (pos 1)
        ∷ answer (pos 9)
        ∷ answer (pos 0)
        ∷ answer (pos 35)
        ∷ pieces (codes "START\n80" ∷ []) (answer (pos 0) ∷ answer (pos 0) ∷ [])))
      []

handle_blk_normal-Forwards_example :
    AsksForTunnel junk handler half_answered
    ⊎ Ends
        (Writes (Forwards handler.socket_fd))
        (λ _. Unit {0})
        half_answered
        (handle_blk_normal junk memory handler half_answered)
handle_blk_normal-Forwards_example = handle_blk_normal-Forwards junk memory handler half_answered
