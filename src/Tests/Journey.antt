-- ===== src/Tests/Journey.antt =====
-- A request on its way through client, proxy and server at concrete inputs.
use pixiecpp.Base.{◌≡◌, refl, inl, true, [], ◌∷◌, ◌++◌, arith, ℤ, pos, Bytes, codes}
use pixiecpp.Decimal.{to_string}
use pixiecpp.Os.{Reply, returned}
use pixiecpp.Blk.Message.{BlkMessage, new_message, to_raw_string, is_tunnel_request}
use pixiecpp.Blk.Parser.RoundTrip.{IsWellFormed}
use pixiecpp.Blk.Socket.Read.{world}
use pixiecpp.Blk.Socket.Reassembly.{piece, reads}
use pixiecpp.Blk.Socket.Write.{written}
use pixiecpp.Blk.Client.{BlkClient, Junk, execute_request}
use pixiecpp.Blk.Handler.{HandlerBlk, Protocol, blk_proxy_rules}
use pixiecpp.Blk.Handler.Proxy.{handle_blk_normal}
use pixiecpp.Blk.Handler.Proxy.Conversation.{served, proxied}
use pixiecpp.Blk.Handler.Loopback.{handle_blk_loopback}
use pixiecpp.Blk.Handler.Loopback.Echo.{conversation, echoes, flushed}
use pixiecpp.Blk.Journey.{Segments, Journey, IsDelivering, at_proxy, at_server, rewritten}
use pixiecpp.Blk.Journey.Delivered.{execute_request-handle_blk_normal}

abbrev reply : ℤ → Reply
reply v = record { value = v; errno = 0; bytes = []; read_set = []; write_set = [] }

abbrev none_left : Reply
none_left = record (reply (pos 0)) { bytes = 0 ∷ [] }

abbrev question : BlkMessage
question = new_message (pos 8002) (codes "NORMAL") (codes "hi")

abbrev segments : Bytes → Bytes → Segments
segments first last = record { first = first ∷ []; last = last }

-- The request has 22 bytes and the rewritten one 35.
abbrev journey : Journey
journey = record {
  message = question;
  to_proxy = segments (codes "START\n80") (codes "02\nNORMAL\n2\nhi");
  to_server = segments (codes "START\n8002\n") (codes "NORMAL\n14\nMITM 8002 : hi");
  from_server = segments (codes "START\n8002\nNORMAL\n") (codes "14\nMITM 8002 : hi");
  to_client = segments (codes "START\n8002\nNORMAL\n14\nMITM") (codes " 8002 : hi");
  host_reply = reply (pos 1);
  socket_reply = reply (pos 9);
  connect_reply = reply (pos 0);
  server_fd = 9;
  client_wrote = reply (pos 22);
  proxy_forwarded = reply (pos 35);
  server_wrote = reply (pos 35);
  proxy_answered = reply (pos 35);
}

journey-IsDelivering : IsDelivering journey
unfolding to_raw_string to_string blk_proxy_rules
journey-IsDelivering = record {
  connects = record { host_known = refl; opened = refl; not_zero = refl; accepted = refl };
  to_proxy = record { whole = refl; first_hold = (omega arith, tt); last_holds = omega arith };
  to_server = record { whole = refl; first_hold = (omega arith, tt); last_holds = omega arith };
  from_server = record { whole = refl; first_hold = (omega arith, tt); last_holds = omega arith };
  to_client = record { whole = refl; first_hold = (omega arith, tt); last_holds = omega arith };
  client_wrote = (refl, omega arith);
  proxy_forwarded = (refl, omega arith);
  server_wrote = (refl, omega arith);
  proxy_answered = (refl, omega arith);
}

question-IsWellFormed : IsWellFormed question
question-IsWellFormed = record {
  start = refl;
  port_fits = omega arith;
  verb = inl refl;
  announced = refl;
  some_body = omega arith;
  body_fits = omega arith;
}

abbrev found : Junk
found = record {
  socket = pos 77;
  message_socket = pos 78;
  destination_port = pos 0;
  message_length = pos 0;
  parser_length = pos 9;
}

abbrev handler_on : Protocol → ℤ → HandlerBlk
handler_on protocol fd = record {
  protocol = protocol;
  pipelining_supported = true;
  socket_fd = fd;
  id = pos 1;
  message_socket = pos 78;
}

abbrev asking : BlkClient
asking = record {
  host = codes "localhost";
  url = codes "a_url";
  port = pos 8001;
  socket = pos 6;
  request_message = question;
  response_message = question;
  message_socket = pos 6;
}

execute_request-handle_blk_normal_example :
    (execute_request found asking (pos 0) (
        world
          (reply (pos 22)
            ∷ piece (codes "START\n8002\nNORMAL\n14\nMITM")
            ∷ piece (codes " 8002 : hi")
            ∷ [])
          [])
      ≡ returned
          (record {
            good = true;
            client = record asking { response_message = rewritten question };
            status = pos 0;
          })
          (world [] (written (pos 6) question [] ++ reads 2 (pos 6))))
    × (handle_blk_normal found
          (record { a2b = []; b2a = []; errorno = 0 })
          (handler_on Protocol.blk_proxy (pos 5))
          (world (served (at_proxy journey ∷ []) (reply (pos 0)) []) [])
        ≡ returned tt (world [] (proxied (pos 5) (pos 8002) (at_proxy journey ∷ []) [])))
    × (handle_blk_loopback found (handler_on Protocol.loopback (pos 7)) (
          world
            (conversation (at_server journey ∷ []) (reply (pos 0) ∷ reply (pos 0) ∷ none_left ∷ []))
            [])
        ≡ returned tt (
            world [] (
              flushed found
                (pos 7)
                (echoes (pos 7) (at_server journey ∷ []) [] ++ reads 1 (pos 7)))))
unfolding is_tunnel_request
execute_request-handle_blk_normal_example =
    execute_request-handle_blk_normal journey found found found asking
      (record { a2b = []; b2a = []; errorno = 0 }) (handler_on Protocol.blk_proxy (pos 5))
      (handler_on Protocol.loopback (pos 7)) (reply (pos 0)) (reply (pos 0)) (reply (pos 0))
      none_left journey-IsDelivering question-IsWellFormed (omega arith) (omega arith) refl refl
      refl (record { eof = refl; received_none = refl; option_good = refl; none_left = refl })
