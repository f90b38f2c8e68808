-- ===== src/Tests/Tunnel.antt =====
-- A tunnel at concrete inputs.
use pixiecpp.Base.{
  zero, ◌≡◌, refl, inr, true, List, [], ◌∷◌, ◌++◌, arith, ℤ, pos, negsuc, codes, replicate,
  length-replicate,
}
use pixiecpp.Decimal.{to_string}
use pixiecpp.Os.{Reply, Call, returned, exited, ask, report, sys_select, sys_read, sys_write}
use pixiecpp.Os.Exchange.{sent, received}
use pixiecpp.Blk.Message.{new_message, to_raw_string, is_tunnel_request}
use pixiecpp.Blk.Socket.Read.{world}
use pixiecpp.Blk.Client.{Junk}
use pixiecpp.Blk.Handler.{HandlerBlk, Protocol}
use pixiecpp.Blk.Handler.Proxy.{TunnelMemory, handle_blk_normal}
use pixiecpp.Blk.Handler.Proxy.Relay.{connecting}
use pixiecpp.Blk.Handler.Proxy.Refused.{Refusal}
use pixiecpp.Blk.Handler.Proxy.Opening.{
  Request, IsRequest, request_replies, after_request, Opening, after_opening, ends,
}
use pixiecpp.Blk.Handler.Proxy.Tunnel.{
  Tunnel, IsTunnel, tunnel_replies, run_from, run_to, both_closed, through,
  handle_blk_normal-relays, handle_blk_normal-exits,
}
use pixiecpp.Twc.Cbuffer.{store_at, cb_init, cb_advance_read_ptr, cb_advance_write}
use pixiecpp.Twc.Cbuffer.Pending.{pending}
use pixiecpp.Twc.Machine.{sm_eof, sm_init, sm_execute, sm_write, sm_read, sm_request}
use pixiecpp.Twc.Channel.{TwoWayChannel, twc_init, twc_run, twc_loop, twc_round, execute_both}
use pixiecpp.Twc.Channel.Start.{Flags, AreSet, channel, flag_replies, flag_calls}
use pixiecpp.Sockets.Flags.{add_non_blocking}

abbrev value : ℤ → Reply
value v = record { value = v; errno = 0; bytes = []; read_set = []; write_set = [] }

abbrev ready : List ℤ → List ℤ → Reply
ready readable writable = record (value (pos 1)) { read_set = readable; write_set = writable }

abbrev asks : Request
asks = record {
  message = new_message (pos 8002) (codes "TUNNEL") (codes "hi");
  first_pieces = codes "START\n80" ∷ [];
  last_piece = codes "02\nTUNNEL\n2\nhi";
  extra = [];
}

asks-IsRequest : IsRequest asks
unfolding to_raw_string to_string is_tunnel_request
asks-IsRequest = record {
  for_tunnel = refl;
  well_formed = record {
    start = refl;
    port_fits = omega arith;
    verb = inr refl;
    announced = refl;
    some_body = omega arith;
    body_fits = omega arith;
  };
  stream = refl;
  in_last = omega arith;
  pieces_hold = (omega arith, tt);
  last_holds = omega arith;
}

abbrev flags : Flags
flags = record {
  get_server = value (pos 2);
  set_server = value (pos 0);
  get_client = value (pos 2);
  set_client = value (pos 0);
  server_flags = 2;
  client_flags = 2;
}

flags-AreSet : AreSet flags
flags-AreSet = record { server_got = refl; server_set = refl; client_got = refl; client_set = refl }

abbrev tunnel_memory : TunnelMemory
tunnel_memory = record { a2b = replicate 10000 0; b2a = replicate 10000 0; errorno = 0 }

abbrev tunnel_handler : HandlerBlk
tunnel_handler = record {
  protocol = Protocol.blk_proxy;
  pipelining_supported = true;
  socket_fd = pos 5;
  id = pos 1;
  message_socket = pos 78;
}

abbrev unset : Junk
unset = record {
  socket = pos 77;
  message_socket = pos 78;
  destination_port = pos 0;
  message_length = pos 0;
  parser_length = pos 9;
}

-- The answer OK TO TUNNEL has 33 bytes.
abbrev opening : Opening
opening = record {
  host_reply = value (pos 1);
  socket_reply = value (pos 9);
  connect_reply = value (pos 0);
  server_fd = 9;
  told = value (pos 33);
}

-- In the tunnel the client sends three bytes, of which the server takes two before the client's
-- stream ends.
abbrev run_log : List Call
run_log =
    sys_select (pos 9) (pos 9 ∷ pos 5 ∷ []) []
    ∷ sys_read (pos 5) 10000
    ∷ sys_select (pos 9) (pos 9 ∷ pos 5 ∷ pos 5 ∷ []) (pos 9 ∷ [])
    ∷ sys_write (pos 9) (codes "abc")
    ∷ sys_select (pos 9) (pos 9 ∷ pos 5 ∷ []) (pos 9 ∷ pos 9 ∷ [])
    ∷ sys_read (pos 5) 9997
    ∷ []

abbrev tunnel : Tunnel
tunnel = record {
  request = asks;
  opening = opening;
  before = flags;
  after = flags;
  rs =
      ready (pos 5 ∷ []) []
      ∷ record (value (pos 3)) { bytes = codes "abc" }
      ∷ ready [] (pos 9 ∷ [])
      ∷ value (pos 2)
      ∷ ready (pos 5 ∷ []) []
      ∷ value (pos 0)
      ∷ flag_replies flags [];
  rs' = [];
  log' =
      flag_calls add_non_blocking (pos 5) (pos 9) flags
        (after_opening (pos 5) (pos 8002) opening (after_request (pos 5) asks []))
      ++ run_log;
}

tunnel-IsTunnel : IsTunnel tunnel_memory tunnel_handler tunnel
unfolding to_raw_string to_string
tunnel-IsTunnel = record {
  requested = asks-IsRequest;
  opened = record {
    connects = record { host_known = refl; opened = refl; not_zero = refl; accepted = refl };
    all_told = (refl, omega arith);
  };
  usable = record {
    differ = refl;
    whole_a = length-replicate 10000 zero;
    whole_b = length-replicate 10000 zero;
  };
  flags_before = flags-AreSet;
  flags_after = flags-AreSet;
}

abbrev opened_channel : TwoWayChannel
opened_channel = channel (ends tunnel_memory tunnel_handler opening)

-- The third byte is left in the buffer.
abbrev left_over : TwoWayChannel
left_over = record opened_channel {
  sm_a2b = record opened_channel.sm_a2b {
    cbuffer = record opened_channel.sm_a2b.cbuffer {
      buffer = store_at 0 (codes "abc") (replicate 10000 0);
      read_ptr = 3;
      write_ptr = 2;
    };
  };
}

tunnel_run :
    twc_run opened_channel (run_from tunnel_memory tunnel_handler tunnel [])
    ≡ returned (sm_eof, left_over) (run_to tunnel_memory tunnel_handler tunnel [])
unfolding twc_run twc_loop twc_round execute_both sm_execute sm_write sm_read sm_request
    cb_advance_write cb_advance_read_ptr ask twc_init sm_init cb_init
tunnel_run = refl

handle_blk_normal-relays_example :
    (handle_blk_normal unset tunnel_memory tunnel_handler (world (tunnel_replies tunnel) [])
      ≡ returned tt (both_closed tunnel_memory tunnel_handler tunnel []))
    × (sent (pos 9) (through tunnel_memory tunnel_handler tunnel [])
          ++ pending left_over.sm_a2b.cbuffer
        ≡ received (pos 5) (through tunnel_memory tunnel_handler tunnel []))
    × (sent (pos 5) (through tunnel_memory tunnel_handler tunnel [])
          ++ pending left_over.sm_b2a.cbuffer
        ≡ received (pos 9) (through tunnel_memory tunnel_handler tunnel []))
handle_blk_normal-relays_example =
    handle_blk_normal-relays unset tunnel_memory tunnel_handler tunnel [] sm_eof left_over
      tunnel-IsTunnel tunnel_run (omega arith) (omega arith) (omega arith)

-- ECONNREFUSED of Darwin is 61.
abbrev refused : Refusal
refused = record {
  host_reply = value (pos 1);
  socket_reply = value (pos 9);
  connect_reply = record (value (negsuc 0)) { errno = 61 };
  fd = 9;
  how = 0;
}

handle_blk_normal-exits_example :
    handle_blk_normal unset tunnel_memory tunnel_handler (
      world
        (request_replies asks
          (refused.host_reply ∷ refused.socket_reply ∷ refused.connect_reply ∷ []))
        [])
    ≡ exited 1 (
        world [] (
          (connecting (codes "localhost") (pos 8002) 9 (after_request (pos 5) asks [])
            ++ (report "Connection refused." ∷ []))
          ++ (report "connect upstream failed upSock" ∷ [])))
handle_blk_normal-exits_example =
    handle_blk_normal-exits unset tunnel_memory tunnel_handler asks 61 refused [] [] asks-IsRequest
      refl (record { host_known = refl; opened = refl; refused = refl; errno = refl })
