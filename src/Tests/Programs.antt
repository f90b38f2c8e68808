-- ===== src/Tests/Programs.antt =====
-- The test client at concrete inputs.
use pixiecpp.Base.{
  ℕ, zero, suc, ◌≡◌, refl, false, inl, [], ◌∷◌, ◌++◌, arith, All, replicate, ℤ, pos, codes,
  length-replicate,
}
use mathlib.Core.List.{map}
use pixiecpp.Decimal.{to_string}
use pixiecpp.Os.{Reply, returned, report}
use pixiecpp.Blk.Message.{new_message, to_raw_string}
use pixiecpp.Blk.Socket.Read.{world}
use pixiecpp.Blk.Socket.Reassembly.{reads}
use pixiecpp.Blk.Client.{Junk}
use pixiecpp.Blk.Handler.{Protocol}
use pixiecpp.Blk.Handler.Proxy.{TunnelMemory}
use pixiecpp.Server.Worker.{Worker, new_worker, worker_main, last_of}
use pixiecpp.Programs.{client_worker}
use pixiecpp.Programs.Visits.{
  Visit, IsVisited, asked, visits_replies, visits_log, client_worker-worker_main,
}
use pixiecpp.Programs.Requests.{
  Round, IsSent, IsAnswered, rounds_replies, rounds_log, sent_replies, sent_log,
  client_worker-breaks,
}

abbrev said : ℤ → Reply
said v = record { value = v; errno = 0; bytes = []; read_set = []; write_set = [] }

-- The request has 41 bytes; the response arrives in two pieces.
abbrev round : Round
round = record {
  host_reply = said (pos 1);
  socket_reply = said (pos 9);
  connect_reply = said (pos 0);
  fd = 9;
  told = said (pos 41);
  response = new_message (pos 8001) (codes "NORMAL") (codes "ok");
  first_pieces = codes "START\n8001\n" ∷ [];
  last_piece = codes "NORMAL\n2\nok";
  extra = [];
}

round-IsSent : IsSent round
unfolding to_raw_string to_string
round-IsSent = record {
  connects = record { host_known = refl; opened = refl; not_zero = refl; accepted = refl };
  all_told = (refl, omega arith);
}

round-IsAnswered : IsAnswered round
unfolding to_raw_string to_string
round-IsAnswered = record {
  sent = round-IsSent;
  well_formed = record {
    start = refl;
    port_fits = omega arith;
    verb = inl refl;
    announced = refl;
    some_body = omega arith;
    body_fits = omega arith;
  };
  stream = refl;
  in_last = omega arith;
  pieces_hold = (omega arith, tt);
  last_holds = omega arith;
}

abbrev memory : Junk
memory = record {
  socket = pos 77;
  message_socket = pos 78;
  destination_port = pos 0;
  message_length = pos 0;
  parser_length = pos 9;
}

client_worker-breaks_example :
    client_worker memory
      (world (rounds_replies (round ∷ []) (sent_replies round (said (pos 0) ∷ []))) [])
    ≡ returned tt (
        world [] (
          (sent_log round (rounds_log (round ∷ []) []) ++ reads 1 (pos 9))
          ++ (report "executeRequest for worker Failed" ∷ [])))
client_worker-breaks_example =
    client_worker-breaks memory (round ∷ []) round (said (pos 0)) [] [] (omega arith)
      (round-IsAnswered, tt) round-IsSent refl

abbrev none_unsent : Reply
none_unsent = record (said (pos 0)) { bytes = 0 ∷ [] }

-- The request arrives in one piece and the response in two.
abbrev visit : Visit
visit = record {
  host_reply = said (pos 1);
  socket_reply = said (pos 9);
  connect_reply = said (pos 0);
  fd = 9;
  peer = pos 12;
  told = said (pos 41);
  to_server = record { first = []; last = codes "START\n8001\nNORMAL\n20\n00119922883377446655" };
  echoed = said (pos 41);
  to_client = record {
    first = codes "START\n8001\nNOR" ∷ [];
    last = codes "MAL\n20\n00119922883377446655";
  };
  at_end = said (pos 0);
  received = said (pos 0);
  option = none_unsent;
}

visit-IsVisited : IsVisited visit
unfolding to_raw_string to_string
visit-IsVisited = record {
  connects = record { host_known = refl; opened = refl; not_zero = refl; accepted = refl };
  all_told = (refl, omega arith);
  to_server = record { whole = refl; first_hold = tt; last_holds = omega arith };
  all_echoed = (refl, omega arith);
  to_client = record { whole = refl; first_hold = (omega arith, tt); last_holds = omega arith };
  goodbye = record { eof = refl; received_none = refl; option_good = refl; none_left = refl };
}

All-IsVisited : (n : ℕ) → All IsVisited (replicate n visit)
All-IsVisited zero = tt
All-IsVisited (suc n) = (visit-IsVisited, All-IsVisited n)

abbrev tunnel_memory : TunnelMemory
tunnel_memory = record { a2b = []; b2a = []; errorno = 0 }

abbrev serving : Worker
serving = new_worker Protocol.loopback (pos 3)

client_worker-worker_main_example :
    (client_worker memory (world (rounds_replies (map asked (replicate 100 visit)) []) [])
      ≡ returned tt (world [] (rounds_log (map asked (replicate 100 visit)) [])))
    × (worker_main memory tunnel_memory
          (map (λ x. x.peer) (replicate 100 visit))
          serving
          (world (visits_replies (replicate 100 visit) []) [])
        ≡ returned
            (record serving {
              active = false;
              active_socket = last_of (pos 0) (map (λ x. x.peer) (replicate 100 visit));
            })
            (world [] (visits_log memory (replicate 100 visit) [])))
client_worker-worker_main_example =
    client_worker-worker_main memory memory tunnel_memory serving (replicate 100 visit) refl
      (length-replicate 100 visit) (All-IsVisited 100)
