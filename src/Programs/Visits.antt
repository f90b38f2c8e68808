-- ===== src/Programs/Visits.antt =====
-- A thread of blk_client/main.cpp against a worker of the loopback server of Pixie-XC/main.cpp.
use pixiecpp.Base.{ℕ, ◌≡◌, refl, ◌∙◌, false, inl, List, [], ◌∷◌, ◌++◌, arith, ℤ, All, length}
use mathlib.Core.List.{map}
use pixiecpp.Os.{Reply, Call, returned}
use pixiecpp.Blk.Message.{to_raw_string}
use pixiecpp.Blk.Parser.RoundTrip.{IsWellFormed}
use pixiecpp.Blk.Socket.Read.{world}
use pixiecpp.Blk.Socket.Reassembly.{reads}
use pixiecpp.Blk.Socket.Write.{TakesAll, wire}
use pixiecpp.Blk.Client.{Junk}
use pixiecpp.Blk.Handler.{Protocol, new_handler}
use pixiecpp.Blk.Handler.Proxy.{TunnelMemory}
use pixiecpp.Blk.Handler.Proxy.Relay.{IsConnected}
use pixiecpp.Blk.Handler.Loopback.Echo.{
  Delivery, IsDelivered, conversation, echoes, IsGoodbye, flushed, handle_blk_loopback-echoes,
}
use pixiecpp.Blk.Journey.{Segments, Carries, wire-whole, Carries-raw, Carries-in_last}
use pixiecpp.Server.Worker.{Worker, handle, worker_main, Serves, last_of, worker_main-Serves}
use pixiecpp.Programs.{nbr_requests_per_thread, client_message, client_worker}
use pixiecpp.Programs.Requests.{
  Round, IsAnswered, rounds_replies, rounds_log, client_worker-answered,
}

-- A request of the client, which has the connection as `fd`, to the server, which has it as `peer`,
-- with the replies of the system to both.
pub record Visit : Type 0 where
  pub host_reply : Reply
  pub socket_reply : Reply
  pub connect_reply : Reply
  pub fd : ℕ
  pub peer : ℤ
  pub told : Reply
  pub to_server : Segments
  pub echoed : Reply
  pub to_client : Segments
  pub at_end : Reply
  pub received : Reply
  pub option : Reply

-- Both sockets deliver what was written to them, in some pieces, every write takes all, and the
-- connection ends with no error.
pub record IsVisited (x : Visit) : Type 0 where
  pub connects : IsConnected x.host_reply x.socket_reply x.connect_reply x.fd
  pub all_told : TakesAll x.told client_message
  pub to_server : Carries x.to_server (wire client_message)
  pub all_echoed : TakesAll x.echoed client_message
  pub to_client : Carries x.to_client (wire client_message)
  pub goodbye : IsGoodbye x.at_end x.received x.option

-- What the client and the server meet.
abbrev pub asked : Visit → Round
asked x = record {
  host_reply = x.host_reply;
  socket_reply = x.socket_reply;
  connect_reply = x.connect_reply;
  fd = x.fd;
  told = x.told;
  response = client_message;
  first_pieces = x.to_client.first;
  last_piece = x.to_client.last;
  extra = [];
}

abbrev pub met : Visit → Delivery
met x = record {
  message = client_message;
  first_pieces = x.to_server.first;
  last_piece = x.to_server.last;
  extra = [];
  sent = x.echoed;
}

abbrev pub visits_replies : List Visit → List Reply → List Reply
visits_replies [] rs = rs
visits_replies (x ∷ xs) rs =
    conversation (met x ∷ []) (x.at_end ∷ x.received ∷ x.option ∷ visits_replies xs rs)

-- The calls of the server's worker: for each connection it reads the request, writes the same
-- message, and reads the end of the stream.
abbrev pub visits_log : Junk → List Visit → List Call → List Call
visits_log junk [] log = log
visits_log junk (x ∷ xs) log =
    visits_log junk xs (flushed junk x.peer (echoes x.peer (met x ∷ []) log ++ reads 1 x.peer))

client_message-IsWellFormed : IsWellFormed client_message
client_message-IsWellFormed = record {
  start = refl;
  port_fits = omega arith;
  verb = inl refl;
  announced = refl;
  some_body = omega arith;
  body_fits = omega arith;
}

client_message_whole : wire client_message ≡ to_raw_string client_message
client_message_whole = wire-whole client_message client_message-IsWellFormed (omega arith)

asked-IsAnswered : (x : Visit) → IsVisited x → IsAnswered (asked x)
asked-IsAnswered x v = record {
  sent = record { connects = v.connects; all_told = v.all_told };
  well_formed = client_message-IsWellFormed;
  stream = Carries-raw x.to_client client_message client_message_whole v.to_client;
  in_last = Carries-in_last x.to_client client_message client_message_whole v.to_client;
  pieces_hold = v.to_client.first_hold;
  last_holds = v.to_client.last_holds;
}

met-IsDelivered : (x : Visit) → IsVisited x → IsDelivered (met x)
met-IsDelivered x v = record {
  well_formed = client_message-IsWellFormed;
  stream = Carries-raw x.to_server client_message client_message_whole v.to_server;
  in_last = Carries-in_last x.to_server client_message client_message_whole v.to_server;
  pieces_hold = v.to_server.first_hold;
  last_holds = v.to_server.last_holds;
  all_sent = v.all_echoed;
}

All-asked : (xs : List Visit) → All IsVisited xs → All IsAnswered (map asked xs)
All-asked [] vs = tt
All-asked (x ∷ xs) (v, vs) = (asked-IsAnswered x v, All-asked xs vs)

length-asked : (xs : List Visit) → length (map asked xs) ≡ length xs
length-asked [] = refl
length-asked (x ∷ xs) = omega (arith, length-asked xs)

visits-Serves :
    (junk : Junk) (mem : TunnelMemory) (id : ℤ) (xs : List Visit) (rs : List Reply)
    (log : List Call)
    → All IsVisited xs
    → Serves junk mem Protocol.loopback id
        (world (visits_replies xs rs) log)
        (map (λ x. x.peer) xs)
        (world rs (visits_log junk xs log))
unfolding handle new_handler
visits-Serves junk mem id [] rs log vs = Serves.none_left
visits-Serves junk mem id (x ∷ xs) rs log (v, vs) =
    let h = new_handler junk Protocol.loopback x.peer id in
    Serves.ended
      (handle_blk_loopback-echoes junk h (met x ∷ []) x.at_end x.received x.option
        (visits_replies xs rs) log (met-IsDelivered x v, tt) v.goodbye)
      (visits-Serves junk mem id xs rs _ vs)

-- A thread of the test client and a worker of the loopback server, joined by a hundred connections,
-- which are all made, take every write whole, deliver exactly the bytes that were written to them, in
-- any pieces, and end with no error. Then the thread makes a hundred requests, reads a whole message
-- on each connection, and closes it; and the worker serves the hundred connections in order: on each
-- it reads the request, writes the same bytes back, reads the end of the stream and flushes, and
-- closes none.
pub client_worker-worker_main :
    (junk_c junk_s : Junk) (mem : TunnelMemory) (w : Worker) (xs : List Visit)
    → w.protocol ≡ Protocol.loopback
    → length xs ≡ nbr_requests_per_thread
    → All IsVisited xs
    → (client_worker junk_c (world (rounds_replies (map asked xs) []) [])
        ≡ returned tt (world [] (rounds_log (map asked xs) [])))
      × (worker_main junk_s mem (map (λ x. x.peer) xs) w (world (visits_replies xs []) [])
          ≡ returned
              (record w {
                active = false;
                active_socket = last_of w.active_socket (map (λ x. x.peer) xs);
              })
              (world [] (visits_log junk_s xs [])))
client_worker-worker_main junk_c junk_s mem w xs loopback hundred vs = (
  client_worker-answered junk_c (map asked xs) [] [] (length-asked xs ∙ hundred) (All-asked xs vs),
  worker_main-Serves junk_s mem (map (λ x. x.peer) xs) w (world (visits_replies xs []) [])
      (world [] (visits_log junk_s xs []))
      (rw loopback (visits-Serves junk_s mem w.id xs [] [] vs)),
)
