-- ===== src/Blk/Journey.antt =====
-- A request on its way through the program: the client of Protocols/BLK/BlkClient.cpp, the proxy entry and
-- the loopback entry of HandlerBlk.cpp, each a thread of its own with sockets between them.
pub mod Delivered
use pixiecpp.Base.{
  lengths, ℕ, ◌+◌, ◌<◌, ◌^◌, ◌≡◌, refl, sym, ap, ◌∙◌, inl, inr, false, List, [], ◌∷◌, ◌++◌,
  append-nil, arith, ◌==◌, ℤ, pos, to_int-small, Bytes, codes, All, All-map, All-append, length,
  until_nul,
}
use pixiecpp.Decimal.{to_string}
use pixiecpp.Decimal.RoundTrip.{to_string-All}
use pixiecpp.Os.{Reply}
use pixiecpp.Blk.Message.{BlkMessage, to_raw_string}
use pixiecpp.Blk.Parser.RoundTrip.{IsWellFormed}
use pixiecpp.Blk.Socket.Reassembly.{NonEmpty, joined}
use pixiecpp.Blk.Socket.Write.{TakesAll, wire}
use pixiecpp.Blk.Handler.{blk_proxy_rules}
use pixiecpp.Blk.Handler.Proxy.Relay.{Exchange, IsConnected}
use pixiecpp.Blk.Handler.Loopback.Echo.{Delivery}

-- No byte ends a C string.
abbrev pub NoNul : Bytes → Type 0
NoNul bs = All (λ c. 0 < c) bs

until_nul-NoNul : (bs : Bytes) → NoNul bs → until_nul bs ≡ bs
until_nul-NoNul [] h = refl
until_nul-NoNul (c ∷ bs) (p, h) =
    let zero_test : (c == 0) ≡ false = ground arith in rw (zero_test, until_nul-NoNul bs h) refl

print-NoNul : (v : ℤ) → NoNul (to_string v)
print-NoNul v = All-map (λ c h. omega arith) (to_string v) (to_string-All v)

verb-NoNul : (m : BlkMessage) → IsWellFormed m → NoNul m.request_verb
verb-NoNul m w = elim w.verb [ inl e ↦ rw e (omega arith) | inr e ↦ rw e (omega arith) ]

line : (xs ys : Bytes) → NoNul xs → NoNul ys → NoNul (xs ++ (10 ∷ ys))
line xs ys h k = All-append (λ c. 0 < c) xs (10 ∷ ys) h (omega arith, k)

-- A well-formed message with no zero byte in its body is written whole.
pub wire-whole : (m : BlkMessage) → IsWellFormed m → NoNul m.body → wire m ≡ to_raw_string m
unfolding to_raw_string
wire-whole m w h = until_nul-NoNul (to_raw_string m) (
    line m.first_line _ (rw w.start (omega arith)) (
      line (to_string m.destination_port) _ (print-NoNul m.destination_port) (
        line m.request_verb _ (verb-NoNul m w)
          (line (to_string m.message_length) _ (print-NoNul m.message_length) h))))

-- What the proxy makes of a request.
abbrev pub rewritten : BlkMessage → BlkMessage
rewritten m = blk_proxy_rules m m

pub rewritten-IsWellFormed :
    (m : BlkMessage) → IsWellFormed m → length m.body + 12 < 2 ^ 31 → IsWellFormed (rewritten m)
unfolding blk_proxy_rules
rewritten-IsWellFormed m w fits = record {
  start = w.start;
  port_fits = w.port_fits;
  verb = w.verb;
  announced = to_int-small (length (codes "MITM 8002 : " ++ m.body)) (omega arith);
  some_body = omega arith;
  body_fits = omega arith;
}

pub rewritten-NoNul : (m : BlkMessage) → NoNul m.body → NoNul (rewritten m).body
unfolding blk_proxy_rules
rewritten-NoNul m h = All-append (λ c. 0 < c) (codes "MITM 8002 : ") m.body (omega arith) h

-- The pieces in which a socket delivers the bytes that were written to it.
pub record Segments : Type 0 where
  pub first : List Bytes
  pub last : Bytes

pub record Carries (s : Segments) (bs : Bytes) : Type 0 where
  pub whole : joined s.first ++ s.last ≡ bs
  pub first_hold : All NonEmpty s.first
  pub last_holds : NonEmpty s.last

-- A request and the four ways it goes, with the system's other replies to the three threads.
pub record Journey : Type 0 where
  pub message : BlkMessage
  pub to_proxy : Segments
  pub to_server : Segments
  pub from_server : Segments
  pub to_client : Segments
  pub host_reply : Reply
  pub socket_reply : Reply
  pub connect_reply : Reply
  pub server_fd : ℕ
  pub client_wrote : Reply
  pub proxy_forwarded : Reply
  pub server_wrote : Reply
  pub proxy_answered : Reply

-- Every socket delivers what was written to it, in some pieces, and every write takes all.
pub record IsDelivering (j : Journey) : Type 0 where
  pub connects : IsConnected j.host_reply j.socket_reply j.connect_reply j.server_fd
  pub to_proxy : Carries j.to_proxy (wire j.message)
  pub to_server : Carries j.to_server (wire (rewritten j.message))
  pub from_server : Carries j.from_server (wire (rewritten j.message))
  pub to_client : Carries j.to_client (wire (rewritten j.message))
  pub client_wrote : TakesAll j.client_wrote j.message
  pub proxy_forwarded : TakesAll j.proxy_forwarded (rewritten j.message)
  pub server_wrote : TakesAll j.server_wrote (rewritten j.message)
  pub proxy_answered : TakesAll j.proxy_answered (rewritten j.message)

-- What the proxy and the server meet.
abbrev pub at_proxy : Journey → Exchange
at_proxy j = record {
  request = j.message;
  request_pieces = j.to_proxy.first;
  request_last = j.to_proxy.last;
  request_extra = [];
  response = rewritten j.message;
  host_reply = j.host_reply;
  socket_reply = j.socket_reply;
  connect_reply = j.connect_reply;
  server_fd = j.server_fd;
  forwarded = j.proxy_forwarded;
  first_pieces = j.from_server.first;
  last_piece = j.from_server.last;
  extra = [];
  returned_reply = j.proxy_answered;
}

abbrev pub at_server : Journey → Delivery
at_server j = record {
  message = rewritten j.message;
  first_pieces = j.to_server.first;
  last_piece = j.to_server.last;
  extra = [];
  sent = j.server_wrote;
}

pub Carries-raw :
    (s : Segments) (m : BlkMessage)
    → wire m ≡ to_raw_string m
    → Carries s (wire m)
    → joined s.first ++ s.last ≡ to_raw_string m ++ []
Carries-raw s m e c = c.whole ∙ (e ∙ sym (append-nil (to_raw_string m)))

pub Carries-in_last :
    (s : Segments) (m : BlkMessage)
    → wire m ≡ to_raw_string m
    → Carries s (wire m)
    → length (joined s.first) < length (to_raw_string m)
Carries-in_last s m e c = grind (lengths, ap length (c.whole ∙ e), c.last_holds)
