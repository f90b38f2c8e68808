-- ===== src/Tests/Blk.antt =====
-- The BLK protocol at concrete inputs.
use pixiecpp.Base.{
  ◌⊎◌, ℕ, suc, take, ◌<◌, ◌≡◌, ◌⊎◌, inl, inr, refl, true, false, [], ◌∷◌, ◌++◌, arith, ℤ, pos,
  negsuc, Bytes, codes, length,
}
use pixiecpp.Decimal.{to_string, stoi}
use pixiecpp.Os.{Reply, returned}
use pixiecpp.Blk.Message.{BlkMessage, empty_message, new_message, to_raw_string}
use pixiecpp.Blk.Parser.{BlkParser, new_parser, append}
use pixiecpp.Blk.Parser.RoundTrip.{IsWellFormed, Parses, append-to_raw_string}
use pixiecpp.Blk.Parser.Keeps.{IsParsed}
use pixiecpp.Blk.Parser.Valid.{new_parser-IsReady, append-IsParsed}
use pixiecpp.Blk.Parser.Feeding.{feed, closed, StaysOpen, append_lem}
use pixiecpp.Blk.Parser.Rejects.{append-IsBodiless}
use pixiecpp.Blk.Socket.{read_message}
use pixiecpp.Blk.Socket.Read.{world, ReadEnds, read_message-ReadEnds}
use pixiecpp.Blk.Socket.Reassembly.{piece, reads}
use pixiecpp.Blk.Socket.Write.{Returns, FailsPartly, write_message_lem}
use pixiecpp.Blk.Client.{Junk}
use pixiecpp.Blk.Handler.{HandlerBlk, Protocol}
use pixiecpp.Blk.Handler.Loopback.{handle_blk_loopback}
use pixiecpp.Blk.Handler.Loopback.Echo.{
  Delivery, IsDelivered, conversation, echoes, flushed, handle_blk_loopback-echoes,
}

abbrev hello : BlkMessage
hello = new_message (pos 8002) (codes "NORMAL") (codes "hi")

abbrev unset : BlkMessage
unset = empty_message (pos 0) (pos 0)

hello_raw : to_raw_string hello ≡ codes "START\n8002\nNORMAL\n2\nhi"
unfolding to_raw_string to_string
hello_raw = refl

hello-IsWellFormed : IsWellFormed hello
hello-IsWellFormed = record {
  start = refl;
  port_fits = omega arith;
  verb = inl refl;
  announced = refl;
  some_body = omega arith;
  body_fits = omega arith;
}

append-to_raw_string_example :
    Parses
      (append (new_parser unset (pos 9)) (to_raw_string hello ++ codes "more"))
      (length (to_raw_string hello))
      hello
append-to_raw_string_example =
    append-to_raw_string unset (pos 9) (codes "more") hello hello-IsWellFormed

-- A lower-case text is accepted too.
abbrev lower : Bytes
lower = codes "start\n-1\ntunnel\n1\nx"

append-IsParsed_example : IsParsed (append (new_parser unset (pos 9)) lower).1.msg
unfolding append stoi
append-IsParsed_example =
    (append-IsParsed (new_parser unset (pos 9)) lower (new_parser-IsReady unset (pos 9)) refl).1

append_lem_example :
    ((append (new_parser unset (pos 9)) lower ≡ (negsuc 0, feed (new_parser unset (pos 9)) lower))
      × StaysOpen (length lower) (new_parser unset (pos 9)) lower)
    ⊎ ((m : ℕ) × (append (new_parser unset (pos 9)) lower
          ≡ (pos (suc m), feed (new_parser unset (pos 9)) (take (suc m) lower)))
        × (m < length lower)
        × (closed (feed (new_parser unset (pos 9)) (take (suc m) lower)) ≡ true)
        × StaysOpen m (new_parser unset (pos 9)) lower)
append_lem_example = append_lem (new_parser unset (pos 9)) lower

abbrev half_parser : BlkParser
half_parser = (append (new_parser unset (pos 9)) (codes "STA")).1

abbrev silent : BlkMessage
silent = new_message (pos 8002) (codes "TUNNEL") []

append-IsBodiless_example :
    let r = append (new_parser unset (pos 9)) (to_raw_string silent) in
    let r' = append (new_parser unset (pos 9)) (to_raw_string silent ++ codes "S") in
    ((r.0 ≡ negsuc 0) × (r.1.message_complete ≡ false))
    × ((r'.1.parse_error ≡ true) × (r'.1.message_complete ≡ false))
append-IsBodiless_example = append-IsBodiless silent unset (pos 9) b'S' [] (record {
  start = refl;
  port_fits = omega arith;
  verb = inr refl;
  announced = refl;
  no_body = refl;
})

abbrev answer : ℤ → Reply
answer v = record { value = v; errno = 0; bytes = []; read_set = []; write_set = [] }

read_message-ReadEnds_example :
    ReadEnds (read_message (pos 9) (pos 5) unset (world (piece (codes "STAX") ∷ []) []))
read_message-ReadEnds_example =
    read_message-ReadEnds (pos 9) (pos 5) unset (piece (codes "STAX") ∷ []) []

-- The write takes three bytes of the message.
write_message_example :
    Returns (pos 5) hello (pos 0) (answer (pos 3)) [] []
    ⊎ FailsPartly (pos 5) hello (pos 0) (answer (pos 3)) [] []
unfolding to_raw_string to_string
write_message_example =
    write_message_lem (pos 5) hello (pos 0) (answer (pos 3)) [] [] (omega arith) (omega arith)

abbrev junk : Junk
junk = record {
  socket = pos 77;
  message_socket = pos 78;
  destination_port = pos 0;
  message_length = pos 0;
  parser_length = pos 9;
}

abbrev handler : HandlerBlk
handler = record {
  protocol = Protocol.loopback;
  pipelining_supported = true;
  socket_fd = pos 5;
  id = pos 1;
  message_socket = pos 78;
}

abbrev delivery : Delivery
delivery = record {
  message = hello;
  first_pieces = codes "START\n80" ∷ [];
  last_piece = codes "02\nNORMAL\n2\nhi";
  extra = [];
  sent = answer (pos 22);
}

delivery-IsDelivered : IsDelivered delivery
unfolding to_raw_string to_string
delivery-IsDelivered = record {
  well_formed = hello-IsWellFormed;
  stream = refl;
  in_last = omega arith;
  pieces_hold = omega arith;
  last_holds = omega arith;
  all_sent = (refl, omega arith);
}

abbrev nothing : Reply
nothing = record { value = pos 0; errno = 0; bytes = 0 ∷ []; read_set = []; write_set = [] }

handle_blk_loopback-echoes_example :
    handle_blk_loopback junk handler
      (world (conversation (delivery ∷ []) (nothing ∷ nothing ∷ nothing ∷ [])) [])
    ≡ returned tt
        (world [] (flushed junk (pos 5) (echoes (pos 5) (delivery ∷ []) [] ++ reads 1 (pos 5))))
handle_blk_loopback-echoes_example =
    handle_blk_loopback-echoes junk handler (delivery ∷ []) nothing nothing nothing [] []
      (delivery-IsDelivered, tt)
      (record { eof = refl; received_none = refl; option_good = refl; none_left = refl })

one_message :
    (append
      (new_parser (empty_message (pos 0) (pos 0)) (pos 9))
      (codes "start\n8002\nNormal\n3\nabcSTART")).0
    ≡ pos 23
unfolding append stoi
one_message = refl
