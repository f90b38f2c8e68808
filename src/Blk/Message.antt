-- ===== src/Blk/Message.antt =====
-- Class BlkMessage of Pixie-XC/Protocols/BLK/BlkMessage.h and BlkMessage.cpp. A std::string is the
-- list of its bytes.
use pixiecpp.Base.{Bool, [], ◌∷◌, ◌++◌, ℤ, to_int, Bytes, codes, bytes_eq, length}
use pixiecpp.Decimal.{to_string}

pub record BlkMessage : Type 0 where
  pub first_line : Bytes
  pub destination_port : ℤ
  pub request_verb : Bytes
  pub message_length : ℤ
  pub body : Bytes

-- BlkMessage::BlkMessage(): the two `int`s keep what the memory holds.
abbrev pub empty_message : ℤ → ℤ → BlkMessage
empty_message junk_port junk_length = record {
  first_line = codes "START";
  destination_port = junk_port;
  request_verb = [];
  message_length = junk_length;
  body = [];
}

-- BlkMessage::BlkMessage(int, std::string, std::string)
abbrev pub new_message : ℤ → Bytes → Bytes → BlkMessage
new_message port verb body = record {
  first_line = codes "START";
  destination_port = port;
  request_verb = verb;
  message_length = to_int (length body);
  body = body;
}

-- BlkMessage::toRawString
unfoldable pub to_raw_string : BlkMessage → Bytes
to_raw_string m =
    m.first_line
    ++ (10
        ∷ (to_string m.destination_port
            ++ (10 ∷ (m.request_verb ++ (10 ∷ (to_string m.message_length ++ (10 ∷ m.body)))))))

-- BlkMessage::isTunnelRequest
unfoldable pub is_tunnel_request : BlkMessage → Bool
is_tunnel_request m = bytes_eq m.request_verb (codes "TUNNEL")
