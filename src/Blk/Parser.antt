-- ===== src/Blk/Parser.antt =====
-- Class BlkParser of Pixie-XC/Protocols/BLK/BlkMessage.h and BlkMessage.cpp: a machine that is fed
-- one byte at a time. The message that the parser holds by reference is a field of its state.
pub mod Lines
pub mod Rejects
pub mod Keeps
pub mod Valid
pub mod Feeding
pub mod Chunks
pub mod RoundTrip
use pixiecpp.Base.{
  ℕ, suc, ◌+◌, Bool, true, false, not, ◌&&◌, Option, none, some, List, [], ◌∷◌, ◌++◌, leb, ◌==◌,
  if◌then◌else◌, ℤ, pos, negsuc, to_size, Bytes, codes, bytes_eq, toupper, length, take, get_or,
}
use pixiecpp.Decimal.{stoi}
use pixiecpp.Blk.Message.{BlkMessage}

-- `rawMsg` is written by no function and left out.
pub record BlkParser : Type 0 where
  pub line_count : ℕ
  pub msg : BlkMessage
  pub msg_length : ℤ
  pub destination_port : ℤ
  pub message_complete : Bool
  pub action_verb : Bytes
  pub current_line : Bytes
  pub current_buffer : Bytes
  pub body : Bytes
  pub lines : List Bytes
  pub parse_error : Bool
  pub error_message : Bytes

-- BlkParser::BlkParser: `msgLength` keeps what the memory holds.
abbrev pub new_parser : BlkMessage → ℤ → BlkParser
new_parser m junk = record {
  line_count = 0;
  msg = m;
  msg_length = junk;
  destination_port = negsuc 0;
  message_complete = false;
  action_verb = [];
  current_line = [];
  current_buffer = [];
  body = [];
  lines = [];
  parse_error = false;
  error_message = [];
}

-- BlkParser::error
abbrev pub error : Bytes → BlkParser → BlkParser
error m p = record p { error_message = m; parse_error = true }

-- BlkParser::nextLine
abbrev pub next_line : BlkParser → BlkParser
next_line p = record p {
  lines = p.lines ++ (p.current_line ∷ []);
  current_line = [];
  line_count = suc p.line_count;
}

-- BlkParser::finishedParsing
abbrev pub finished_parsing : BlkParser → BlkParser
finished_parsing p = record p {
  msg = record {
    first_line = get_or p.lines 0 [];
    destination_port = p.destination_port;
    request_verb = p.action_verb;
    message_length = p.msg_length;
    body = p.body;
  };
  message_complete = true;
}

-- BlkParser::parseInt: `none` stands for the `false` of the catch block.
abbrev pub parse_int : Bytes → Option ℤ
parse_int s = stoi s

-- `currentLine != std::string(word).substr(0, len)`
abbrev pub not_prefix_of : Bytes → Bytes → Bool
not_prefix_of word line = not (bytes_eq line (take (length line) word))

-- BlkParser::parseCharacter, the branch `lineCount == 0`
unfoldable pub first_line_char : BlkParser → ℕ → BlkParser
first_line_char p ch =
    if ch == 10
    then next_line (
        if bytes_eq p.current_line (codes "START")
        then p
        else error (codes "first line must be text 'START'") p)
    else let q = record p { current_line = p.current_line ++ (toupper ch ∷ []) } in
      if not_prefix_of (codes "START") q.current_line
      then error (codes "invalid start to message [" ++ (q.current_line ++ codes "]")) q
      else q

-- the branch `lineCount == 1`
set_port : Option ℤ → BlkParser → BlkParser
set_port none p = error (codes "destination port must be numeric ") p
set_port (some v) p = if p.line_count == 1 then record p { destination_port = v } else p

unfoldable pub port_line_char : BlkParser → ℕ → BlkParser
unfolding set_port
port_line_char p ch =
    if ch == 10
    then next_line (set_port (parse_int p.current_line) p)
    else record p { current_line = p.current_line ++ (ch ∷ []) }

-- the branch `lineCount == 2`
abbrev pub is_verb : Bytes → Bool
is_verb s = if bytes_eq s (codes "NORMAL") then true else bytes_eq s (codes "TUNNEL")

unfoldable pub verb_line_char : BlkParser → ℕ → BlkParser
verb_line_char p ch =
    let checked =
      if is_verb p.current_line
      then p
      else error (codes "verb line must be text 'NORMAL' or 'TUNNEL'") p in
    let q = record p { current_line = p.current_line ++ (toupper ch ∷ []) } in
    if ch == 10
    then next_line (record checked { action_verb = checked.current_line })
    else if not_prefix_of (codes "NORMAL") q.current_line
        && not_prefix_of (codes "TUNNEL") q.current_line
    then error (codes "invalid verb to message [" ++ (q.current_line ++ codes "]")) q
    else q

-- the branch `lineCount == 3`
set_length : Option ℤ → BlkParser → BlkParser
set_length none p = error (codes "second line must be numeric - message body length") p
set_length (some v) p = if p.line_count == 3 then record p { msg_length = v } else p

unfoldable pub length_line_char : BlkParser → ℕ → BlkParser
unfolding set_length
length_line_char p ch =
    if ch == 10
    then next_line (set_length (parse_int p.current_line) p)
    else record p { current_line = p.current_line ++ (ch ∷ []) }

-- the last branch, in which the `int` length is compared as a `size_t`
unfoldable pub body_char : BlkParser → ℕ → BlkParser
body_char p ch =
    let q =
      if leb (to_size p.msg_length) (length p.body)
      then error (codes "message body too long") p
      else p in
    let r = record q { body = q.body ++ (ch ∷ []) } in
    if length r.body == to_size r.msg_length then finished_parsing r else r

-- BlkParser::parseCharacter
unfoldable pub parse_character : BlkParser → ℕ → BlkParser
unfolding first_line_char port_line_char verb_line_char length_line_char body_char
parse_character p ch =
    let q = record p { current_buffer = p.current_buffer ++ (ch ∷ []) } in
    if q.line_count == 0
    then first_line_char q ch
    else if q.line_count == 1
    then port_line_char q ch
    else if q.line_count == 2
    then verb_line_char q ch
    else if q.line_count == 3
    then length_line_char q ch
    else body_char q ch

-- The loop of BlkParser::append, at `bytes_consumed = k`, over the bytes that are left.
unfoldable pub append_from : ℕ → BlkParser → Bytes → ℤ × BlkParser
append_from k p [] = (negsuc 0, p)
append_from k p (c ∷ cs) =
    let q = parse_character p c in
    let rest = append_from (k + 1) q cs in
    if q.parse_error then (pos k, q) else if q.message_complete then (pos k, q) else rest

-- BlkParser::append
unfoldable pub append : BlkParser → Bytes → ℤ × BlkParser
unfolding append_from parse_character
append p buf = append_from 1 p buf
