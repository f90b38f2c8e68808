-- ===== src/Blk/Parser/Valid.antt =====
-- The invariant of BlkParser, and what a message that it completes looks like.
use pixiecpp.Base.{lengths, ℕ, ◌+◌, ◌≡◌, inl, inr, refl, true, false, [], ◌∷◌, arith, ℤ, Bytes}
use pixiecpp.Blk.Message.{BlkMessage}
use pixiecpp.Blk.Parser.{
  BlkParser, new_parser, parse_character, append_from, append, first_line_char, port_line_char,
  verb_line_char, length_line_char, body_char, set_port, set_length,
}
use pixiecpp.Blk.Parser.Lines.{IsOpen}
use pixiecpp.Blk.Parser.Keeps.{
  IsParsed, IsValid, new_parser-IsValid, logged, on_first_line, on_port_line, on_verb_line,
  on_length_line, on_body, line_cases, logged-IsOpen, parse_character-IsValid, append_from-IsValid,
}

-- A byte that completes the message is no error.
abbrev Clean : BlkParser → Type 0
Clean q = q.message_complete ≡ true → q.parse_error ≡ false

module _ (p : BlkParser) (c : ℕ) (o : IsOpen p) where
  first_line_char-Clean : Clean (first_line_char p c)
  unfolding first_line_char
  first_line_char-Clean full = ground arith

  port_line_char-Clean : Clean (port_line_char p c)
  unfolding port_line_char set_port
  port_line_char-Clean full = ground arith

  verb_line_char-Clean : Clean (verb_line_char p c)
  unfolding verb_line_char
  verb_line_char-Clean full = ground arith

  length_line_char-Clean : Clean (length_line_char p c)
  unfolding length_line_char set_length
  length_line_char-Clean full = ground arith

  body_char-Clean : Clean (body_char p c)
  unfolding body_char
  body_char-Clean full = grind lengths

parse_character-Clean : (p : BlkParser) (c : ℕ) → IsOpen p → IsValid p → Clean (parse_character p c)
parse_character-Clean p c o v =
    let o' = logged-IsOpen p c o in
    elim (line_cases p.line_count v.few) [
      | inl e ↦ rw (on_first_line p c e) (first_line_char-Clean (logged c p) c o')
      | inr (inl e) ↦ rw (on_port_line p c e) (port_line_char-Clean (logged c p) c o')
      | inr (inr (inl e)) ↦ rw (on_verb_line p c e) (verb_line_char-Clean (logged c p) c o')
      | inr (inr (inr (inl e))) ↦
          rw (on_length_line p c e) (length_line_char-Clean (logged c p) c o')
      | inr (inr (inr (inr e))) ↦ rw (on_body p c e) (body_char-Clean (logged c p) c o')
    ]

append_from-Clean :
    (k : ℕ) (p : BlkParser) (buf : Bytes) → IsOpen p → IsValid p → Clean (append_from k p buf).1
unfolding append_from
append_from-Clean k p [] o v full = o.no_error
append_from-Clean k p (c ∷ cs) o v full = ground (
  arith,
  parse_character-Clean p c o v,
  parse_character-IsValid p c o v,
  append_from-Clean (k + 1) (parse_character p c) cs,
)

-- A parser that waits for more bytes: it is open, and the invariant holds.
pub record IsReady (p : BlkParser) : Type 0 where
  pub is_open : IsOpen p
  pub valid : IsValid p

pub new_parser-IsReady : (m : BlkMessage) (junk : ℤ) → IsReady (new_parser m junk)
new_parser-IsReady m junk = record {
  is_open = record { no_error = refl; not_complete = refl };
  valid = new_parser-IsValid m junk;
}

-- Whatever bytes are appended to a parser that is ready: where BlkParser::append completes a message,
-- it reports no error, and the message begins with START, has one of the two verbs and a port that
-- fits an `int`, and its body is not empty and has the length that the message announces.
pub append-IsParsed :
    (p : BlkParser) (buf : Bytes)
    → IsReady p
    → (append p buf).1.message_complete ≡ true
    → ((append p buf).1.parse_error ≡ false) × IsParsed (append p buf).1.msg
unfolding append
append-IsParsed p buf r full =
    let ok = append_from-Clean 1 p buf r.is_open r.valid full in
    (ok, (append_from-IsValid 1 p buf r.is_open r.valid ok).done full)

-- A call that ends with the parser still open leaves it ready for the next.
pub append-IsReady :
    (p : BlkParser) (buf : Bytes)
    → IsReady p
    → (append p buf).1.parse_error ≡ false
    → (append p buf).1.message_complete ≡ false
    → IsReady (append p buf).1
unfolding append
append-IsReady p buf r ok more = record {
  is_open = record { no_error = ok; not_complete = more };
  valid = append_from-IsValid 1 p buf r.is_open r.valid ok;
}
