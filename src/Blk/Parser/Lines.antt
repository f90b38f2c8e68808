-- ===== src/Blk/Parser/Lines.antt =====
-- How BlkParser::append goes through the lines of a well-formed message, one lemma for each line.
use pixiecpp.Base.{
  ℕ, ◌+◌, ◌≡◌, ◌≢◌, ◌⊎◌, inl, inr, refl, ◌∙◌, ap, false, some, [], ◌∷◌, ◌++◌, append_assoc,
  append-nil, arith, ℤ, pos, Bytes, codes, All, length,
}
use pixiecpp.Decimal.{stoi}
use pixiecpp.Blk.Message.{BlkMessage}
use pixiecpp.Blk.Parser.{
  BlkParser, new_parser, parse_character, append_from, append, set_port, set_length,
}

-- Neither an error nor a complete message.
pub record IsOpen (p : BlkParser) : Type 0 where
  pub no_error : p.parse_error ≡ false
  pub not_complete : p.message_complete ≡ false

-- A byte after which the parser is still open leads on to the next byte.
pub append_from-open :
    (k : ℕ) (p : BlkParser) (c : ℕ) (cs : Bytes)
    → IsOpen (parse_character p c)
    → append_from k p (c ∷ cs) ≡ append_from (k + 1) (parse_character p c) cs
unfolding append_from
append_from-open k p c cs h = ground arith

abbrev pub extend_line : Bytes → BlkParser → BlkParser
extend_line s p = record p {
  current_line = p.current_line ++ s;
  current_buffer = p.current_buffer ++ s;
}

extend_line-nil : (p : BlkParser) → extend_line [] p ≡ p
extend_line-nil p = ground (arith, append-nil p.current_line, append-nil p.current_buffer)

extend_line-cons :
    (c : ℕ) (s : Bytes) (p : BlkParser)
    → extend_line s (extend_line (c ∷ []) p) ≡ extend_line (c ∷ s) p
extend_line-cons c s p =
    ground (arith, append_assoc p.current_line (c ∷ []) s, append_assoc p.current_buffer (c ∷ []) s)

extend_line-IsOpen : (s : Bytes) {p : BlkParser} → IsOpen p → IsOpen (extend_line s p)
extend_line-IsOpen s h = record { no_error = h.no_error; not_complete = h.not_complete }

-- The two lines that hold a number take any text up to the newline.
abbrev pub IsNumberLine : BlkParser → Type 0
IsNumberLine p = (p.line_count ≡ 1) ⊎ (p.line_count ≡ 3)

number_line_char :
    (p : BlkParser) (c : ℕ) → IsNumberLine p → c ≢ 10 → parse_character p c ≡ extend_line (c ∷ []) p
unfolding parse_character
number_line_char p c h ne = ground arith

pub number_line :
    (s rest : Bytes) (k : ℕ) (p : BlkParser)
    → IsNumberLine p
    → IsOpen p
    → All (λ c. c ≢ 10) s
    → append_from k p (s ++ rest) ≡ append_from (k + length s) (extend_line s p) rest
number_line [] rest k p line open_p h = ground (arith, extend_line-nil p)
number_line (c ∷ s) rest k p line open_p (hc, hs) =
    let step = number_line_char p c line hc in
    let still_open = extend_line-IsOpen (c ∷ []) open_p in
    append_from-open k p c (s ++ rest) (rw step still_open)
    ∙ (rw step (
        number_line s rest (k + 1) (extend_line (c ∷ []) p) line still_open hs
        ∙ rw (extend_line-cons c s p)
            (ap (λ n. append_from n (extend_line (c ∷ s) p) rest) (omega arith))))

-- The parser at the start of each line, behind the bytes `buf`.
module _ (old : BlkMessage) (junk : ℤ) where
  abbrev pub at_port : Bytes → BlkParser
  at_port buf = record (new_parser old junk) {
    line_count = 1;
    lines = codes "START" ∷ [];
    current_buffer = buf;
  }

  pub start_line :
      (rest : Bytes)
      → append (new_parser old junk) (codes "START" ++ (10 ∷ rest))
        ≡ append_from 7 (at_port (codes "START" ++ (10 ∷ []))) rest
  unfolding append
  start_line rest = refl

  module _ (port : Bytes) (v : ℤ) where
    abbrev pub at_verb : Bytes → BlkParser
    at_verb buf = record (new_parser old junk) {
      line_count = 2;
      destination_port = v;
      lines = codes "START" ∷ port ∷ [];
      current_buffer = buf;
    }

    port_end :
        (buf : Bytes)
        → stoi port ≡ some v
        → parse_character (extend_line port (at_port buf)) 10 ≡ at_verb ((buf ++ port) ++ (10 ∷ []))
    unfolding parse_character set_port
    port_end buf h = rw h refl

    pub port_line :
        (buf rest : Bytes) (k : ℕ)
        → stoi port ≡ some v
        → All (λ c. c ≢ 10) port
        → append_from k (at_port buf) (port ++ (10 ∷ rest))
          ≡ append_from (k + length port + 1) (at_verb ((buf ++ port) ++ (10 ∷ []))) rest
    port_line buf rest k h clean =
        number_line port (10 ∷ rest) k (at_port buf) (inl refl)
          (record { no_error = refl; not_complete = refl }) clean
        ∙ (append_from-open (k + length port) (extend_line port (at_port buf)) 10 rest
              (rw (port_end buf h) (record { no_error = refl; not_complete = refl }))
            ∙ rw (port_end buf h))

    module _ (verb : Bytes) where
      abbrev pub at_length : Bytes → BlkParser
      at_length buf = record (new_parser old junk) {
        line_count = 3;
        destination_port = v;
        action_verb = verb;
        lines = codes "START" ∷ port ∷ verb ∷ [];
        current_buffer = buf;
      }

      module _ (size : Bytes) (n : ℕ) where
        abbrev pub at_body : Bytes → Bytes → BlkParser
        at_body buf body = record (new_parser old junk) {
          line_count = 4;
          msg_length = pos n;
          destination_port = v;
          action_verb = verb;
          lines = codes "START" ∷ port ∷ verb ∷ size ∷ [];
          current_buffer = buf;
          body = body;
        }

        length_end :
            (buf : Bytes)
            → stoi size ≡ some (pos n)
            → parse_character (extend_line size (at_length buf)) 10
              ≡ at_body ((buf ++ size) ++ (10 ∷ [])) []
        unfolding parse_character set_length
        length_end buf h = rw h refl

        pub length_line :
            (buf rest : Bytes) (k : ℕ)
            → stoi size ≡ some (pos n)
            → All (λ c. c ≢ 10) size
            → append_from k (at_length buf) (size ++ (10 ∷ rest))
              ≡ append_from (k + length size + 1) (at_body ((buf ++ size) ++ (10 ∷ [])) []) rest
        length_line buf rest k h clean =
            number_line size (10 ∷ rest) k (at_length buf) (inr refl)
              (record { no_error = refl; not_complete = refl }) clean
            ∙ (append_from-open (k + length size) (extend_line size (at_length buf)) 10 rest
                  (rw (length_end buf h) (record { no_error = refl; not_complete = refl }))
                ∙ rw (length_end buf h))
