-- ===== src/Blk/Parser/Rejects.antt =====
-- Messages with no body: BlkMessage::toRawString writes them, and BlkParser never completes them.
use pixiecpp.Base.{
  ℕ, ◌+◌, ◌≡◌, ◌⊎◌, refl, ◌∙◌, subst, true, false, [], ◌∷◌, ◌++◌, append_assoc, append-nil, arith,
  ℤ, pos, negsuc, FitsInt, Bytes, codes, length,
}
use pixiecpp.Decimal.{to_string}
use pixiecpp.Decimal.RoundTrip.{stoi-to_string, to_string-ne_newline}
use pixiecpp.Blk.Message.{BlkMessage, to_raw_string}
use pixiecpp.Blk.Parser.{BlkParser, new_parser, parse_character, append_from, append}
use pixiecpp.Blk.Parser.Lines.{start_line, port_line, length_line}
use pixiecpp.Blk.Parser.RoundTrip.{verb_line, in_body, header}

pub record IsBodiless (m : BlkMessage) : Type 0 where
  pub start : m.first_line ≡ codes "START"
  pub port_fits : FitsInt m.destination_port
  pub verb : (m.request_verb ≡ codes "NORMAL") ⊎ (m.request_verb ≡ codes "TUNNEL")
  pub announced : m.message_length ≡ pos 0
  pub no_body : m.body ≡ []

abbrev bodiless : ℤ → Bytes → BlkMessage
bodiless v verb = record {
  first_line = codes "START";
  destination_port = v;
  request_verb = verb;
  message_length = pos 0;
  body = [];
}

raw-bodiless :
    (v : ℤ) (verb rest : Bytes)
    → to_raw_string (bodiless v verb) ++ rest
      ≡ codes "START"
        ++ (10 ∷ (to_string v ++ (10 ∷ (verb ++ (10 ∷ (to_string (pos 0) ++ (10 ∷ rest)))))))
unfolding to_raw_string
raw-bodiless v verb rest = simp append_assoc

module _ (old : BlkMessage) (junk v : ℤ) (verb : Bytes) where
  abbrev waiting : BlkParser
  waiting =
      in_body old junk (to_string v) v verb (to_string (pos 0)) 0
        (header (to_string v) verb (to_string (pos 0))) []

  header_lines :
      FitsInt v
      → (verb ≡ codes "NORMAL") ⊎ (verb ≡ codes "TUNNEL")
      → (rest : Bytes)
      → (k : ℕ) × (append (new_parser old junk) (to_raw_string (bodiless v verb) ++ rest)
          ≡ append_from k waiting rest)
  header_lines fits word rest = (
    7 + length (to_string v) + 1 + length verb + 1 + length (to_string (pos 0)) + 1,
    rw (raw-bodiless v verb rest) (
        start_line old junk _
        ∙ (port_line old junk (to_string v) v _ _ 7 (stoi-to_string v fits) (to_string-ne_newline v)
            ∙ (verb_line old junk (to_string v) v verb _ _ _ word
                ∙ length_line old junk (to_string v) v verb (to_string (pos 0)) 0 _ _ _
                    (stoi-to_string (pos 0) (omega arith)) (to_string-ne_newline (pos 0))))),
  )

  -- The first byte of a body of length 0 is one too many.
  too_long :
      (k c : ℕ) (rest : Bytes)
      → ((append_from k waiting (c ∷ rest)).1.parse_error ≡ true)
        × ((append_from k waiting (c ∷ rest)).1.message_complete ≡ false)
  unfolding append_from parse_character
  too_long k c rest = (refl, refl)

  bodiless_fails :
      FitsInt v
      → (verb ≡ codes "NORMAL") ⊎ (verb ≡ codes "TUNNEL")
      → (c : ℕ) (rest : Bytes)
      → let r = append (new_parser old junk) (to_raw_string (bodiless v verb) ++ []) in
        let r' = append (new_parser old junk) (to_raw_string (bodiless v verb) ++ (c ∷ rest)) in
        ((r.0 ≡ negsuc 0) × (r.1.message_complete ≡ false))
        × ((r'.1.parse_error ≡ true) × (r'.1.message_complete ≡ false))
  unfolding append_from
  bodiless_fails fits word c rest =
      let (k, e) = header_lines fits word [] in
      let (k', e') = header_lines fits word (c ∷ rest) in
      (rw e (refl, refl), rw e' (too_long k' c rest))

-- A message with an empty body that BlkMessage::toRawString writes is not recognised: its last byte
-- leaves BlkParser::append waiting for more, and any next byte is an error.
pub append-IsBodiless :
    (m old : BlkMessage) (junk : ℤ) (c : ℕ) (rest : Bytes)
    → IsBodiless m
    → let r = append (new_parser old junk) (to_raw_string m) in
      let r' = append (new_parser old junk) (to_raw_string m ++ (c ∷ rest)) in
      ((r.0 ≡ negsuc 0) × (r.1.message_complete ≡ false))
      × ((r'.1.parse_error ≡ true) × (r'.1.message_complete ≡ false))
append-IsBodiless m old junk c rest b =
    let literal : bodiless m.destination_port m.request_verb ≡ m =
      ground (arith, b.start, b.announced, b.no_body) in
    subst
      (λ k.
        let r = append (new_parser old junk) (to_raw_string k) in
        let r' = append (new_parser old junk) (to_raw_string k ++ (c ∷ rest)) in
        ((r.0 ≡ negsuc 0) × (r.1.message_complete ≡ false))
        × ((r'.1.parse_error ≡ true) × (r'.1.message_complete ≡ false)))
      literal
      (rw append-nil at
        (bodiless_fails old junk m.destination_port m.request_verb b.port_fits b.verb c rest))
