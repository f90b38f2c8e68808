-- ===== src/Blk/Parser/RoundTrip.antt =====
-- BlkParser reads back what BlkMessage::toRawString writes.
use pixiecpp.Base.{
  lengths, ℕ, suc, ◌+◌, ◌<◌, ◌^◌, ◌≡◌, ◌⊎◌, inl, inr, refl, ◌∙◌, ap, subst, true, false, [], ◌∷◌,
  ◌++◌, append_assoc, arith, ℤ, pos, FitsInt, Bytes, codes, length,
}
use pixiecpp.Decimal.{to_string}
use pixiecpp.Decimal.RoundTrip.{stoi-to_string, to_string-ne_newline}
use pixiecpp.Blk.Message.{BlkMessage, to_raw_string}
use pixiecpp.Blk.Parser.{
  BlkParser, new_parser, finished_parsing, parse_character, append_from, append,
}
use pixiecpp.Blk.Parser.Lines.{start_line, port_line, length_line, at_verb, at_length, at_body}

-- What a message needs to be read back: the fixed words, numbers that fit an `int`, and a body that
-- is not empty and whose length is the one announced.
pub record IsWellFormed (m : BlkMessage) : Type 0 where
  pub start : m.first_line ≡ codes "START"
  pub port_fits : FitsInt m.destination_port
  pub verb : (m.request_verb ≡ codes "NORMAL") ⊎ (m.request_verb ≡ codes "TUNNEL")
  pub announced : m.message_length ≡ pos (length m.body)
  pub some_body : 0 < length m.body
  pub body_fits : length m.body < 2 ^ 31

module _ (old : BlkMessage) (junk : ℤ) (port : Bytes) (v : ℤ) where
  same_place :
      (verb rest : Bytes) {k k' : ℕ} {buf buf' : Bytes}
      → k ≡ k'
      → buf ≡ buf'
      → append_from k (at_length old junk port v verb buf) rest
        ≡ append_from k' (at_length old junk port v verb buf') rest
  same_place verb rest e e' = λ i. append_from (e i) (at_length old junk port v verb (e' i)) rest

  pub verb_line :
      (verb buf rest : Bytes) (k : ℕ)
      → (verb ≡ codes "NORMAL") ⊎ (verb ≡ codes "TUNNEL")
      → append_from k (at_verb old junk port v buf) (verb ++ (10 ∷ rest))
        ≡ append_from
            (k + length verb + 1)
            (at_length old junk port v verb ((buf ++ verb) ++ (10 ∷ [])))
            rest
  unfolding append_from parse_character
  verb_line verb buf rest k (inl e) =
      rw e (same_place (codes "NORMAL") rest (omega arith) (simp append_assoc))
  verb_line verb buf rest k (inr e) =
      rw e (same_place (codes "TUNNEL") rest (omega arith) (simp append_assoc))

  module _ (verb size : Bytes) (n : ℕ) where
    abbrev pub in_body : Bytes → Bytes → BlkParser
    in_body = at_body old junk port v verb size n

    body_char_open :
        (buf body : Bytes) (c : ℕ)
        → length body + 1 < n
        → parse_character (in_body buf body) c ≡ in_body (buf ++ (c ∷ [])) (body ++ (c ∷ []))
    unfolding parse_character
    body_char_open buf body c h = grind lengths

    body_char_last :
        (buf body : Bytes) (c : ℕ)
        → length body + 1 ≡ n
        → parse_character (in_body buf body) c
          ≡ finished_parsing (in_body (buf ++ (c ∷ [])) (body ++ (c ∷ [])))
    unfolding parse_character
    body_char_last buf body c h = grind lengths

    -- The body: every byte but the last leaves the parser open, and the last completes the message.
    body_line :
        (s rest buf body : Bytes) (c k : ℕ)
        → length body + suc (length s) ≡ n
        → append_from k (in_body buf body) ((c ∷ s) ++ rest)
          ≡ (pos (k + length s), finished_parsing (in_body (buf ++ (c ∷ s)) (body ++ (c ∷ s))))
    unfolding append_from
    body_line [] rest buf body c k h =
        let step = body_char_last buf body c (omega arith) in
        rw step (
          ap (λ m. (pos m, finished_parsing (in_body (buf ++ (c ∷ [])) (body ++ (c ∷ [])))))
            (omega arith))
    body_line (d ∷ s) rest buf body c k h =
        let step = body_char_open buf body c (omega arith) in
        rw step (
          body_line s rest (buf ++ (c ∷ [])) (body ++ (c ∷ [])) d (k + 1) (grind lengths)
          ∙ ground (arith, append_assoc buf (c ∷ []) (d ∷ s), append_assoc body (c ∷ []) (d ∷ s)))

-- The message with a body of `c` and then `s`.
abbrev message : ℤ → Bytes → ℕ → Bytes → BlkMessage
message v verb c s = record {
  first_line = codes "START";
  destination_port = v;
  request_verb = verb;
  message_length = pos (suc (length s));
  body = c ∷ s;
}

-- The bytes of the four lines before the body.
abbrev pub header : Bytes → Bytes → Bytes → Bytes
header port verb size =
    (((((codes "START" ++ (10 ∷ [])) ++ port) ++ (10 ∷ [])) ++ verb ++ (10 ∷ [])) ++ size)
    ++ (10 ∷ [])

raw-message :
    (v : ℤ) (verb : Bytes) (c : ℕ) (s rest : Bytes)
    → to_raw_string (message v verb c s) ++ rest
      ≡ codes "START"
        ++ (10
            ∷ (to_string v
                ++ (10
                    ∷ (verb
                        ++ (10 ∷ (to_string (pos (suc (length s))) ++ (10 ∷ ((c ∷ s) ++ rest))))))))
unfolding to_raw_string
raw-message v verb c s rest = simp append_assoc

length-raw :
    (v : ℤ) (verb : Bytes) (c : ℕ) (s : Bytes)
    → length (to_raw_string (message v verb c s))
      ≡ 10
        + length (to_string v)
        + length verb
        + length (to_string (pos (suc (length s))))
        + length s
unfolding to_raw_string
length-raw v verb c s = grind lengths

module _ (old : BlkMessage) (junk v : ℤ) (verb : Bytes) (c : ℕ) (s rest : Bytes) where
  abbrev size : Bytes
  size = to_string (pos (suc (length s)))

  -- The parser where it stops, with the message in it.
  abbrev stopped : BlkParser
  stopped = finished_parsing (
      in_body old junk (to_string v) v verb size (suc (length s))
        (header (to_string v) verb size ++ (c ∷ s)) (c ∷ s))

  parse_message :
      FitsInt v
      → (verb ≡ codes "NORMAL") ⊎ (verb ≡ codes "TUNNEL")
      → suc (length s) < 2 ^ 31
      → append (new_parser old junk) (to_raw_string (message v verb c s) ++ rest)
        ≡ (pos (length (to_raw_string (message v verb c s))), stopped)
  parse_message fits word small =
      let port_text = to_string v in
      let n = suc (length s) in
      rw (raw-message v verb c s rest) (
        start_line old junk _
        ∙ (port_line old junk port_text v _ _ 7 (stoi-to_string v fits) (to_string-ne_newline v)
            ∙ (verb_line old junk port_text v verb _ _ _ word
                ∙ (length_line old junk port_text v verb size n _ _ _ (stoi-to_string (pos n) small)
                      (to_string-ne_newline (pos n))
                    ∙ (body_line old junk port_text v verb size n s rest _ [] c _ (omega arith)
                        ∙ ap (λ k. (pos k, stopped)) (omega (arith, length-raw v verb c s)))))))

-- What a client sees of a call of `append`: the count, the flags and the message.
abbrev pub Parses : ℤ × BlkParser → ℕ → BlkMessage → Type 0
Parses r k m =
    (r.0 ≡ pos k) × (r.1.message_complete ≡ true) × (r.1.parse_error ≡ false) × (r.1.msg ≡ m)

module _ (old : BlkMessage) (junk : ℤ) (rest : Bytes) where
  parse_message-Parses :
      (v : ℤ) (verb : Bytes) (c : ℕ) (s : Bytes)
      → FitsInt v
      → (verb ≡ codes "NORMAL") ⊎ (verb ≡ codes "TUNNEL")
      → suc (length s) < 2 ^ 31
      → let m = message v verb c s in
        Parses (append (new_parser old junk) (to_raw_string m ++ rest)) (length (to_raw_string m)) m
  parse_message-Parses v verb c s fits word small =
      rw (parse_message old junk v verb c s rest fits word small) (refl, refl, refl, refl)

  split_body :
      (m : BlkMessage) (b : Bytes)
      → m.body ≡ b
      → IsWellFormed m
      → Parses (append (new_parser old junk) (to_raw_string m ++ rest)) (length (to_raw_string m)) m
  split_body m [] e w = absurd (omega (arith, ap length e, w.some_body))
  split_body m (c ∷ s) e w =
      let literal : message m.destination_port m.request_verb c s ≡ m =
        ground (arith, w.start, w.announced, e) in
      let size_eq : length m.body ≡ suc (length s) = ap length e in
      subst
        (λ k.
          Parses (append (new_parser old junk) (to_raw_string k ++ rest)) (length (to_raw_string k))
            k)
        literal
        (parse_message-Parses m.destination_port m.request_verb c s w.port_fits w.verb
          (omega (arith, size_eq, w.body_fits)))

  -- BlkParser::append reads back every well-formed message that BlkMessage::toRawString wrote,
  -- whatever follows it: it stops at the message's last byte without an error, and returns the
  -- number of the message's bytes.
  pub append-to_raw_string :
      (m : BlkMessage)
      → IsWellFormed m
      → Parses (append (new_parser old junk) (to_raw_string m ++ rest)) (length (to_raw_string m)) m
  append-to_raw_string m w = split_body m m.body refl w
