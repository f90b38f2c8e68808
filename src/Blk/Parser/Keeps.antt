-- ===== src/Blk/Parser/Keeps.antt =====
-- The invariant of BlkParser, which each byte keeps.
use pixiecpp.Base.{
  lengths, ℕ, ◌+◌, ◌≤◌, ◌<◌, ◌≡◌, ◌⊎◌, inl, inr, refl, true, false, Option, none, some, List, [],
  ◌∷◌, ◌++◌, arith, ℤ, FitsInt, Bytes, codes, bytes_eq_sound, length, get_or, to_size,
  get_or-append_left,
}
use pixiecpp.Decimal.{stoi}
use pixiecpp.Blk.Message.{BlkMessage}
use pixiecpp.Blk.Parser.{
  BlkParser, new_parser, parse_character, append_from, is_verb, first_line_char, port_line_char,
  verb_line_char, length_line_char, body_char, set_port, set_length,
}
use pixiecpp.Blk.Parser.Lines.{IsOpen}

-- What the parser guarantees of a message that it completes.
pub record IsParsed (m : BlkMessage) : Type 0 where
  pub start : m.first_line ≡ codes "START"
  pub port_fits : FitsInt m.destination_port
  pub verb : is_verb m.request_verb ≡ true
  pub announced : length m.body ≡ to_size m.message_length
  pub some_body : 0 < length m.body

-- The parser between two bytes, as long as no error was found.
pub record IsValid (p : BlkParser) : Type 0 where
  pub counted : length p.lines ≡ p.line_count
  pub few : p.line_count ≤ 4
  pub start : 1 ≤ p.line_count → get_or p.lines 0 [] ≡ codes "START"
  pub port_fits : FitsInt p.destination_port
  pub verb : 3 ≤ p.line_count → is_verb p.action_verb ≡ true
  pub room : p.message_complete ≡ false → p.line_count < 4 → p.body ≡ []
  pub done : p.message_complete ≡ true → IsParsed p.msg

abbrev FitsIfSome : Option ℤ → Type 0
FitsIfSome none = Unit {0}
FitsIfSome (some v) = FitsInt v

stoi-FitsIfSome : (s : Bytes) → FitsIfSome (stoi s)
unfolding stoi
stoi-FitsIfSome s = ground arith

pub new_parser-IsValid : (m : BlkMessage) (junk : ℤ) → IsValid (new_parser m junk)
new_parser-IsValid m junk = ground arith

nil_of_length : (xs : List Bytes) → length xs ≡ 0 → xs ≡ []
nil_of_length [] h = refl
nil_of_length (x ∷ xs) h = absurd (omega arith)

-- The parser is open and valid, and `q` comes after one more byte.
abbrev Keeps : BlkParser → Type 0
Keeps q = q.parse_error ≡ false → IsValid q

module _ (p : BlkParser) (c : ℕ) (o : IsOpen p) (v : IsValid p) where
  first_line_char-Keeps : p.line_count ≡ 0 → Keeps (first_line_char p c)
  unfolding first_line_char
  first_line_char-Keeps line ok =
      ground (arith, nil_of_length p.lines, bytes_eq_sound p.current_line (codes "START"))

  port_line_char-Keeps : p.line_count ≡ 1 → Keeps (port_line_char p c)
  unfolding port_line_char set_port
  port_line_char-Keeps line ok = grind (
    lengths,
    get_or-append_left p.lines (p.current_line ∷ []) 0 [],
    stoi-FitsIfSome p.current_line,
  )

  verb_line_char-Keeps : p.line_count ≡ 2 → Keeps (verb_line_char p c)
  unfolding verb_line_char
  verb_line_char-Keeps line ok =
      grind (lengths, get_or-append_left p.lines (p.current_line ∷ []) 0 [])

  length_line_char-Keeps : p.line_count ≡ 3 → Keeps (length_line_char p c)
  unfolding length_line_char set_length
  length_line_char-Keeps line ok =
      grind (lengths, get_or-append_left p.lines (p.current_line ∷ []) 0 [])

  body_char-Keeps : p.line_count ≡ 4 → Keeps (body_char p c)
  unfolding body_char
  body_char-Keeps line ok = grind lengths

-- parseCharacter records the byte, and goes by the number of the line.
abbrev pub logged : ℕ → BlkParser → BlkParser
logged c p = record p { current_buffer = p.current_buffer ++ (c ∷ []) }

abbrev ByLine : (BlkParser → ℕ → BlkParser) → ℕ → Type 0
ByLine handler n =
    (p : BlkParser) (c : ℕ) → p.line_count ≡ n → parse_character p c ≡ handler (logged c p) c

pub on_first_line : ByLine first_line_char 0
unfolding parse_character
on_first_line p c line = rw line

pub on_port_line : ByLine port_line_char 1
unfolding parse_character
on_port_line p c line = rw line

pub on_verb_line : ByLine verb_line_char 2
unfolding parse_character
on_verb_line p c line = rw line

pub on_length_line : ByLine length_line_char 3
unfolding parse_character
on_length_line p c line = rw line

pub on_body : ByLine body_char 4
unfolding parse_character
on_body p c line = rw line

pub line_cases : (n : ℕ) → n ≤ 4 → (n ≡ 0) ⊎ ((n ≡ 1) ⊎ ((n ≡ 2) ⊎ ((n ≡ 3) ⊎ (n ≡ 4))))
line_cases n h = omega arith

pub logged-IsOpen : (p : BlkParser) (c : ℕ) → IsOpen p → IsOpen (logged c p)
logged-IsOpen p c o = record { no_error = o.no_error; not_complete = o.not_complete }

logged-IsValid : (p : BlkParser) (c : ℕ) → IsValid p → IsValid (logged c p)
logged-IsValid p c v = record {
  counted = v.counted;
  few = v.few;
  start = v.start;
  port_fits = v.port_fits;
  verb = v.verb;
  room = v.room;
  done = v.done;
}

-- parseCharacter keeps the invariant, unless it finds an error.
pub parse_character-IsValid :
    (p : BlkParser) (c : ℕ) → IsOpen p → IsValid p → Keeps (parse_character p c)
parse_character-IsValid p c o v =
    let o' = logged-IsOpen p c o in
    let v' = logged-IsValid p c v in
    elim (line_cases p.line_count v.few) [
      | inl e ↦ rw (on_first_line p c e) (first_line_char-Keeps (logged c p) c o' v' e)
      | inr (inl e) ↦ rw (on_port_line p c e) (port_line_char-Keeps (logged c p) c o' v' e)
      | inr (inr (inl e)) ↦ rw (on_verb_line p c e) (verb_line_char-Keeps (logged c p) c o' v' e)
      | inr (inr (inr (inl e))) ↦
          rw (on_length_line p c e) (length_line_char-Keeps (logged c p) c o' v' e)
      | inr (inr (inr (inr e))) ↦ rw (on_body p c e) (body_char-Keeps (logged c p) c o' v' e)
    ]

pub append_from-IsValid :
    (k : ℕ) (p : BlkParser) (buf : Bytes) → IsOpen p → IsValid p → Keeps (append_from k p buf).1
unfolding append_from
append_from-IsValid k p [] o v ok = v
append_from-IsValid k p (c ∷ cs) o v ok =
    ground
      (arith, parse_character-IsValid p c o v, append_from-IsValid (k + 1) (parse_character p c) cs)
