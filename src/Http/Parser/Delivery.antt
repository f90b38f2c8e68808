-- ===== src/Http/Parser/Delivery.antt =====
-- The headers of a message as http_parser delivers them, and what the callbacks make of them.
use pixiecpp.Base.{
  ◌≡◌, ◌⊎◌, inl, inr, refl, sym, ◌∙◌, some, List, [], ◌∷◌, ◌++◌, append_assoc, append-nil, Bytes,
  All, lengths,
}
use pixiecpp.SimpleBuffer.Append.{Allocates, FitsBuffer}
use pixiecpp.Http.Message.{HttpMessage}
use pixiecpp.Http.Context.{Memory, ParserContext, header_field_data_cb, header_value_data_cb}
use pixiecpp.Http.Parser.{HttpParser, Event, on_header_field, on_header_value, callbacks, callback}
use pixiecpp.Http.Context.Assembly.{
  IsNaming, IsValuing, IsIdle, SameBuffers, Next, put, name_after_idle, name_after_value,
  name_goes_on, value_begins, value_goes_on,
}

-- One header as it is delivered: a name and a value in one piece or more each.
pub record Header : Type 0 where
  pub name : Bytes
  pub more_name : List Bytes
  pub value : Bytes
  pub more_value : List Bytes

abbrev pub joined : List Bytes → Bytes
joined [] = []
joined (x ∷ xs) = x ++ joined xs

-- The name and the value of a header fit their buffers.
abbrev pub FitsBuffers : Header → Type 0
FitsBuffers h =
    FitsBuffer (h.name ++ joined h.more_name) × FitsBuffer (h.value ++ joined h.more_value)

-- A part of a text that fits.
pub fits_first : (n x xs : Bytes) → FitsBuffer (n ++ (x ++ xs)) → FitsBuffer (n ++ x)
fits_first n x xs h = grind (lengths, h)

pub fits_start : (x xs : Bytes) → FitsBuffer (x ++ xs) → FitsBuffer x
fits_start x xs h = grind (lengths, h)

pub fits_rest : (n x xs : Bytes) → FitsBuffer (n ++ (x ++ xs)) → FitsBuffer ((n ++ x) ++ xs)
fits_rest n x xs h = rw (append_assoc n x xs) h

abbrev pub name_events : List Bytes → List Event → List Event
name_events [] es = es
name_events (x ∷ xs) es = on_header_field x ∷ name_events xs es

abbrev pub value_events : List Bytes → List Event → List Event
value_events [] es = es
value_events (x ∷ xs) es = on_header_value x ∷ value_events xs es

abbrev pub header_events : List Header → List Event → List Event
header_events [] es = es
header_events (h ∷ hs) es =
    on_header_field h.name
    ∷ name_events h.more_name
        (on_header_value h.value ∷ value_events h.more_value (header_events hs es))

-- The message with the headers, each under its whole name with its whole value, one after the other.
abbrev pub stored : List Header → HttpMessage → HttpMessage
stored [] m = m
stored (h ∷ hs) m =
    stored hs (put (h.name ++ joined h.more_name) (h.value ++ joined h.more_value) m)

-- Where a name may begin; `m` is the message with the header that is still in the buffers.
abbrev pub IsReady : ParserContext → ParserContext → HttpMessage → Type 0
IsReady c0 c m =
    (IsIdle c × SameBuffers c0 c × (c.message ≡ m))
    ⊎ ((n : Bytes) × (v : Bytes) × (old : HttpMessage) × IsValuing c0 c n v old × (put n v old ≡ m))

abbrev pub at_context : HttpParser → ParserContext → HttpParser
at_context p c = record p { context = c }

-- The callbacks for the first events lead to a context that satisfies `P`, and `es` are left.
abbrev pub Leads : Memory → HttpParser → List Event → List Event → (ParserContext → Type 0) → Type 0
Leads mem p first es P =
    (c : ParserContext) × (callbacks mem first p ≡ callbacks mem es (at_context p c)) × P c

module _ (mem : Memory) (alloc : Allocates mem.malloc) where
  on_field :
      (p : HttpParser) (at : Bytes) (c : ParserContext) (es : List Event)
      → header_field_data_cb mem at p.context ≡ some c
      → callbacks mem (on_header_field at ∷ es) p ≡ callbacks mem es (at_context p c)
  unfolding callbacks callback
  on_field p at c es e = rw e refl

  on_value :
      (p : HttpParser) (at : Bytes) (c : ParserContext) (es : List Event)
      → header_value_data_cb mem at p.context ≡ some c
      → callbacks mem (on_header_value at ∷ es) p ≡ callbacks mem es (at_context p c)
  unfolding callbacks callback
  on_value p at c es e = rw e refl

  module _ (c0 : ParserContext) where
    rest_of_name :
        (p : HttpParser) (ats : List Bytes) (n : Bytes) (m : HttpMessage) (es : List Event)
        → FitsBuffer (n ++ joined ats)
        → IsNaming c0 p.context n m
        → Leads mem p (name_events ats es) es (λ c. IsNaming c0 c (n ++ joined ats) m)
    rest_of_name p [] n m es fits i = (p.context, refl, rw (append-nil n) i)
    rest_of_name p (x ∷ xs) n m es fits i =
        let (c, e, i') =
          name_goes_on mem alloc c0 p.context x n m (fits_first n x (joined xs) fits) i in
        let (c', e', i'') =
          rest_of_name (at_context p c) xs (n ++ x) m es (fits_rest n x (joined xs) fits) i' in
        (c', on_field p x c (name_events xs es) e ∙ e', rw (sym (append_assoc n x (joined xs))) i'')

    rest_of_value :
        (p : HttpParser) (ats : List Bytes) (n v : Bytes) (m : HttpMessage) (es : List Event)
        → FitsBuffer (v ++ joined ats)
        → IsValuing c0 p.context n v m
        → Leads mem p (value_events ats es) es (λ c. IsValuing c0 c n (v ++ joined ats) m)
    rest_of_value p [] n v m es fits i = (p.context, refl, rw (append-nil v) i)
    rest_of_value p (x ∷ xs) n v m es fits i =
        let (c, e, i') =
          value_goes_on mem alloc c0 p.context x n v m (fits_first v x (joined xs) fits) i in
        let (c', e', i'') =
          rest_of_value (at_context p c) xs n (v ++ x) m es (fits_rest v x (joined xs) fits) i' in
        (
          c',
          on_value p x c (value_events xs es) e ∙ e',
          rw (sym (append_assoc v x (joined xs))) i'',
        )

    name_begins :
        (c : ParserContext) (at : Bytes) (m : HttpMessage)
        → FitsBuffer at
        → IsReady c0 c m
        → Next (header_field_data_cb mem at c) (λ c'. IsNaming c0 c' at m)
    name_begins c at m fits (inl (i, b, e)) =
        let (c', e', i') = name_after_idle mem alloc c0 c at fits i b in (c', e', rw (sym e) i')
    name_begins c at m fits (inr (n, v, old, i, e)) =
        let (c', e', i') = name_after_value mem alloc c0 c at n v old fits i in
        (c', e', rw (sym e) i')

    pub every_header :
        (p : HttpParser) (hs : List Header) (m : HttpMessage) (es : List Event)
        → All FitsBuffers hs
        → IsReady c0 p.context m
        → Leads mem p (header_events hs es) es (λ c. IsReady c0 c (stored hs m))
    every_header p [] m es fit i = (p.context, refl, i)
    every_header p (h ∷ hs) m es ((fits_name, fits_value), fit) i =
        let after = value_events h.more_value (header_events hs es) in
        let name = h.name ++ joined h.more_name in
        let (c1, e1, i1) =
          name_begins p.context h.name m (fits_start h.name (joined h.more_name) fits_name) i in
        let (c2, e2, i2) =
          rest_of_name (at_context p c1) h.more_name h.name m (on_header_value h.value ∷ after)
            fits_name i1 in
        let (c3, e3, i3) =
          value_begins mem alloc c0 c2 h.value name m
            (fits_start h.value (joined h.more_value) fits_value) i2 in
        let (c4, e4, i4) =
          rest_of_value (at_context p c3) h.more_value name h.value m (header_events hs es)
            fits_value i3 in
        let (c5, e5, i5) = every_header (at_context p c4) hs _ es fit (inr (_, _, m, i4, refl)) in
        (
          c5,
          on_field p h.name c1 _ e1
              ∙ (e2 ∙ (on_value (at_context p c2) h.value c3 after e3 ∙ (e4 ∙ e5))),
          i5,
        )
