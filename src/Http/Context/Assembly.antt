-- ===== src/Http/Context/Assembly.antt =====
-- Headers that http_parser delivers in pieces, put together by the callbacks.
use pixiecpp.Base.{
  ◌≡◌, ◌⊎◌, inl, inr, refl, ◌∙◌, ap, Option, none, some, ◌++◌, ◌+◌, lengths, length, arith, Bytes,
}
use pixiecpp.SimpleBuffer.{SimpleBuffer, buffer_size, sb_create, contents}
use pixiecpp.SimpleBuffer.Append.{IsValid, FitsBuffer, Allocates, sb_append-Appended}
use pixiecpp.Http.Message.{HttpMessage, assign}
use pixiecpp.Http.Context.{
  Memory, ParserContext, header_field_data_cb, header_value_data_cb, state_nothing, state_field,
  state_value, append_new, append_to,
}

-- A buffer that is there, stays in its block, and holds the text.
abbrev pub Holds : Option SimpleBuffer → Bytes → Type 0
Holds b t = (sb : SimpleBuffer) × (b ≡ some sb) × IsValid sb × (contents sb ≡ t)

pub append_new-Holds :
    (mem : Memory) (at : Bytes)
    → Allocates mem.malloc
    → FitsBuffer at
    → Holds (append_new mem at) at
unfolding sb_create
append_new-Holds mem at alloc fits =
    let (sb, e, a) =
      sb_append-Appended mem.malloc (sb_create (mem.malloc buffer_size)) at alloc
        (
          0,
          buffer_size,
          record {
            used = refl;
            size = refl;
            small = omega arith;
            room = omega (arith, alloc buffer_size);
            within = omega arith;
          },
        )
        (omega arith) in
    (sb, e, a.valid, a.text)

pub append_to-Holds :
    (mem : Memory) (b : Option SimpleBuffer) (t at : Bytes)
    → Allocates mem.malloc
    → FitsBuffer (t ++ at)
    → Holds b t
    → Holds (append_to mem b at) (t ++ at)
append_to-Holds mem b t at alloc fits (old, e, v, same) =
    let count : length (contents old) + length at ≡ length (t ++ at) = rw same (grind lengths) in
    let (sb, e', a) = sb_append-Appended mem.malloc old at alloc v (omega arith) in
    (sb, ap (λ x. append_to mem x at) e ∙ e', a.valid, a.text ∙ ap (λ x. x ++ at) same)

-- The message with one more header.
abbrev pub put : Bytes → Bytes → HttpMessage → HttpMessage
put n v m = record m { headers = assign n v m.headers }

-- The two buffers that the header callbacks leave alone.
abbrev pub SameBuffers : ParserContext → ParserContext → Type 0
SameBuffers c c' = (c'.url_buf ≡ c.url_buf) × (c'.status_buf ≡ c.status_buf)

-- Inside of a name, and inside of a value. `m` is the message with the headers that are saved, and `c0`
-- is the context before the first header.
pub record IsNaming (c0 c : ParserContext) (n : Bytes) (m : HttpMessage) : Type 0 where
  pub state : c.header_state ≡ state_field
  pub name : Holds c.name n
  pub saved : c.message ≡ m
  pub bufs : SameBuffers c0 c

pub record IsValuing (c0 c : ParserContext) (n v : Bytes) (m : HttpMessage) : Type 0 where
  pub state : c.header_state ≡ state_value
  pub name : Holds c.name n
  pub value : Holds c.value v
  pub saved : c.message ≡ m
  pub bufs : SameBuffers c0 c

-- Before the first header of a message.
pub record IsIdle (c : ParserContext) : Type 0 where
  pub state : (c.header_state ≡ state_nothing) ⊎ (c.header_state ≡ state_value)
  pub name : c.name ≡ none

abbrev pub Next : Option ParserContext → (ParserContext → Type 0) → Type 0
Next o P = (c : ParserContext) × (o ≡ some c) × P c

module _ (mem : Memory) (alloc : Allocates mem.malloc) (c0 c : ParserContext) (at : Bytes) where
  pub name_after_idle :
      FitsBuffer at
      → IsIdle c
      → SameBuffers c0 c
      → Next (header_field_data_cb mem at c) (λ c'. IsNaming c0 c' at c.message)
  unfolding header_field_data_cb
  name_after_idle fits i b =
      let (sb, e, v, t) = append_new-Holds mem at alloc fits in
      (
        record c { name = some sb; value = none; header_state = state_field },
        elim i.state [ inl s ↦ rw (s, i.name, e) refl | inr s ↦ rw (s, i.name, e) refl ],
        record { state = refl; name = (sb, refl, v, t); saved = refl; bufs = b },
      )

  pub name_after_value :
      (n v : Bytes) (m : HttpMessage)
      → FitsBuffer at
      → IsValuing c0 c n v m
      → Next (header_field_data_cb mem at c) (λ c'. IsNaming c0 c' at (put n v m))
  unfolding header_field_data_cb
  name_after_value n v m fits i =
      let (sb, e, ok, t) = append_new-Holds mem at alloc fits in
      let (nb, ne, _, nt) = i.name in
      let (vb, ve, _, vt) = i.value in
      (
        record c {
          message = put (contents nb) (contents vb) c.message;
          name = some sb;
          value = none;
          header_state = state_field;
        },
        rw (i.state, ne, ve, e) refl,
        record {
          state = refl;
          name = (sb, refl, ok, t);
          saved = rw (nt, vt) (ap (put n v) i.saved);
          bufs = i.bufs;
        },
      )

  pub name_goes_on :
      (n : Bytes) (m : HttpMessage)
      → FitsBuffer (n ++ at)
      → IsNaming c0 c n m
      → Next (header_field_data_cb mem at c) (λ c'. IsNaming c0 c' (n ++ at) m)
  unfolding header_field_data_cb
  name_goes_on n m fits i =
      let (sb, e, ok, t) = append_to-Holds mem c.name n at alloc fits i.name in
      (
        record c { name = some sb; header_state = state_field },
        rw (i.state, e) refl,
        record { state = refl; name = (sb, refl, ok, t); saved = i.saved; bufs = i.bufs },
      )

  pub value_begins :
      (n : Bytes) (m : HttpMessage)
      → FitsBuffer at
      → IsNaming c0 c n m
      → Next (header_value_data_cb mem at c) (λ c'. IsValuing c0 c' n at m)
  unfolding header_value_data_cb
  value_begins n m fits i =
      let (sb, e, ok, t) = append_new-Holds mem at alloc fits in
      (
        record c { value = some sb; header_state = state_value },
        rw (i.state, e) refl,
        record {
          state = refl;
          name = i.name;
          value = (sb, refl, ok, t);
          saved = i.saved;
          bufs = i.bufs;
        },
      )

  pub value_goes_on :
      (n v : Bytes) (m : HttpMessage)
      → FitsBuffer (v ++ at)
      → IsValuing c0 c n v m
      → Next (header_value_data_cb mem at c) (λ c'. IsValuing c0 c' n (v ++ at) m)
  unfolding header_value_data_cb
  value_goes_on n v m fits i =
      let (sb, e, ok, t) = append_to-Holds mem c.value v at alloc fits i.value in
      (
        record c { value = some sb; header_state = state_value },
        rw (i.state, e) refl,
        record {
          state = refl;
          name = i.name;
          value = (sb, refl, ok, t);
          saved = i.saved;
          bufs = i.bufs;
        },
      )
