-- ===== src/Http/Parser/Headers.antt =====
-- A message whose headers http_parser delivers in pieces.
use pixiecpp.Base.{
  ℕ, ◌≡◌, ◌⊎◌, inl, inr, refl, ap, ◌∙◌, true, Option, some, and_then, List, ◌∷◌, ℤ, All,
}
use pixiecpp.SimpleBuffer.{contents}
use pixiecpp.SimpleBuffer.Append.{Allocates}
use pixiecpp.Http.Message.{HttpMessage}
use pixiecpp.Http.Context.{Memory, ParserContext, start_line, state_nothing, state_value}
use pixiecpp.Http.Parser.{
  HttpParser, Event, on_headers_complete, callbacks, callback, headers_complete_cb, log_call,
  LastMessage,
}
use pixiecpp.Http.Context.Assembly.{IsIdle, SameBuffers, put}
use pixiecpp.Http.Parser.Delivery.{
  every_header, Header, FitsBuffers, header_events, stored, IsReady, at_context,
}

-- The parser after headers_complete_cb: `m` is its current message, and the user's callback has seen it.
abbrev pub completed : HttpParser → HttpMessage → HttpParser
completed p m = record p {
  context = record p.context { message = m };
  headers_complete_flag = true;
  last_message = LastMessage.current;
  headers_calls = log_call p.has_headers_lambda m p.headers_calls;
}

-- A context in which a header may begin once its name is reset.
abbrev pub IsBetween : ParserContext → Type 0
IsBetween c = (c.header_state ≡ state_nothing) ⊎ (c.header_state ≡ state_value)

abbrev pub Completed : HttpParser → Option HttpParser → HttpMessage → Type 0
Completed p o m = (c : ParserContext) × (o ≡ some (completed (at_context p c) m)) × IsBetween c

module _ (code major minor : ℤ) (method : ℕ) where
  start_line-same :
      (c0 c : ParserContext) (m : HttpMessage)
      → SameBuffers c0 c
      → start_line c code major minor method m ≡ start_line c0 code major minor method m
  start_line-same c0 c m (u, s) = rw (u, s) refl

  complete :
      (c0 : ParserContext) (p : HttpParser) (m : HttpMessage)
      → IsReady c0 p.context m
      → Completed p
          (headers_complete_cb code major minor method p)
          (start_line c0 code major minor method m)
  unfolding headers_complete_cb
  complete c0 p m (inl (i, b, e)) =
      let same =
        ap (start_line p.context code major minor method) e ∙ start_line-same c0 p.context m b in
      let done : headers_complete_cb code major minor method p
          ≡ some (completed p (start_line p.context code major minor method p.context.message)) =
        rw i.name refl in
      (p.context, done ∙ ap (λ k. some (completed p k)) same, i.state)
  complete c0 p m (inr (n, v, old, i, e)) =
      let (nb, ne, _, nt) = i.name in
      let (vb, ve, _, vt) = i.value in
      let saved : put (contents nb) (contents vb) p.context.message ≡ m =
        rw (nt, vt) (ap (put n v) i.saved ∙ e) in
      let same =
        ap (start_line p.context code major minor method) saved
        ∙ start_line-same c0 p.context m i.bufs in
      let filled = put (contents nb) (contents vb) p.context.message in
      let done : headers_complete_cb code major minor method p
          ≡ some (completed p (start_line p.context code major minor method filled)) =
        rw (ne, ve) refl in
      (p.context, done ∙ ap (λ k. some (completed p k)) same, inr i.state)

-- However http_parser cuts the names and the values of a message's headers into pieces, where
-- malloc returns blocks of the size asked for, every name and every value is shorter than 2^31 bytes
-- (http_parser stops at HTTP_MAX_HEADER_SIZE), and no name is in the buffers at the start, no
-- callback leaves its buffers, and after headers_complete_cb the parser's current message has every
-- header under its whole name with its whole value, a later header over an earlier one of the same
-- name, and the start line; the user's callback, if there is one, has been called with it. The
-- parser goes on with the events behind.
pub headers_complete_cb-Completed :
    (mem : Memory) (p : HttpParser) (hs : List Header) (code major minor : ℤ) (method : ℕ)
    (es : List Event)
    → Allocates mem.malloc
    → All FitsBuffers hs
    → IsIdle p.context
    → (c : ParserContext) × (callbacks mem
          (header_events hs (on_headers_complete code major minor method ∷ es))
          p
        ≡ callbacks mem es (
            completed
              (at_context p c)
              (start_line p.context code major minor method (stored hs p.context.message))))
      × IsBetween c
unfolding callbacks callback
headers_complete_cb-Completed mem p hs code major minor method es alloc fit idle =
    let (c, e, ready) =
      every_header mem alloc p.context p hs p.context.message
        (on_headers_complete code major minor method ∷ es) fit (inl (idle, (refl, refl), refl)) in
    let (c', e', between) =
      complete code major minor method p.context (at_context p c) (stored hs p.context.message)
        ready in
    (c', e ∙ ap (λ o. and_then o (callbacks mem es)) e', between)
