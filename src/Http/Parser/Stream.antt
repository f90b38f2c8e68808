-- ===== src/Http/Parser/Stream.antt =====
-- Whole messages that http_parser delivers in pieces, one after the other.
use pixiecpp.Base.{
  ℕ, ◌≡◌, ◌⊎◌, inl, refl, sym, ap, ◌∙◌, true, none, some, List, [], ◌∷◌, ◌++◌, append_assoc,
  append-nil, ℤ, Bytes, All,
}
use pixiecpp.SimpleBuffer.Append.{Allocates, FitsBuffer}
use pixiecpp.Http.Message.{HttpMessage, new_http_message}
use pixiecpp.Http.Context.{Memory, ParserContext, start_line, text, state_nothing, state_value}
use pixiecpp.Http.Context.Assembly.{IsIdle}
use pixiecpp.Http.Parser.{
  HttpParser, Event, on_url, on_status, on_body, on_headers_complete, on_message_complete,
  callbacks, callback, message_complete_cb, set_up_next_message,
}
use pixiecpp.Http.Parser.Delivery.{Header, FitsBuffers, joined, header_events, stored, at_context}
use pixiecpp.Http.Parser.Headers.{completed, headers_complete_cb-Completed}
use pixiecpp.Http.Parser.Pieces.{
  each, text-MayHold, url_pieces, status_pieces, with_body, body_pieces, stored-body,
}

-- A message as it is delivered.
pub record Sent : Type 0 where
  pub url : List Bytes
  pub status : List Bytes
  pub headers : List Header
  pub status_code : ℤ
  pub http_major : ℤ
  pub http_minor : ℤ
  pub method : ℕ
  pub body : List Bytes

-- The URL, the status text, and the names and values of the headers fit their buffers.
pub record IsSmall (x : Sent) : Type 0 where
  pub url_fits : FitsBuffer (joined x.url)
  pub status_fits : FitsBuffer (joined x.status)
  pub headers_fit : All FitsBuffers x.headers

abbrev pub message_events : Sent → List Event → List Event
message_events x es = each on_url x.url (
    each on_status x.status (
      header_events x.headers (
        on_headers_complete x.status_code x.http_major x.http_minor x.method
        ∷ each on_body x.body (on_message_complete ∷ es))))

abbrev pub stream_events : List Sent → List Event
stream_events [] = []
stream_events (x ∷ xs) = message_events x (stream_events xs)

-- The message that the user is to see.
abbrev pub described : Memory → Sent → HttpMessage
described mem x = record (stored x.headers (new_http_message mem.unset)) {
  url = joined x.url;
  status = joined x.status;
  status_code = x.status_code;
  http_major = x.http_major;
  http_minor = x.http_minor;
  method = x.method;
  body = joined x.body;
}

abbrev pub all_described : Memory → List Sent → List HttpMessage
all_described mem [] = []
all_described mem (x ∷ xs) = described mem x ∷ all_described mem xs

-- A parser of a stream, between two messages.
pub record IsFresh (mem : Memory) (p : HttpParser) : Type 0 where
  pub streaming : p.stream_messages_option ≡ true
  pub listens : p.has_message_lambda ≡ true
  pub message : p.context.message ≡ new_http_message mem.unset
  pub url : p.context.url_buf ≡ none
  pub status : p.context.status_buf ≡ none
  pub idle : IsIdle p.context

-- message_complete_cb, in a stream with a user's callback, and the events behind.
message_complete :
    (mem : Memory) (p : HttpParser) (es : List Event)
    → p.stream_messages_option ≡ true
    → p.has_message_lambda ≡ true
    → (p.context.header_state ≡ state_nothing) ⊎ (p.context.header_state ≡ state_value)
    → (q : HttpParser) × (callbacks mem (on_message_complete ∷ es) p ≡ callbacks mem es q)
      × IsFresh mem q
      × (q.message_calls ≡ p.message_calls ++ (p.context.message ∷ []))
unfolding callbacks callback message_complete_cb set_up_next_message
message_complete mem p es streaming listens between = (
  message_complete_cb mem p,
  refl,
  rw (streaming, listens)
      (record {
        streaming = refl;
        listens = refl;
        message = refl;
        url = refl;
        status = refl;
        idle = record { state = between; name = refl };
      }),
  rw (streaming, listens) refl,
)

described_lem :
    (mem : Memory) (c : ParserContext) (x : Sent)
    → text c.url_buf ≡ joined x.url
    → text c.status_buf ≡ joined x.status
    → c.message ≡ new_http_message mem.unset
    → (let m =
          start_line c x.status_code x.http_major x.http_minor x.method
            (stored x.headers c.message) in
        record m { body = m.body ++ joined x.body })
      ≡ described mem x
unfolding new_http_message
described_lem mem c x u s e = rw (u, s, e, stored-body x.headers (new_http_message mem.unset)) refl

module _ (mem : Memory) (alloc : Allocates mem.malloc) where
  one_message :
      (p : HttpParser) (x : Sent) (es : List Event)
      → IsSmall x
      → IsFresh mem p
      → (q : HttpParser) × (callbacks mem (message_events x es) p ≡ callbacks mem es q)
        × IsFresh mem q
        × (q.message_calls ≡ p.message_calls ++ (described mem x ∷ []))
  one_message p x es small f =
      let after_body = on_message_complete ∷ es in
      let after_headers = each on_body x.body after_body in
      let start =
        on_headers_complete x.status_code x.http_major x.http_minor x.method ∷ after_headers in
      let after_status = header_events x.headers start in
      let (u, eu, hu) =
        url_pieces mem alloc p x.url [] (each on_status x.status after_status) small.url_fits
          (inl (f.url, refl)) in
      let p1 = at_context p (record p.context { url_buf = u }) in
      let (s, e1, hs) =
        status_pieces mem alloc p1 x.status [] after_status small.status_fits
          (inl (f.status, refl)) in
      let p2 = at_context p1 (record p1.context { status_buf = s }) in
      let (c, e2, between) =
        headers_complete_cb-Completed mem p2 x.headers x.status_code x.http_major x.http_minor
          x.method after_headers alloc small.headers_fit
          (record { state = f.idle.state; name = f.idle.name }) in
      let m =
        start_line p2.context x.status_code x.http_major x.http_minor x.method
          (stored x.headers p2.context.message) in
      let p3 = completed (at_context p2 c) m in
      let (q, e4, fresh, calls) =
        message_complete mem (with_body p3 (m.body ++ joined x.body)) es f.streaming f.listens
          between in
      (
        q,
        eu ∙ (e1 ∙ (e2 ∙ (body_pieces mem p3 x.body after_body ∙ e4))),
        fresh,
        calls
            ∙ ap (λ k. p.message_calls ++ (k ∷ []))
                (described_lem mem p2.context x (text-MayHold u _ hu) (text-MayHold s _ hs)
                  f.message),
      )

  -- A parser of a stream that is ready for a message and has a message callback, where malloc
  -- returns blocks of the size asked for and URLs, status texts, names and values are shorter than
  -- 2^31 bytes (http_parser stops at HTTP_MAX_HEADER_SIZE for all of them): for any number of messages no callback leaves its
  -- buffers, and the user's callback is called once for every message, in order, with the message
  -- that was sent: its URL, its status text, its headers and its body put together from the pieces
  -- in which http_parser delivers them. The parser is then ready for the next message.
  pub callbacks-stream :
      (p : HttpParser) (xs : List Sent)
      → All IsSmall xs
      → IsFresh mem p
      → (q : HttpParser) × (callbacks mem (stream_events xs) p ≡ some q)
        × IsFresh mem q
        × (q.message_calls ≡ p.message_calls ++ all_described mem xs)
  unfolding callbacks
  callbacks-stream p [] fit f = (p, refl, f, sym (append-nil p.message_calls))
  callbacks-stream p (x ∷ xs) (small, fit) f =
      let (q, e, f', calls) = one_message p x (stream_events xs) small f in
      let (r, e', f'', calls') = callbacks-stream q xs fit f' in
      (
        r,
        e ∙ e',
        f'',
        calls'
            ∙ (ap (λ k. k ++ all_described mem xs) calls
                ∙ append_assoc p.message_calls (described mem x ∷ []) (all_described mem xs)),
      )
