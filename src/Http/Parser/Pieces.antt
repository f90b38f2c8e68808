-- ===== src/Http/Parser/Pieces.antt =====
-- URLs, status texts and bodies that http_parser delivers in pieces.
use pixiecpp.Base.{
  ◌≡◌, ◌⊎◌, inl, inr, refl, sym, ap, ◌∙◌, Option, none, some, List, [], ◌∷◌, ◌++◌, append_assoc,
  append-nil, Bytes, lengths,
}
use pixiecpp.SimpleBuffer.{SimpleBuffer}
use pixiecpp.SimpleBuffer.Append.{Allocates, FitsBuffer}
use pixiecpp.Http.Message.{HttpMessage}
use pixiecpp.Http.Context.{
  Memory, url_data_cb, status_data_cb, body_data_cb, append_or_create, text,
}
use pixiecpp.Http.Context.Assembly.{Holds, append_new-Holds, append_to-Holds, put}
use pixiecpp.Http.Parser.{HttpParser, Event, on_url, on_status, on_body, callbacks, callback}
use pixiecpp.Http.Parser.Delivery.{Header, joined, stored, at_context, fits_first, fits_rest}

-- The events for a list of pieces.
abbrev pub each : (Bytes → Event) → List Bytes → List Event → List Event
each on [] es = es
each on (x ∷ xs) es = on x ∷ each on xs es

-- No buffer yet and no text, or a buffer with the text.
abbrev pub MayHold : Option SimpleBuffer → Bytes → Type 0
MayHold b t = ((b ≡ none) × (t ≡ [])) ⊎ Holds b t

pub text-MayHold : (b : Option SimpleBuffer) (t : Bytes) → MayHold b t → text b ≡ t
text-MayHold b t (inl (e, n)) = rw (e, n) refl
text-MayHold b t (inr (sb, e, _, same)) = rw e same

fits_end : (t at : Bytes) → FitsBuffer (t ++ at) → FitsBuffer at
fits_end t at h = grind (lengths, h)

module _ (mem : Memory) (alloc : Allocates mem.malloc) where
  append_or_create-Holds :
      (b : Option SimpleBuffer) (t at : Bytes)
      → FitsBuffer (t ++ at)
      → MayHold b t
      → Holds (append_or_create mem b at) (t ++ at)
  append_or_create-Holds b t at fits (inl (e, n)) =
      rw (e, n) (append_new-Holds mem at alloc (fits_end t at fits))
  append_or_create-Holds b t at fits (inr (sb, e, v, h)) =
      rw e (append_to-Holds mem (some sb) t at alloc fits (sb, refl, v, h))

  pub url_pieces :
      (p : HttpParser) (ats : List Bytes) (t : Bytes) (es : List Event)
      → FitsBuffer (t ++ joined ats)
      → MayHold p.context.url_buf t
      → (b : Option SimpleBuffer) × (callbacks mem (each on_url ats es) p
          ≡ callbacks mem es (at_context p (record p.context { url_buf = b })))
        × MayHold b (t ++ joined ats)
  unfolding callbacks callback url_data_cb
  url_pieces p [] t es fits h = (p.context.url_buf, refl, rw (append-nil t) h)
  url_pieces p (x ∷ xs) t es fits h =
      let (sb, e, v, ok) =
        append_or_create-Holds p.context.url_buf t x (fits_first t x (joined xs) fits) h in
      let (b, e', h') =
        url_pieces (at_context p (record p.context { url_buf = some sb })) xs (t ++ x) es
          (fits_rest t x (joined xs) fits) (inr (sb, refl, v, ok)) in
      (b, rw e e', rw (sym (append_assoc t x (joined xs))) h')

  pub status_pieces :
      (p : HttpParser) (ats : List Bytes) (t : Bytes) (es : List Event)
      → FitsBuffer (t ++ joined ats)
      → MayHold p.context.status_buf t
      → (b : Option SimpleBuffer) × (callbacks mem (each on_status ats es) p
          ≡ callbacks mem es (at_context p (record p.context { status_buf = b })))
        × MayHold b (t ++ joined ats)
  unfolding callbacks callback status_data_cb
  status_pieces p [] t es fits h = (p.context.status_buf, refl, rw (append-nil t) h)
  status_pieces p (x ∷ xs) t es fits h =
      let (sb, e, v, ok) =
        append_or_create-Holds p.context.status_buf t x (fits_first t x (joined xs) fits) h in
      let (b, e', h') =
        status_pieces (at_context p (record p.context { status_buf = some sb })) xs (t ++ x) es
          (fits_rest t x (joined xs) fits) (inr (sb, refl, v, ok)) in
      (b, rw e e', rw (sym (append_assoc t x (joined xs))) h')

abbrev pub with_body : HttpParser → Bytes → HttpParser
with_body p b = at_context p (record p.context { message = record p.context.message { body = b } })

pub body_pieces :
    (mem : Memory) (p : HttpParser) (ats : List Bytes) (es : List Event)
    → callbacks mem (each on_body ats es) p
      ≡ callbacks mem es (with_body p (p.context.message.body ++ joined ats))
unfolding callbacks callback body_data_cb
body_pieces mem p [] es =
    ap (λ b. callbacks mem es (with_body p b)) (sym (append-nil p.context.message.body))
body_pieces mem p (x ∷ xs) es =
    body_pieces mem (with_body p (p.context.message.body ++ x)) xs es
    ∙ ap (λ b. callbacks mem es (with_body p b)) (append_assoc p.context.message.body x (joined xs))

pub stored-body : (hs : List Header) (m : HttpMessage) → (stored hs m).body ≡ m.body
stored-body [] m = refl
stored-body (h ∷ hs) m =
    stored-body hs (put (h.name ++ joined h.more_name) (h.value ++ joined h.more_value) m)
