-- ===== src/Http/Context.antt =====
-- Class ParserContext of external_src/ParserContext.hpp and ParserContext.cpp, and the callbacks of
-- HTTPParser.cpp that work on it alone: they put a message together from the pieces that http_parser
-- finds. A buffer that fails, or a null pointer that is read, is `none`.
pub mod Assembly
use pixiecpp.Base.{
  ℕ, Bool, ◌||◌, Option, none, some, and_then, [], ◌++◌, ◌==◌, if◌then◌else◌, ℤ, Bytes,
}
use pixiecpp.SimpleBuffer.{SimpleBuffer, buffer_size, sb_create, sb_append, contents}
use pixiecpp.Http.Message.{HttpMessage, UnsetFields, new_http_message, assign}

-- What malloc returns for a size, and what the memory of a new message holds.
pub record Memory : Type 0 where
  pub malloc : ℕ → Bytes
  pub unset : UnsetFields

-- kHEADER_STATE_NOTHING, kHEADER_STATE_FIELD and kHEADER_STATE_VALUE
abbrev pub state_nothing : ℕ
state_nothing = 10

abbrev pub state_field : ℕ
state_field = 11

abbrev pub state_value : ℕ
state_value = 12

-- `none` is the null pointer.
pub record ParserContext : Type 0 where
  pub message : HttpMessage
  pub header_state : ℕ
  pub url_buf : Option SimpleBuffer
  pub status_buf : Option SimpleBuffer
  pub name : Option SimpleBuffer
  pub value : Option SimpleBuffer

-- ParserContext::ParserContext
abbrev pub new_context : Memory → ParserContext
new_context mem = record {
  message = new_http_message mem.unset;
  header_state = state_nothing;
  url_buf = none;
  status_buf = none;
  name = none;
  value = none;
}

-- sb_append to a new buffer, and to a buffer behind a pointer.
abbrev pub append_new : Memory → Bytes → Option SimpleBuffer
append_new mem at = sb_append mem.malloc (sb_create (mem.malloc buffer_size)) at

abbrev pub append_to : Memory → Option SimpleBuffer → Bytes → Option SimpleBuffer
append_to mem none at = none
append_to mem (some sb) at = sb_append mem.malloc sb at

abbrev pub append_or_create : Memory → Option SimpleBuffer → Bytes → Option SimpleBuffer
append_or_create mem none at = append_new mem at
append_or_create mem (some sb) at = sb_append mem.malloc sb at

-- url_data_cb and status_data_cb
unfoldable pub url_data_cb : Memory → Bytes → ParserContext → Option ParserContext
url_data_cb mem at c =
    and_then (append_or_create mem c.url_buf at) (λ sb. some (record c { url_buf = some sb }))

unfoldable pub status_data_cb : Memory → Bytes → ParserContext → Option ParserContext
status_data_cb mem at c =
    and_then (append_or_create mem c.status_buf at) (λ sb. some (record c { status_buf = some sb }))

-- saveNameValuePair; a name without a value is a null pointer that it reads.
abbrev pub save_pair : Option SimpleBuffer → Option SimpleBuffer → HttpMessage → Option HttpMessage
save_pair (some n) (some v) m =
    some (record m { headers = assign (contents n) (contents v) m.headers })
save_pair _ _ m = none

-- `if( c->name != NULL ) saveNameValuePair(parser, c->name, c->value)`
abbrev pub save_name : ParserContext → Option SimpleBuffer → Option HttpMessage
save_name c none = some c.message
save_name c (some n) = save_pair (some n) c.value c.message

abbrev pub starts_name : ℕ → Bool
starts_name state = (state == 0 || state == state_nothing) || state == state_value

-- header_field_data_cb
unfoldable pub header_field_data_cb : Memory → Bytes → ParserContext → Option ParserContext
header_field_data_cb mem at c =
    if starts_name c.header_state
    then and_then (save_name c c.name) (λ m. and_then (append_new mem at) (λ sb.
      some (record c { message = m; name = some sb; value = none; header_state = state_field })))
    else if c.header_state == state_field
    then and_then (append_to mem c.name at)
        (λ sb. some (record c { name = some sb; header_state = state_field }))
    else some (record c { header_state = state_field })

-- header_value_data_cb
unfoldable pub header_value_data_cb : Memory → Bytes → ParserContext → Option ParserContext
header_value_data_cb mem at c =
    if c.header_state == state_field
    then and_then (append_new mem at)
        (λ sb. some (record c { value = some sb; header_state = state_value }))
    else if c.header_state == state_value
    then and_then (append_to mem c.value at)
        (λ sb. some (record c { value = some sb; header_state = state_value }))
    else some (record c { header_state = state_value })

abbrev pub text : Option SimpleBuffer → Bytes
text none = []
text (some sb) = contents sb

-- What headers_complete_cb writes to the message.
abbrev pub start_line : ParserContext → ℤ → ℤ → ℤ → ℕ → HttpMessage → HttpMessage
start_line c status_code http_major http_minor method m = record m {
  status_code = status_code;
  http_major = http_major;
  http_minor = http_minor;
  url = text c.url_buf;
  status = text c.status_buf;
  method = method;
}

-- body_data_cb
unfoldable pub body_data_cb : Bytes → ParserContext → ParserContext
body_data_cb at c = record c { message = record c.message { body = c.message.body ++ at } }
