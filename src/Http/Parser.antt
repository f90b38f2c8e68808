-- ===== src/Http/Parser.antt =====
-- Class HTTPParser of external_src/HTTPParser.hpp and HTTPParser.cpp. The library http_parser is a
-- parameter: what it finds in a stream is a list of events, one for each callback that it makes. Every
-- callback returns 0.
pub mod Delivery
pub mod Headers
pub mod Pieces
pub mod Stream
use pixiecpp.Base.{
  ℕ, ◌+◌, Bool, true, false, Option, none, some, and_then, List, [], ◌∷◌, ◌++◌, ◌==◌, if◌then◌else◌,
  ℤ, Bytes, length,
}
use pixiecpp.Http.Context.{
  Memory, ParserContext, new_context, save_name, start_line, url_data_cb, status_data_cb,
  header_field_data_cb, header_value_data_cb, body_data_cb,
}
use pixiecpp.Http.Message.{HttpMessage, new_http_message}

-- The pointer `last_message`: null, the message of the context, or an earlier message.
pub data LastMessage : Type 0 where
  null current : LastMessage
  earlier : HttpMessage → LastMessage

-- The three callbacks of the user are called with the message; the calls are kept in order, those of
-- the error callback as a number. A callback that was never set is `false`.
pub record HttpParser : Type 0 where
  pub stream_messages_option : Bool
  pub headers_complete_flag : Bool
  pub message_complete_flag : Bool
  pub message_data : Bytes
  pub context : ParserContext
  pub last_message : LastMessage
  pub has_headers_lambda : Bool
  pub has_message_lambda : Bool
  pub has_error_lambda : Bool
  pub headers_calls : List HttpMessage
  pub message_calls : List HttpMessage
  pub error_calls : ℕ

-- HTTPParser::HTTPParser with HTTPParser::setUpParserCallbacks
abbrev pub new_http_parser : Memory → HttpParser
new_http_parser mem = record {
  stream_messages_option = false;
  headers_complete_flag = false;
  message_complete_flag = false;
  message_data = [];
  context = new_context mem;
  last_message = null;
  has_headers_lambda = false;
  has_message_lambda = false;
  has_error_lambda = false;
  headers_calls = [];
  message_calls = [];
  error_calls = 0;
}

-- HTTPParser::setStreamingOption, onHeadersLambda, onMessageLambda and onParseErrorLambda
abbrev pub set_streaming_option : Bool → HttpParser → HttpParser
set_streaming_option streaming p = record p { stream_messages_option = streaming }

abbrev pub on_headers_lambda : HttpParser → HttpParser
on_headers_lambda p = record p { has_headers_lambda = true }

abbrev pub on_message_lambda : HttpParser → HttpParser
on_message_lambda p = record p { has_message_lambda = true }

abbrev pub on_parse_error_lambda : HttpParser → HttpParser
on_parse_error_lambda p = record p { has_error_lambda = true }

-- The callbacks of http_parser that carry something, with what they carry.
pub data Event : Type 0 where
  on_url on_status on_header_field on_header_value on_body : Bytes → Event
  on_headers_complete : ℤ → ℤ → ℤ → ℕ → Event
  on_message_complete : Event

abbrev log_call : Bool → HttpMessage → List HttpMessage → List HttpMessage
log_call true m calls = calls ++ (m ∷ [])
log_call false m calls = calls

-- headers_complete_cb, with the four fields of http_parser that it reads
unfoldable pub headers_complete_cb : ℤ → ℤ → ℤ → ℕ → HttpParser → Option HttpParser
headers_complete_cb status_code http_major http_minor method p =
    and_then (save_name p.context p.context.name) (λ saved.
      let m = start_line p.context status_code http_major http_minor method saved in
      some (record p {
        context = record p.context { message = m };
        headers_complete_flag = true;
        last_message = current;
        headers_calls = log_call p.has_headers_lambda m p.headers_calls;
      }))

abbrev keep_message : HttpMessage → LastMessage → LastMessage
keep_message m null = null
keep_message m current = earlier m
keep_message m (earlier m') = earlier m'

-- HTTPParser::setUpNextMessage. The header state stays.
unfoldable pub set_up_next_message : Memory → HttpParser → HttpParser
set_up_next_message mem p =
    if p.stream_messages_option
    then record p {
      message_complete_flag = false;
      headers_complete_flag = false;
      message_data = [];
      last_message = keep_message p.context.message p.last_message;
      context = record p.context {
        message = new_http_message mem.unset;
        url_buf = none;
        status_buf = none;
        name = none;
        value = none;
      };
    }
    else p

-- message_complete_cb
unfoldable pub message_complete_cb : Memory → HttpParser → HttpParser
unfolding set_up_next_message
message_complete_cb mem p = set_up_next_message mem (record p {
  last_message = current;
  message_complete_flag = true;
  message_calls = log_call p.has_message_lambda p.context.message p.message_calls;
})

abbrev pub with_context : HttpParser → Option ParserContext → Option HttpParser
with_context p none = none
with_context p (some c) = some (record p { context = c })

-- One callback.
unfoldable pub callback : Memory → Event → HttpParser → Option HttpParser
unfolding url_data_cb status_data_cb header_field_data_cb header_value_data_cb headers_complete_cb
    body_data_cb message_complete_cb
callback mem (on_url at) p = with_context p (url_data_cb mem at p.context)
callback mem (on_status at) p = with_context p (status_data_cb mem at p.context)
callback mem (on_header_field at) p = with_context p (header_field_data_cb mem at p.context)
callback mem (on_header_value at) p = with_context p (header_value_data_cb mem at p.context)
callback mem (on_body at) p = some (record p { context = body_data_cb at p.context })
callback mem (on_headers_complete status_code http_major http_minor method) p =
    headers_complete_cb status_code http_major http_minor method p
callback mem on_message_complete p = some (message_complete_cb mem p)

unfoldable pub callbacks : Memory → List Event → HttpParser → Option HttpParser
callbacks mem [] p = some p
callbacks mem (e ∷ es) p = and_then (callback mem e p) (callbacks mem es)

-- http_parser_execute: its next state, the callbacks that it makes, and the bytes that it took.
abbrev pub Execute {ℓ} : Type ℓ → Type ℓ
Execute S = S → Bytes → S × (List Event × ℕ)

-- after http_parser_execute; an error callback that was never set throws: `none`
abbrev pub report_error : Bool → HttpParser → Option HttpParser
report_error true p = some p
report_error false p =
    if p.has_error_lambda then some (record p { error_calls = p.error_calls + 1 }) else none

-- HTTPParser::appendBytes
unfoldable pub append_bytes {ℓ} :
    {S : Type ℓ} → Execute S → Memory → Bytes → S × HttpParser → Option ((S × HttpParser) × ℕ)
append_bytes execute mem buffer (s, p) =
    let (s', (events, nparsed)) = execute s buffer in
    and_then (callbacks mem events (record p { message_data = p.message_data ++ buffer })) (λ p'.
      and_then (report_error (nparsed == length buffer) p') (λ p''. some ((s', p''), nparsed)))

-- HTTPParser::appendEOF
unfoldable pub append_eof {ℓ} :
    {S : Type ℓ} → Execute S → Memory → S × HttpParser → Option (S × HttpParser)
append_eof execute mem (s, p) =
    let (s', (events, _)) = execute s [] in
    if p.message_complete_flag
    then some (s, p)
    else and_then (callbacks mem events p) (λ p'. some (s', p'))
