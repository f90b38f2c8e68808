-- ===== src/Tests/Http.antt =====
-- HTTP messages at concrete inputs.
use pixiecpp.Base.{All, arith, true, ◌≡◌, refl, inl, some, List, [], ◌∷◌, pos, codes}
use pixiecpp.Decimal.{to_string}
use pixiecpp.Http.Message.{
  has_header, UnsetFields, HttpMessage, Methods, new_http_message, set_header, get_header,
  connect_ok_message, message_as_string, first_line_as_string, headers_as_string, is_request,
}
use pixiecpp.Http.Message.Operations.{
  HeaderOperation, sets, removes, apply_all, get_header-apply_all,
}
use pixiecpp.Http.Context.{Memory, ParserContext, new_context, start_line}
use pixiecpp.Http.Parser.Stream.{Sent, IsFresh, stream_events, all_described, callbacks-stream}
use pixiecpp.Http.Parser.{
  HttpParser, new_http_parser, set_streaming_option, on_message_lambda, callbacks,
  on_headers_complete,
}
use pixiecpp.Http.Parser.Delivery.{FitsBuffers, Header, at_context, header_events, stored}
use pixiecpp.Http.Parser.Headers.{IsBetween, completed, headers_complete_cb-Completed}
use pixiecpp.Tests.Buffers.{malloc, malloc-Allocates}

abbrev unset : UnsetFields
unset = record {
  method = 0;
  status_code = pos 0;
  http_major = pos 0;
  http_minor = pos 0;
  connect_port = pos 0;
}

abbrev ok_message : HttpMessage
ok_message = set_header (codes "Connection") (codes "Close") (new_http_message unset)

abbrev header_operations : List HeaderOperation
header_operations =
    sets (codes "Host") (codes "a")
    ∷ sets (codes "Accept") (codes "c")
    ∷ sets (codes "Host") (codes "b")
    ∷ removes (codes "Accept")
    ∷ []

get_header-apply_all_example :
    (get_header (codes "Host") (apply_all header_operations (new_http_message unset))
      ≡ some (codes "b"))
    × (has_header (codes "Host") (apply_all header_operations (new_http_message unset)) ≡ true)
get_header-apply_all_example = get_header-apply_all header_operations unset (codes "Host")

abbrev methods : Methods
methods = record { name = λ m. codes "CONNECT"; http_connect = 5 }

connect_ok_text :
    message_as_string methods (connect_ok_message unset)
    ≡ codes "HTTP/1.1 200 Connection established\r\nConnection : Close\r\n\r\n\r\n"
unfolding message_as_string connect_ok_message first_line_as_string headers_as_string is_request
    new_http_message set_header to_string
connect_ok_text = refl

abbrev memory : Memory
memory = record { malloc = malloc; unset = unset }

-- Host: a.b in two pieces each, then Via: c.
abbrev two_headers : List Header
two_headers =
    record {
      name = codes "Ho";
      more_name = codes "st" ∷ [];
      value = codes "a.";
      more_value = codes "b" ∷ [];
    }
    ∷ record { name = codes "Via"; more_name = []; value = codes "c"; more_value = [] }
    ∷ []

two_headers-fit : All FitsBuffers two_headers
two_headers-fit = ((omega arith, omega arith), ((omega arith, omega arith), tt))

headers_complete_cb-Completed_example :
    (c : ParserContext) × (callbacks memory
        (header_events two_headers (on_headers_complete (pos 0) (pos 1) (pos 1) 1 ∷ []))
        (new_http_parser memory)
      ≡ callbacks memory [] (
          completed (at_context (new_http_parser memory) c) (
            start_line
              (new_context memory)
              (pos 0)
              (pos 1)
              (pos 1)
              1
              (stored two_headers (new_http_message unset)))))
    × IsBetween c
headers_complete_cb-Completed_example =
    headers_complete_cb-Completed memory (new_http_parser memory) two_headers (pos 0) (pos 1)
      (pos 1) 1 [] malloc-Allocates two_headers-fit (record { state = inl refl; name = refl })

two_headers-stored :
    (stored two_headers (new_http_message unset)).headers
    ≡ (codes "Host", codes "a.b") ∷ (codes "Via", codes "c") ∷ []
unfolding new_http_message
two_headers-stored = refl

-- A request with a URL and a body in two pieces each, and one without headers and body.
abbrev two_messages : List Sent
two_messages =
    record {
      url = codes "/a" ∷ codes "/b" ∷ [];
      status = [];
      headers = two_headers;
      status_code = pos 0;
      http_major = pos 1;
      http_minor = pos 1;
      method = 3;
      body = codes "x" ∷ codes "yz" ∷ [];
    }
    ∷ record {
      url = codes "/" ∷ [];
      status = [];
      headers = [];
      status_code = pos 0;
      http_major = pos 1;
      http_minor = pos 0;
      method = 1;
      body = [];
    }
    ∷ []

abbrev stream_parser : HttpParser
stream_parser = on_message_lambda (set_streaming_option true (new_http_parser memory))

callbacks-stream_example :
    (q : HttpParser) × (callbacks memory (stream_events two_messages) stream_parser ≡ some q)
    × IsFresh memory q
    × (q.message_calls ≡ all_described memory two_messages)
callbacks-stream_example =
    callbacks-stream memory malloc-Allocates stream_parser two_messages
      (
        record { url_fits = omega arith; status_fits = omega arith; headers_fit = two_headers-fit },
        (record { url_fits = omega arith; status_fits = omega arith; headers_fit = tt }, tt),
      )
      (record {
        streaming = refl;
        listens = refl;
        message = refl;
        url = refl;
        status = refl;
        idle = record { state = inl refl; name = refl };
      })
