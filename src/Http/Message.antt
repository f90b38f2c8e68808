-- ===== src/Http/Message.antt =====
-- Class HTTPMessage of external_src/HTTPMessage.hpp and HTTPMessage.cpp.
pub mod Headers
pub mod Operations
use pixiecpp.Base.{
  ℕ, Bool, true, false, not, Option, none, some, List, [], ◌∷◌, ◌++◌, ltb, ◌==◌, if◌then◌else◌, ℤ,
  pos, Bytes, bytes_eq, codes,
}
use pixiecpp.Decimal.{to_string}

-- std::map<std::string, std::string>: the pairs in the order of their keys.
abbrev pub MessageHeaders : Type 0
MessageHeaders = List (Bytes × Bytes)

-- `<` of std::string
abbrev pub bytes_lt : Bytes → Bytes → Bool
bytes_lt xs [] = false
bytes_lt [] (y ∷ ys) = true
bytes_lt (x ∷ xs) (y ∷ ys) =
    let rest = bytes_lt xs ys in if ltb x y then true else if x == y then rest else false

-- headers.find
abbrev pub find : Bytes → MessageHeaders → Option Bytes
find key [] = none
find key ((k, v) ∷ rest) = let later = find key rest in if bytes_eq key k then some v else later

-- headers.erase
abbrev pub erase : Bytes → MessageHeaders → MessageHeaders
erase key [] = []
erase key ((k, v) ∷ rest) =
    let later = erase key rest in if bytes_eq key k then later else (k, v) ∷ later

-- headers[key] = value
abbrev pub assign : Bytes → Bytes → MessageHeaders → MessageHeaders
assign key value [] = (key, value) ∷ []
assign key value ((k, v) ∷ rest) =
    let later = assign key value rest in
    if bytes_eq key k
    then (k, value) ∷ rest
    else if bytes_lt key k
    then (key, value) ∷ (k, v) ∷ rest
    else (k, v) ∷ later

-- The method is the number of its enumerator.
pub record HttpMessage : Type 0 where
  pub method : ℕ
  pub url : Bytes
  pub status_code : ℤ
  pub status : Bytes
  pub http_major : ℤ
  pub http_minor : ℤ
  pub headers : MessageHeaders
  pub body : Bytes
  pub connect_host : Bytes
  pub connect_port : ℤ

-- What the memory of a new message holds in the fields that the constructor leaves unset.
pub record UnsetFields : Type 0 where
  pub method : ℕ
  pub status_code : ℤ
  pub http_major : ℤ
  pub http_minor : ℤ
  pub connect_port : ℤ

-- HTTPMessage::HTTPMessage
unfoldable pub new_http_message : UnsetFields → HttpMessage
new_http_message junk = record {
  method = junk.method;
  url = [];
  status_code = junk.status_code;
  status = [];
  http_major = junk.http_major;
  http_minor = junk.http_minor;
  headers = [];
  body = [];
  connect_host = [];
  connect_port = junk.connect_port;
}

-- What HTTPMessage takes from http_parser.h: the names of HTTP_METHOD_MAP and the enumerator
-- HTTP_CONNECT.
pub record Methods : Type 0 where
  pub name : ℕ → Bytes
  pub http_connect : ℕ

abbrev pub is_some : Option Bytes → Bool
is_some none = false
is_some (some v) = true

-- HTTPMessage::hasHeader
unfoldable pub has_header : Bytes → HttpMessage → Bool
has_header key m = is_some (find key m.headers)

-- HTTPMessage::removeHeader
unfoldable pub remove_header : Bytes → HttpMessage → HttpMessage
remove_header key m = record m { headers = erase key m.headers }

-- HTTPMessage::setHeader
unfoldable pub set_header : Bytes → Bytes → HttpMessage → HttpMessage
set_header key value m = record m { headers = assign key value m.headers }

-- HTTPMessage::getHeader. For a missing key it builds a std::string from a null pointer, which throws:
-- `none`.
unfoldable pub get_header : Bytes → HttpMessage → Option Bytes
get_header key m = find key m.headers

abbrev crlf : Bytes
crlf = 13 ∷ 10 ∷ []

header_lines : MessageHeaders → Bytes
header_lines [] = []
header_lines ((k, v) ∷ rest) = k ++ (codes " : " ++ (v ++ (crlf ++ header_lines rest)))

-- HTTPMessage::headersAsString
unfoldable pub headers_as_string : HttpMessage → Bytes
unfolding header_lines
headers_as_string m = header_lines m.headers

-- HTTPMessage::ConnectOKMessage and HTTPMessage::ConnectFailedMessage
unfoldable pub connect_ok_message : UnsetFields → HttpMessage
unfolding new_http_message set_header
connect_ok_message junk =
    set_header (codes "Connection") (codes "Close") (record (new_http_message junk) {
      status_code = pos 200;
      status = codes "Connection established";
      http_major = pos 1;
      http_minor = pos 1;
    })

unfoldable pub connect_failed_message : UnsetFields → HttpMessage
unfolding new_http_message set_header
connect_failed_message junk =
    set_header (codes "Connection") (codes "Close") (record (new_http_message junk) {
      status_code = pos 404;
      status = codes "Failed to established connection";
      http_major = pos 1;
      http_minor = pos 1;
    })

-- HTTPMessage::isRequest
unfoldable pub is_request : HttpMessage → Bool
is_request m = not (m.method == 0)

-- HTTPMessage::isHTTPS and HTTPMessage::isHTTP
unfoldable pub is_https : Methods → HttpMessage → Bool
is_https ms m = m.method == ms.http_connect

unfoldable pub is_http : Methods → HttpMessage → Bool
unfolding is_https
is_http ms m = not (is_https ms m)

abbrev version : HttpMessage → Bytes
version m = codes "HTTP/" ++ (to_string m.http_major ++ (codes "." ++ to_string m.http_minor))

-- HTTPMessage::firstLineAsString; the URL of a request is not in it.
unfoldable pub first_line_as_string : Methods → HttpMessage → Bytes
unfolding is_request
first_line_as_string ms m =
    if is_request m
    then ms.name m.method ++ (codes " " ++ version m)
    else version m ++ (codes " " ++ (to_string m.status_code ++ (codes " " ++ m.status)))

-- HTTPMessage::messageAsString; the line that it prints is left out.
unfoldable pub message_as_string : Methods → HttpMessage → Bytes
unfolding first_line_as_string headers_as_string
message_as_string ms m =
    first_line_as_string ms m ++ (crlf ++ (headers_as_string m ++ (crlf ++ (crlf ++ m.body))))
