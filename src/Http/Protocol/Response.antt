-- ===== src/Http/Protocol/Response.antt =====
-- The response heads of src/http/http_protocol.cpp: `build_stream_response` and
-- `build_error_response`.
use nuvio_engine.Common.{
  ℕ, Bool, true, false, ◌&&◌, ◌||◌, not, [], ◌∷◌, ◌++◌, Option, none, some, Bytes, length, ltb, leb,
  if◌then◌else◌,
}
use nuvio_engine.Text.{codes, is_empty, find_byte}
use nuvio_engine.Text.Decimal.{to_string}
use nuvio_engine.Http.ByteRange.{
  ByteRange, RangeResult, RangeStatus, full, partial, unsatisfiable, multiple_ranges_unsupported,
  parse_range_header,
}
use nuvio_engine.Http.ByteRange as B
use nuvio_engine.Http.Protocol.{
  HttpMethod, get, head, HttpRequest, ResponseStatus, StreamResponse, every,
}

-- The line end.
abbrev pub crlf : Bytes
crlf = 13 ∷ 10 ∷ []

-- `static_cast<std::uint16_t>(status)`.
unfoldable pub status_code : ResponseStatus → ℕ
status_code ResponseStatus.ok = 200
status_code ResponseStatus.partial_content = 206
status_code ResponseStatus.bad_request = 400
status_code ResponseStatus.not_found = 404
status_code ResponseStatus.method_not_allowed = 405
status_code ResponseStatus.range_not_satisfiable = 416
status_code ResponseStatus.request_header_fields_too_large = 431
status_code ResponseStatus.internal_server_error = 500
status_code ResponseStatus.service_unavailable = 503

unfoldable pub reason_phrase : ResponseStatus → Bytes
reason_phrase ResponseStatus.ok = codes "OK"
reason_phrase ResponseStatus.partial_content = codes "Partial Content"
reason_phrase ResponseStatus.bad_request = codes "Bad Request"
reason_phrase ResponseStatus.not_found = codes "Not Found"
reason_phrase ResponseStatus.method_not_allowed = codes "Method Not Allowed"
reason_phrase ResponseStatus.range_not_satisfiable = codes "Range Not Satisfiable"
reason_phrase ResponseStatus.request_header_fields_too_large =
    codes "Request Header Fields Too Large"
reason_phrase ResponseStatus.internal_server_error = codes "Internal Server Error"
reason_phrase ResponseStatus.service_unavailable = codes "Service Unavailable"

is_visible : ℕ → Bool
is_visible c = leb 33 c && ltb c 127

has_slash : Bytes → Bool
unfolding find_byte
has_slash value = elim (find_byte b'/' value) [ none ↦ false | some position ↦ true ]

unfoldable pub valid_content_type : Bytes → Bool
unfolding is_empty has_slash every is_visible
valid_content_type value =
    if is_empty value || ltb 127 (length value) || not (has_slash value)
    then false
    else every is_visible value

append_status_line : Bytes → ResponseStatus → Bytes
unfolding to_string status_code reason_phrase
append_status_line output status =
    output
    ++ codes "HTTP/1.1 "
    ++ to_string (status_code status)
    ++ codes " "
    ++ reason_phrase status
    ++ crlf

append_common_headers : Bytes → Bytes
append_common_headers output =
    output
    ++ codes "Accept-Ranges: bytes"
    ++ crlf
    ++ codes "Access-Control-Allow-Origin: *"
    ++ crlf
    ++ codes "Access-Control-Allow-Headers: Range"
    ++ crlf
    ++ codes "Access-Control-Expose-Headers: Content-Length, Content-Range"
    ++ crlf
    ++ codes "transferMode.dlna.org: Streaming"
    ++ crlf
    ++ codes "Connection: close"
    ++ crlf

error_details : ResponseStatus → ℕ → Bytes
unfolding to_string
error_details ResponseStatus.method_not_allowed resource_size = codes "Allow: GET, HEAD" ++ crlf
error_details ResponseStatus.range_not_satisfiable resource_size =
    codes "Content-Range: bytes */" ++ to_string resource_size ++ crlf
error_details status resource_size = []

unfoldable pub build_error_response : ResponseStatus → ℕ → Bytes
unfolding append_status_line append_common_headers error_details
build_error_response status resource_size =
    append_common_headers (append_status_line [] status)
    ++ error_details status resource_size
    ++ codes "Content-Length: 0"
    ++ crlf
    ++ crlf

content_range : ByteRange → ℕ → Bytes
unfolding to_string
content_range range resource_size =
    codes "Content-Range: bytes "
    ++ to_string range.start
    ++ codes "-"
    ++ to_string range.end
    ++ codes "/"
    ++ to_string resource_size
    ++ crlf

-- `range.range.has_value() ? range.range->length() : 0`.
unfoldable pub content_length : Option ByteRange → ℕ
content_length none = 0
content_length (some range) = B.length range

content_range_line : ResponseStatus → Option ByteRange → ℕ → Bytes
unfolding content_range
content_range_line ResponseStatus.partial_content (some range) resource_size =
    content_range range resource_size
content_range_line status range resource_size = []

unfoldable pub head_text : ResponseStatus → Option ByteRange → Bytes → ℕ → Bytes
unfolding append_status_line append_common_headers valid_content_type to_string content_length
    content_range_line
head_text status range content_type resource_size =
    append_common_headers (append_status_line [] status)
    ++ codes "Content-Type: "
    ++ (if valid_content_type content_type then content_type else codes "application/octet-stream")
    ++ crlf
    ++ codes "Content-Length: "
    ++ to_string (content_length range)
    ++ crlf
    ++ content_range_line status range resource_size
    ++ crlf

unfoldable pub is_get : HttpMethod → Bool
is_get get = true
is_get head = false

unfoldable pub served_response :
    HttpRequest → ResponseStatus → Option ByteRange → ℕ → Bytes → StreamResponse
unfolding head_text is_get content_length
served_response request status range resource_size content_type = record {
  status = status;
  body_range = range;
  include_body = is_get request.method && ltb 0 (content_length range);
  headers = head_text status range content_type resource_size;
}

unfoldable pub refused_response : ResponseStatus → ℕ → StreamResponse
unfolding build_error_response
refused_response status resource_size = record {
  status = status;
  body_range = none;
  include_body = false;
  headers = build_error_response status resource_size;
}

unfoldable pub respond : HttpRequest → RangeResult → ℕ → Bytes → StreamResponse
unfolding served_response refused_response
respond request range resource_size content_type = elim range.status [
  | full ↦ served_response request ResponseStatus.ok range.range resource_size content_type
  | partial ↦
      served_response request ResponseStatus.partial_content range.range resource_size content_type
  | RangeStatus.malformed ↦ refused_response ResponseStatus.bad_request 0
  | unsatisfiable ↦ refused_response ResponseStatus.range_not_satisfiable resource_size
  | multiple_ranges_unsupported ↦
      refused_response ResponseStatus.range_not_satisfiable resource_size
]

-- `request.range.value_or("")`.
unfoldable pub range_text : HttpRequest → Bytes
range_text request = elim request.range [ none ↦ [] | some text ↦ text ]

unfoldable pub build_stream_response : HttpRequest → ℕ → Bytes → StreamResponse
unfolding respond parse_range_header range_text
build_stream_response request resource_size content_type =
    respond request (parse_range_header (range_text request) resource_size) resource_size
      content_type
