-- ===== src/Http/Protocol/Request.antt =====
-- The request parser of src/http/http_protocol.cpp: `parse_http_request_head`. A line is the text
-- before the next line end, and the loop over the lines is recursion on the lines that are left.
use nuvio_engine.Common.{
  ℕ, zero, suc, Bool, true, false, ◌&&◌, ◌||◌, not, [], ◌∷◌, Option, none, some, Bytes, bytes_eq,
  length, ltb, leb, ◌==◌, if◌then◌else◌,
}
use mathlib.Core.Option as O
use nuvio_engine.Text.{codes, trim, is_empty, is_blank, ends_with, find_byte, split_at_byte}
use nuvio_engine.Http.Protocol.{
  HttpMethod, get, head, RequestParseStatus, RequestParseResult, case_insensitive_equal,
  valid_header_name, valid_header_value, valid_target, parse_content_length,
}

-- `substr(0, find("\r\n"))` and the text behind the line end.
unfoldable pub split_line : Bytes → Option (Bytes × Bytes)
split_line [] = none
split_line (c ∷ []) = none
split_line (c ∷ d ∷ cs) =
    if (c == 13) && (d == 10)
    then some ([], cs)
    else O.map (λ p. (c ∷ p.0, p.1)) (split_line (d ∷ cs))

abbrev pub rejected : RequestParseStatus → RequestParseResult
rejected status = record { status = status; request = none }

abbrev accepted : HttpMethod → Bytes → Option Bytes → RequestParseResult
accepted method target range = record {
  status = RequestParseStatus.ok;
  request = some (record { method = method; target = target; range = range });
}

-- What the loop over the headers has read: `range` and `content_length`.
pub record Headers : Type 0 where
  pub range : Option Bytes
  pub content_length : Option ℕ

unfoldable pub has_value : {A : Type 0} → Option A → Bool
has_value none = false
has_value (some x) = true

-- The header `name: value`, or the status of the failure.
pub data Outcome : Type 0 where
  continue : Headers → Outcome
  stop : RequestParseStatus → Outcome

starts_blank : Bytes → Bool
unfolding is_blank
starts_blank [] = false
starts_blank (c ∷ cs) = is_blank c

unfoldable pub note_content_length : Option ℕ → Headers → Outcome
unfolding has_value
note_content_length none headers = stop RequestParseStatus.malformed
note_content_length (some parsed) headers =
    if has_value headers.content_length
    then stop RequestParseStatus.malformed
    else continue (record headers { content_length = some parsed })

unfoldable pub note_header : Bytes → Bytes → Headers → Outcome
unfolding has_value is_empty case_insensitive_equal note_content_length parse_content_length
note_header name value headers =
    if case_insensitive_equal name (codes "Range")
    then (if has_value headers.range || is_empty value
        then stop RequestParseStatus.malformed
        else continue (record headers { range = some value }))
    else if case_insensitive_equal name (codes "Transfer-Encoding")
    then stop RequestParseStatus.malformed
    else if case_insensitive_equal name (codes "Content-Length")
    then note_content_length (parse_content_length value) headers
    else continue headers

-- One line of the loop: its first character, its separator, its name and its value.
unfoldable pub read_header : Bytes → Headers → Outcome
unfolding starts_blank split_at_byte trim valid_header_name valid_header_value note_header
read_header line headers =
    if starts_blank line
    then stop RequestParseStatus.malformed
    else elim (split_at_byte b':' line) [
      | none ↦ stop RequestParseStatus.malformed
      | some (name, rest) ↦
          if not (valid_header_name name) || not (valid_header_value (trim rest))
          then stop RequestParseStatus.malformed
          else note_header name (trim rest) headers
    ]

unfoldable pub and_then : Outcome → (Headers → Outcome) → Outcome
and_then (stop status) next = stop status
and_then (continue headers) next = next headers

-- The loop's body on the next line, if there is one: the loop ends at an empty line.
unfoldable pub next_line : (Bytes → Bytes → Outcome) → Headers → Option (Bytes × Bytes) → Outcome
unfolding is_empty
next_line read headers none = stop RequestParseStatus.malformed
next_line read headers (some (line, behind)) =
    if is_empty line then continue headers else read line behind

-- The loop, which may read `budget` more headers; `rest` is the text from `position` on.
unfoldable pub read_headers : ℕ → Bytes → Headers → Outcome
unfolding split_line next_line read_header and_then
read_headers zero rest headers =
    if leb (length rest) 2
    then continue headers
    else next_line (λ line behind. stop RequestParseStatus.header_too_large) headers
        (split_line rest)
read_headers (suc budget) rest headers =
    if leb (length rest) 2
    then continue headers
    else next_line (λ line behind. and_then (read_header line headers) (read_headers budget behind))
        headers (split_line rest)

-- The check of `Content-Length` and the request.
unfoldable pub finish : HttpMethod → Bytes → Outcome → RequestParseResult
finish method target (stop status) = rejected status
finish method target (continue headers) = elim headers.content_length [
  | none ↦ accepted method target headers.range
  | some parsed ↦
      if parsed == 0
      then accepted method target headers.range
      else rejected RequestParseStatus.malformed
]

unfoldable pub method_of : Bytes → Option HttpMethod
unfolding bytes_eq
method_of text =
    if bytes_eq text (codes "GET")
    then some get
    else if bytes_eq text (codes "HEAD")
    then some head
    else none

-- The three parts of the request line.
pub record RequestLine : Type 0 where
  pub method_text : Bytes
  pub target : Bytes
  pub version : Bytes

unfoldable pub split_request_line : Bytes → Option RequestLine
unfolding split_at_byte find_byte
split_request_line line = elim (split_at_byte b' ' line) [
  | none ↦ none
  | some (method_text, behind) ↦ elim (split_at_byte b' ' behind) [
    | none ↦ none
    | some (target, version) ↦ elim (find_byte b' ' version) [
      | some again ↦ none
      | none ↦ some (record { method_text = method_text; target = target; version = version })
    ]
  ]
]

unfoldable pub known_version : Bytes → Bool
unfolding bytes_eq
known_version version = bytes_eq version (codes "HTTP/1.1") || bytes_eq version (codes "HTTP/1.0")

-- The headers of a request with a known method.
unfoldable pub parse_method : Option HttpMethod → Bytes → Bytes → RequestParseResult
unfolding finish read_headers
parse_method none target rest = rejected RequestParseStatus.method_not_allowed
parse_method (some method) target rest =
    finish method target (read_headers 64 rest (record { range = none; content_length = none }))

-- From the parts of the request line and the text of the headers.
unfoldable pub parse_parts : RequestLine → Bytes → RequestParseResult
unfolding valid_header_name valid_target known_version method_of parse_method
parse_parts line rest =
    if not (valid_header_name line.method_text)
      || not (valid_target line.target)
      || not (known_version line.version)
    then rejected RequestParseStatus.malformed
    else parse_method (method_of line.method_text) line.target rest

unfoldable pub parse_request_line : Option RequestLine → Bytes → RequestParseResult
unfolding parse_parts
parse_request_line none rest = rejected RequestParseStatus.malformed
parse_request_line (some parts) rest = parse_parts parts rest

-- From the request line and the text behind it.
unfoldable pub parse_lines : Option (Bytes × Bytes) → RequestParseResult
unfolding split_request_line parse_request_line
parse_lines none = rejected RequestParseStatus.malformed
parse_lines (some (line, rest)) =
    if ltb 4096 (length line)
    then rejected RequestParseStatus.malformed
    else parse_request_line (split_request_line line) rest

unfoldable pub parse_http_request_head : Bytes → RequestParseResult
unfolding ends_with split_line parse_lines
parse_http_request_head request_head =
    if ltb 16384 (length request_head)
    then rejected RequestParseStatus.header_too_large
    else if not (ends_with (13 ∷ 10 ∷ 13 ∷ 10 ∷ []) request_head)
    then rejected RequestParseStatus.malformed
    else parse_lines (split_line request_head)
