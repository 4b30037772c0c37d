-- ===== src/Http/Protocol/Admitted.antt =====
-- What `parse_http_request_head` admits.
use nuvio_engine.Common.{
  ℕ, zero, suc, ◌≡◌, refl, Bool, true, false, ◌≢◌, Option, none, some, Bytes, length, arith, leb,
  if◌then◌else◌, not, ◌||◌,
}
use nuvio_engine.Text.{is_empty}
use nuvio_engine.Http.Protocol.{
  HttpMethod, RequestParseStatus, RequestParseResult, valid_header_name, valid_header_value,
  valid_target,
}
use nuvio_engine.Http.Protocol.Request.{
  Headers, Outcome, continue, stop, note_header, note_content_length, read_header, read_headers,
  finish, RequestLine, parse_parts, parse_lines, parse_http_request_head, split_line,
  split_request_line, and_then, next_line, parse_request_line, rejected, known_version, method_of,
  parse_method,
}

-- A range that the loop has read: a header value of visible text that is not empty.
unfoldable pub IsRangeText : Option Bytes → Type 0
IsRangeText none = Unit
IsRangeText (some text) = (is_empty text ≡ false) × (valid_header_value text ≡ true)

-- An outcome of the loop: what it has read, or a status of failure.
IsRead : Outcome → Type 0
unfolding IsRangeText
IsRead (continue headers) = IsRangeText headers.range
IsRead (stop status) = status ≢ RequestParseStatus.ok

note_header-IsRead :
    (name value : Bytes) (headers : Headers)
    → valid_header_value value ≡ true
    → IsRangeText headers.range
    → IsRead (note_header name value headers)
unfolding IsRead note_header note_content_length
note_header-IsRead name value headers valid h = ground arith

read_header-IsRead :
    (line : Bytes) (headers : Headers)
    → IsRangeText headers.range
    → IsRead (read_header line headers)
unfolding IsRead read_header
read_header-IsRead line headers h = grind (arith, note_header-IsRead)

and_then-IsRead :
    (outcome : Outcome) (next : Headers → Outcome)
    → IsRead outcome
    → ((headers : Headers) → IsRangeText headers.range → IsRead (next headers))
    → IsRead (and_then outcome next)
unfolding IsRead and_then
and_then-IsRead (stop status) next h later = h
and_then-IsRead (continue headers) next h later = later headers h

next_line-IsRead :
    (read : Bytes → Bytes → Outcome) (headers : Headers) (line : Option (Bytes × Bytes))
    → IsRangeText headers.range
    → ((text behind : Bytes) → IsRead (read text behind))
    → IsRead (next_line read headers line)
unfolding IsRead next_line
next_line-IsRead read headers none h later = ground arith
next_line-IsRead read headers (some (text, behind)) h later = ground (arith, later text behind)

read_headers-IsRead :
    (budget : ℕ) (rest : Bytes) (headers : Headers)
    → IsRangeText headers.range
    → IsRead (read_headers budget rest headers)
unfolding IsRead read_headers
read_headers-IsRead zero rest headers h =
    let body =
      next_line-IsRead (λ line behind. stop RequestParseStatus.header_too_large) headers
        (split_line rest) h (λ line behind. ground arith) in
    ground (arith, body)
read_headers-IsRead (suc budget) rest headers h =
    let body =
      next_line-IsRead
        (λ line behind. and_then (read_header line headers) (read_headers budget behind)) headers
        (split_line rest) h
        (λ line behind.
          and_then-IsRead (read_header line headers) (read_headers budget behind)
            (read_header-IsRead line headers h) (read_headers-IsRead budget behind)) in
    elim (leb (length rest) 2)
      as (λ b. IsRead (
        if b
        then continue headers
        else next_line
            (λ line behind. and_then (read_header line headers) (read_headers budget behind))
            headers (split_line rest))) [ true ↦ h | false ↦ body ]

-- What the parser returns: the status is `ok` exactly where there is a request, and a request's
-- target and range are well formed.
unfoldable pub IsAdmitted : RequestParseResult → Type 0
unfolding IsRangeText
IsAdmitted result = elim result.request [
  | none ↦ result.status ≢ RequestParseStatus.ok
  | some request ↦
      (result.status ≡ RequestParseStatus.ok)
      × (valid_target request.target ≡ true)
      × IsRangeText request.range
]

finish-IsAdmitted :
    (method : HttpMethod) (target : Bytes) (outcome : Outcome)
    → valid_target target ≡ true
    → IsRead outcome
    → IsAdmitted (finish method target outcome)
unfolding IsAdmitted IsRead finish
finish-IsAdmitted method target (stop status) valid h = ground arith
finish-IsAdmitted method target (continue headers) valid h = ground arith

parse_method-IsAdmitted :
    (method : Option HttpMethod) (target rest : Bytes)
    → valid_target target ≡ true
    → IsAdmitted (parse_method method target rest)
unfolding IsAdmitted parse_method
parse_method-IsAdmitted none target rest valid = ground arith
parse_method-IsAdmitted (some method) target rest valid =
    let headers : Headers = record { range = none; content_length = none } in
    finish-IsAdmitted method target (read_headers 64 rest headers) valid
      (read_headers-IsRead 64 rest headers tt)

checked_parts-IsAdmitted :
    (named valid known : Bool) (method : Option HttpMethod) (target rest : Bytes)
    → valid_target target ≡ valid
    → IsAdmitted (
        if not named || not valid || not known
        then rejected RequestParseStatus.malformed
        else parse_method method target rest)
unfolding IsAdmitted
checked_parts-IsAdmitted false valid known method target rest e = ground arith
checked_parts-IsAdmitted true false known method target rest e = ground arith
checked_parts-IsAdmitted true true false method target rest e = ground arith
checked_parts-IsAdmitted true true true method target rest e =
    parse_method-IsAdmitted method target rest e

parse_parts-IsAdmitted : (line : RequestLine) (rest : Bytes) → IsAdmitted (parse_parts line rest)
unfolding parse_parts
parse_parts-IsAdmitted line rest =
    checked_parts-IsAdmitted (valid_header_name line.method_text) (valid_target line.target)
      (known_version line.version) (method_of line.method_text) line.target rest refl

parse_request_line-IsAdmitted :
    (parts : Option RequestLine) (rest : Bytes) → IsAdmitted (parse_request_line parts rest)
unfolding IsAdmitted parse_request_line
parse_request_line-IsAdmitted none rest = ground arith
parse_request_line-IsAdmitted (some parts) rest = parse_parts-IsAdmitted parts rest

parse_lines-IsAdmitted : (line : Option (Bytes × Bytes)) → IsAdmitted (parse_lines line)
unfolding IsAdmitted parse_lines
parse_lines-IsAdmitted none = ground arith
parse_lines-IsAdmitted (some (line, rest)) =
    ground (arith, parse_request_line-IsAdmitted (split_request_line line) rest)

-- Every result of the request parser is admitted: `ok` exactly with a request, whose target is
-- valid and whose range, if it has one, is a header value that is not empty.
pub parse_http_request_head-IsAdmitted :
    (request_head : Bytes) → IsAdmitted (parse_http_request_head request_head)
unfolding IsAdmitted parse_http_request_head
parse_http_request_head-IsAdmitted request_head =
    ground (arith, parse_lines-IsAdmitted (split_line request_head))
