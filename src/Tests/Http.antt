-- ===== src/Tests/Http.antt =====
-- The range parser, the request parser and the response builder on concrete texts.
use nuvio_engine.Common.{
  ◌-◌, ◌≡◌, refl, true, ◌||◌, [], ◌∷◌, ◌++◌, some, Bytes, arith, min, ltb, leb, ◌==◌, if◌then◌else◌,
}
use nuvio_engine.Text.{find_byte, split_at_byte, strip_prefix, trim, codes}
use nuvio_engine.Text.Decimal.{scan_digits, to_string, parse_unsigned}
use nuvio_engine.Http.ByteRange.{
  failed, served, partial, unsatisfiable, multiple_ranges_unsupported, length, parse_range_header,
}
use nuvio_engine.Http.ByteRange.Bounds.{IsSound, parse_range_header-IsSound}
use nuvio_engine.Http.ByteRange.Print.{parse_range_header-printed}
use nuvio_engine.Http.Protocol.{HttpRequest, HttpMethod, RequestParseStatus}
use nuvio_engine.Http.Protocol.Request.{parse_http_request_head}
use nuvio_engine.Http.Protocol.Response.{crlf, build_stream_response}
use nuvio_engine.Http.Protocol.Admitted.{IsAdmitted, parse_http_request_head-IsAdmitted}

suffix_run : parse_range_header (codes " bytes=-500 ") 1000 ≡ served partial 500 999
unfolding parse_range_header trim strip_prefix find_byte split_at_byte parse_unsigned scan_digits
suffix_run = refl

several_run : parse_range_header (codes "bytes=0-1,3-4") 1000 ≡ failed multiple_ranges_unsupported
unfolding parse_range_header trim strip_prefix find_byte
several_run = refl

abbrev request_head : Bytes
request_head =
    codes "GET /stream/1 HTTP/1.1"
    ++ crlf
    ++ codes "Range: bytes=2-9"
    ++ crlf
    ++ codes "Content-Length: 0"
    ++ crlf
    ++ crlf

abbrev request : HttpRequest
request = record {
  method = HttpMethod.get;
  target = codes "/stream/1";
  range = some (codes "bytes=2-9");
}

request_run :
    parse_http_request_head request_head
    ≡ record { status = RequestParseStatus.ok; request = some request }
unfolding parse_http_request_head scan_digits
request_run = refl

unfinished_run :
    (parse_http_request_head (codes "GET / HTTP/1.1")).status ≡ RequestParseStatus.malformed
unfolding parse_http_request_head
unfinished_run = refl

body_run : (build_stream_response request 100 (codes "video/mp4")).include_body ≡ true
unfolding build_stream_response trim strip_prefix split_at_byte parse_unsigned scan_digits length
body_run = refl

parse_range_header-IsSound_example : IsSound 100 (parse_range_header (codes "bytes=2-9") 100)
parse_range_header-IsSound_example = parse_range_header-IsSound (codes "bytes=2-9") 100

parse_range_header-printed_example :
    (parse_range_header (codes "bytes=" ++ (to_string 2 ++ b'-' ∷ to_string 900)) 100 ≡ (
      if leb 100 2 || ltb 900 2
      then failed unsatisfiable
      else served partial 2 (min 900 (100 - 1))))
    × (parse_range_header (codes "bytes=" ++ (to_string 2 ++ b'-' ∷ [])) 100
        ≡ (if leb 100 2 then failed unsatisfiable else served partial 2 (100 - 1)))
    × (parse_range_header (codes "bytes=" ++ (b'-' ∷ to_string 900)) 100 ≡ (
        if 900 == 0 || 100 == 0
        then failed unsatisfiable
        else served partial (100 - 900) (100 - 1)))
parse_range_header-printed_example =
    parse_range_header-printed 2 900 100 (omega arith) (omega arith)

parse_http_request_head-IsAdmitted_example : IsAdmitted (parse_http_request_head request_head)
parse_http_request_head-IsAdmitted_example = parse_http_request_head-IsAdmitted request_head
