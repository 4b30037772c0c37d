-- ===== src/Http/Server/Framing.antt =====
-- The receiver and the parser together.
use nuvio_engine.Common.{◌≡◌, refl, false, List, some, Bytes, arith, length, ltb, subst}
use nuvio_engine.Http.Protocol.Request.{parse_http_request_head, parse_lines, split_line}
use nuvio_engine.Http.Server.Receive.{
  RecvCall, Receiving, returned, receive_request_head, IsHead, IsReceived,
  receive_request_head-IsReceived,
}

parse-IsHead :
    (head : Bytes) → IsHead head → parse_http_request_head head ≡ parse_lines (split_line head)
unfolding parse_http_request_head
parse-IsHead head h =
    let small : ltb 16384 (length head) ≡ false = ground (arith, h.within) in
    rw (small, h.ended) refl

received-IsHead :
    (receiving : Receiving) (head : Bytes)
    → receiving ≡ returned (some head) false
    → IsReceived receiving
    → IsHead head
unfolding IsReceived
received-IsHead receiving head e r =
    let s : IsReceived (returned (some head) false) = subst IsReceived e r in s.0

-- The parser's tests of the size and of the final empty line never fail on a head that the server
-- received: it goes on to the lines.
pub parse_received_head :
    (calls : List RecvCall) (head : Bytes)
    → receive_request_head calls ≡ returned (some head) false
    → parse_http_request_head head ≡ parse_lines (split_line head)
parse_received_head calls head e =
    parse-IsHead head
      (received-IsHead (receive_request_head calls) head e (receive_request_head-IsReceived calls))
