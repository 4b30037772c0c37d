-- ===== src/Http/Server/Connection/Admits.antt =====
-- `handle_connection` of src/http/loopback_server.cpp: which requests reach the handler.
use nuvio_engine.Common.{◌≡◌, refl, ap, Bool, true, false, List, Option, none, some}
use nuvio_engine.Http.Protocol.{HttpRequest, RequestParseStatus, valid_target}
use nuvio_engine.Http.Protocol.Request.{parse_http_request_head}
use nuvio_engine.Http.Protocol.Admitted.{
  IsAdmitted, IsRangeText, parse_http_request_head-IsAdmitted,
}
use nuvio_engine.Http.Server.Send.{SendCall}
use nuvio_engine.Http.Server.Receive.{RecvCall, Receiving, waiting, returned, receive_request_head}
use nuvio_engine.Http.Server.Connection.{
  HandlerRun, answered, finish_request, answer, answer_parsed, handle_received, handle_connection,
}

-- Two handlers that agree on the requests that the parser admits.
abbrev pub Agree : (HttpRequest → HandlerRun) → (HttpRequest → HandlerRun) → Type 0
Agree f g =
    (request : HttpRequest)
    → valid_target request.target ≡ true
    → IsRangeText request.range
    → f request ≡ g request

module _ (f g : HttpRequest → HandlerRun) (agree : Agree f g) (error_calls : List SendCall) where
  answer_agrees :
      (status : RequestParseStatus) (request : Option HttpRequest)
      → IsAdmitted (record { status = status; request = request })
      → answer f error_calls status request ≡ answer g error_calls status request
  unfolding answer IsAdmitted
  answer_agrees RequestParseStatus.ok none h = refl
  answer_agrees RequestParseStatus.ok (some request) h =
      ap (finish_request error_calls) (agree request h.1 h.2)
  answer_agrees RequestParseStatus.malformed request h = refl
  answer_agrees RequestParseStatus.method_not_allowed request h = refl
  answer_agrees RequestParseStatus.header_too_large request h = refl

  received_agrees :
      (receiving : Receiving)
      → handle_received f error_calls receiving ≡ handle_received g error_calls receiving
  unfolding handle_received answer_parsed
  received_agrees waiting = refl
  received_agrees (returned (some head) exceeded) =
      let parsed = parse_http_request_head head in
      ap answered
        (answer_agrees parsed.status parsed.request (parse_http_request_head-IsAdmitted head))
  received_agrees (returned none true) = refl
  received_agrees (returned none false) = refl

  -- The handler is called with admitted requests alone: two handlers that agree on every request
  -- with a valid target and a well-formed range answer every connection alike.
  pub handle_connection_admits :
      (connected : Bool) (calls : List RecvCall)
      → handle_connection f error_calls connected calls
        ≡ handle_connection g error_calls connected calls
  unfolding handle_connection
  handle_connection_admits true calls = received_agrees (receive_request_head calls)
  handle_connection_admits false calls = refl
