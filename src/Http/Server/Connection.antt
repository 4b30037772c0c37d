-- ===== src/Http/Server/Connection.antt =====
-- `handle_connection`: a head is received and parsed, and either an error is answered or the handler
-- runs with a writer on the connection.
pub mod Sent
pub mod Handled
pub mod Admits
use nuvio_engine.Common.{
  take, Bool, true, false, ◌&&◌, ◌||◌, not, List, [], ◌∷◌, ◌++◌, Option, none, some, Bytes,
  if◌then◌else◌,
}
use nuvio_engine.Text.{is_empty}
use nuvio_engine.Http.Protocol.{HttpRequest, RequestParseStatus, RequestParseResult, ResponseStatus}
use nuvio_engine.Http.Protocol.Request.{parse_http_request_head}
use nuvio_engine.Http.Protocol.Response.{build_error_response}
use nuvio_engine.Http.Server.Send.{SendCall, send_all}
use nuvio_engine.Http.Server.Receive.{RecvCall, Receiving, waiting, returned, receive_request_head}

-- A call of the writer: whether the connection's socket is still open, the text, and how the calls of
-- `send` in `send_all` end.
pub record Write : Type 0 where
  pub connected : Bool
  pub bytes : Bytes
  pub calls : List SendCall

-- What a run of the handler does: its calls of the writer, and whether the request's token asks to
-- stop when it ends. It makes no difference here whether it returns or throws.
pub record HandlerRun : Type 0 where
  pub writes : List Write
  pub stop_requested : Bool

-- The bytes that the calls of `send_all` send in turn; `blocked` while the head is not complete.
pub data Handling : Type 0 where
  blocked : Handling
  answered : List Bytes → Handling

-- `wrote_response` after these calls of the writer.
unfoldable pub wrote_response : List Write → Bool
unfolding is_empty
wrote_response [] = false
wrote_response (w ∷ writes) = not (is_empty w.bytes) || wrote_response writes

-- The bytes of a text that `send_all` sends before it returns.
unfoldable pub transmit : List SendCall → Bytes → Bytes
unfolding send_all
transmit calls contents = take (send_all calls contents).offset contents

-- What the writer sends: nothing on a closed socket.
unfoldable pub sends : List Write → List Bytes
unfolding transmit
sends [] = []
sends (w ∷ writes) = if w.connected then transmit w.calls w.bytes ∷ sends writes else sends writes

-- With the calls of `send` for an error response.
unfoldable pub finish_request : List SendCall → HandlerRun → List Bytes
unfolding wrote_response sends transmit
finish_request calls run =
    if not (wrote_response run.writes) && not run.stop_requested
    then sends run.writes
      ++ transmit calls (build_error_response ResponseStatus.internal_server_error 0) ∷ []
    else sends run.writes

unfoldable pub refusal_status : RequestParseStatus → ResponseStatus
refusal_status RequestParseStatus.ok = ResponseStatus.bad_request
refusal_status RequestParseStatus.malformed = ResponseStatus.bad_request
refusal_status RequestParseStatus.method_not_allowed = ResponseStatus.method_not_allowed
refusal_status RequestParseStatus.header_too_large = ResponseStatus.request_header_fields_too_large

module _ (handler : HttpRequest → HandlerRun) (error_calls : List SendCall) where
  -- With the parser's status and request.
  unfoldable pub answer : RequestParseStatus → Option HttpRequest → List Bytes
  unfolding finish_request refusal_status transmit
  answer RequestParseStatus.ok (some request) = finish_request error_calls (handler request)
  answer status request = transmit error_calls (build_error_response (refusal_status status) 0) ∷ []

  unfoldable pub answer_parsed : RequestParseResult → List Bytes
  unfolding answer
  answer_parsed parsed = answer parsed.status parsed.request

  unfoldable pub handle_received : Receiving → Handling
  unfolding answer_parsed parse_http_request_head transmit
  handle_received waiting = blocked
  handle_received (returned (some head) exceeded) =
      answered (answer_parsed (parse_http_request_head head))
  handle_received (returned none true) = answered (
      transmit error_calls (build_error_response ResponseStatus.request_header_fields_too_large 0)
      ∷ [])
  handle_received (returned none false) = answered []

  -- A connection that is closed already is left alone.
  unfoldable pub handle_connection : Bool → List RecvCall → Handling
  unfolding handle_received receive_request_head
  handle_connection connected calls =
      if connected then handle_received (receive_request_head calls) else answered []
