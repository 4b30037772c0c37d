-- ===== src/Http/Server/Connection/Handled.antt =====
-- `handle_connection` of src/http/loopback_server.cpp: what is sent on a connection, and why.
use nuvio_engine.Common.{
  ◌≡◌, ◌≢◌, refl, sym, ap, ◌∙◌, subst, ◌⊎◌, inl, inr, Bool, true, false, List, [], ◌∷◌, ◌++◌,
  Option, none, some, Bytes, Bool-cases,
}
use mathlib.Core.List.{append-nil}
use nuvio_engine.Http.Protocol.{HttpRequest, RequestParseStatus, ResponseStatus}
use nuvio_engine.Http.Protocol.Request.{parse_http_request_head}
use nuvio_engine.Http.Protocol.Response.{build_error_response}
use nuvio_engine.Http.Server.Send.{SendCall}
use nuvio_engine.Http.Server.Receive.{RecvCall, Receiving, waiting, returned, receive_request_head}
use nuvio_engine.Http.Server.Connection.{
  Write, HandlerRun, Handling, blocked, answered, wrote_response, transmit, sends, finish_request,
  refusal_status, answer, answer_parsed, handle_received, handle_connection,
}
use nuvio_engine.Http.Server.Connection.Sent.{
  flat, IsSent, AreSent, AreEmpty, flat-append, transmit-IsSent, sends-AreSent, silent-AreEmpty,
  flat-sends, nothing_wrote,
}

true-false : true ≡ false → ⊥
true-false h = cc

malformed-ok : RequestParseStatus.malformed ≢ RequestParseStatus.ok
malformed-ok e = cc

method-ok : RequestParseStatus.method_not_allowed ≢ RequestParseStatus.ok
method-ok e = cc

large-ok : RequestParseStatus.header_too_large ≢ RequestParseStatus.ok
large-ok e = cc

module _ (handler : HttpRequest → HandlerRun) (error_calls : List SendCall) where
  -- The head that was received is parsed to this request.
  abbrev pub Requested : Receiving → HttpRequest → Type 0
  Requested receiving request =
      (head : Bytes) × (exceeded : Bool) × (receiving ≡ returned (some head) exceeded)
      × (parse_http_request_head head
          ≡ record { status = RequestParseStatus.ok; request = some request })

  -- The response to a head that the parser refuses.
  abbrev pub Refusal : RequestParseStatus → ResponseStatus → Type 0
  Refusal RequestParseStatus.ok status = status ≡ ResponseStatus.bad_request
  Refusal RequestParseStatus.malformed status = status ≡ ResponseStatus.bad_request
  Refusal RequestParseStatus.method_not_allowed status = status ≡ ResponseStatus.method_not_allowed
  Refusal RequestParseStatus.header_too_large status =
      status ≡ ResponseStatus.request_header_fields_too_large

  -- Why an error is answered: the head is too large, or refused, or the handler wrote nothing and
  -- nobody asked it to stop.
  abbrev pub Cause : Receiving → ResponseStatus → Type 0
  Cause receiving status =
      ((receiving ≡ returned none true) × (status ≡ ResponseStatus.request_header_fields_too_large))
      ⊎ (((head : Bytes) × (exceeded : Bool) × (receiving ≡ returned (some head) exceeded)
            × (((parse_http_request_head head).status ≢ RequestParseStatus.ok)
                ⊎ ((parse_http_request_head head).request ≡ none))
            × Refusal (parse_http_request_head head).status status)
          ⊎ ((request : HttpRequest) × Requested receiving request
              × AreEmpty (handler request).writes
              × ((handler request).stop_requested ≡ false)
              × (status ≡ ResponseStatus.internal_server_error)))

  -- Why nothing is answered: there is no head, or the handler wrote nothing and was asked to stop.
  abbrev pub Silence : Receiving → Type 0
  Silence receiving =
      (receiving ≡ returned none false)
      ⊎ ((request : HttpRequest) × Requested receiving request
          × AreEmpty (handler request).writes
          × ((handler request).stop_requested ≡ true))

  -- Nothing is sent, or one error response as far as it goes, or the handler's texts.
  abbrev pub IsSingle : Receiving → List Bytes → Type 0
  IsSingle receiving texts =
      ((flat texts ≡ []) × Silence receiving)
      ⊎ (((status : ResponseStatus) × Cause receiving status
            × IsSent error_calls (build_error_response status 0) (flat texts))
          ⊎ ((request : HttpRequest) × Requested receiving request
              × ¬ AreEmpty (handler request).writes
              × AreSent (handler request).writes texts))

  error-IsSingle :
      (receiving : Receiving) (status : ResponseStatus)
      → Cause receiving status
      → IsSingle receiving (transmit error_calls (build_error_response status 0) ∷ [])
  error-IsSingle receiving status cause = inr (
      inl (
        status,
        cause,
        subst (IsSent error_calls (build_error_response status 0))
            (sym (append-nil (transmit error_calls (build_error_response status 0))))
            (transmit-IsSent error_calls (build_error_response status 0)),
      ))

  error_alone :
      (writes : List Write)
      → AreEmpty writes
      → transmit error_calls (build_error_response ResponseStatus.internal_server_error 0)
        ≡ flat (
            sends writes
            ++ transmit error_calls (build_error_response ResponseStatus.internal_server_error 0)
              ∷ [])
  error_alone writes empty =
      let front =
        transmit error_calls (build_error_response ResponseStatus.internal_server_error 0) in
      sym (rw (flat-append (sends writes) (front ∷ []), flat-sends writes empty) (append-nil front))

  finish_request-IsSingle :
      (receiving : Receiving) (request : HttpRequest)
      → Requested receiving request
      → IsSingle receiving (finish_request error_calls (handler request))
  unfolding finish_request
  finish_request-IsSingle receiving request asked =
      let run = handler request in
      elim (Bool-cases (wrote_response run.writes)) [
        | inl wrote ↦ rw wrote (
            inr (
              inr (
                request,
                asked,
                (λ empty. true-false (sym wrote ∙ nothing_wrote run.writes empty)),
                sends-AreSent run.writes,
              )))
        | inr silent ↦
            let empty = silent-AreEmpty run.writes silent in
            elim (Bool-cases run.stop_requested) [
              | inl stops ↦
                  rw (silent, stops)
                    (inl (flat-sends run.writes empty, inr (request, asked, empty, stops)))
              | inr goes_on ↦
                  rw (silent, goes_on)
                    (inr (
                      inl (
                        ResponseStatus.internal_server_error,
                        inr (inr (request, asked, empty, goes_on, refl)),
                        subst
                            (IsSent error_calls
                              (build_error_response ResponseStatus.internal_server_error 0))
                            (error_alone run.writes empty)
                            (transmit-IsSent error_calls
                              (build_error_response ResponseStatus.internal_server_error 0)),
                      )))
            ]
      ]

  -- By the result of the parser.
  answer-IsSingle :
      (head : Bytes) (exceeded : Bool) (status : RequestParseStatus) (request : Option HttpRequest)
      → parse_http_request_head head ≡ record { status = status; request = request }
      → IsSingle (returned (some head) exceeded) (answer handler error_calls status request)
  unfolding answer refusal_status
  answer-IsSingle head exceeded RequestParseStatus.ok (some request) e =
      finish_request-IsSingle (returned (some head) exceeded) request (head, exceeded, refl, e)
  answer-IsSingle head exceeded RequestParseStatus.ok none e =
      error-IsSingle (returned (some head) exceeded) ResponseStatus.bad_request (
        inr (
          inl (
            head,
            exceeded,
            refl,
            inr (ap (λ p. p.request) e),
            subst (λ p. Refusal p.status ResponseStatus.bad_request) (sym e) refl,
          )))
  answer-IsSingle head exceeded RequestParseStatus.malformed request e =
      error-IsSingle (returned (some head) exceeded) ResponseStatus.bad_request (
        inr (
          inl (
            head,
            exceeded,
            refl,
            inl (λ k. absurd (malformed-ok (sym (ap (λ p. p.status) e) ∙ k))),
            subst (λ p. Refusal p.status ResponseStatus.bad_request) (sym e) refl,
          )))
  answer-IsSingle head exceeded RequestParseStatus.method_not_allowed request e =
      error-IsSingle (returned (some head) exceeded) ResponseStatus.method_not_allowed (
        inr (
          inl (
            head,
            exceeded,
            refl,
            inl (λ k. absurd (method-ok (sym (ap (λ p. p.status) e) ∙ k))),
            subst (λ p. Refusal p.status ResponseStatus.method_not_allowed) (sym e) refl,
          )))
  answer-IsSingle head exceeded RequestParseStatus.header_too_large request e =
      error-IsSingle (returned (some head) exceeded) ResponseStatus.request_header_fields_too_large
        (inr (
          inl (
            head,
            exceeded,
            refl,
            inl (λ k. absurd (large-ok (sym (ap (λ p. p.status) e) ∙ k))),
            subst (λ p. Refusal p.status ResponseStatus.request_header_fields_too_large) (sym e)
                refl,
          )))

  -- Nothing on a closed connection, and nothing while the head is not complete.
  abbrev pub IsHandled : Bool → List RecvCall → Handling → Type 0
  IsHandled connected calls handling =
      ((connected ≡ false) × (handling ≡ answered []))
      ⊎ (((receive_request_head calls ≡ waiting) × (handling ≡ blocked))
          ⊎ ((texts : List Bytes) × (handling ≡ answered texts)
              × IsSingle (receive_request_head calls) texts))

  received-IsHandled :
      (calls : List RecvCall) (receiving : Receiving)
      → receive_request_head calls ≡ receiving
      → IsHandled true calls (handle_received handler error_calls receiving)
  unfolding handle_received answer_parsed
  received-IsHandled calls waiting e = inr (inl (e, refl))
  received-IsHandled calls (returned (some head) exceeded) e =
      let texts =
        answer handler error_calls (parse_http_request_head head).status
          (parse_http_request_head head).request in
      inr (
        inr (
          texts,
          refl,
          subst (λ r. IsSingle r texts) (sym e)
              (answer-IsSingle head exceeded (parse_http_request_head head).status
                (parse_http_request_head head).request refl),
        ))
  received-IsHandled calls (returned none true) e =
      let status = ResponseStatus.request_header_fields_too_large in
      inr (
        inr (
          transmit error_calls (build_error_response status 0) ∷ [],
          refl,
          error-IsSingle (receive_request_head calls) status (inl (e, refl)),
        ))
  received-IsHandled calls (returned none false) e = inr (inr ([], refl, inl (refl, inl e)))

  -- A connection never gets two responses. What is sent on an open one, whose head is complete, is the
  -- texts of the handler, run with the request that the parser reads from the received head, each as
  -- far as `send_all` comes with it and none on a socket that is closed meanwhile; or, if these have no byte and the handler was not asked to stop,
  -- the error response of an internal error; or, if the head is too large or the parser refuses it,
  -- the error response for that, each again as far as `send_all` comes; or nothing, where there is no
  -- head or the handler wrote no byte and was asked to stop. On a closed connection, and while the head
  -- is not complete, nothing is sent.
  pub handle_connection-IsHandled :
      (connected : Bool) (calls : List RecvCall)
      → IsHandled connected calls (handle_connection handler error_calls connected calls)
  unfolding handle_connection
  handle_connection-IsHandled true calls =
      received-IsHandled calls (receive_request_head calls) refl
  handle_connection-IsHandled false calls = inl (refl, refl)
