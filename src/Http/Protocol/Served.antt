-- ===== src/Http/Protocol/Served.antt =====
-- What `build_stream_response` answers: its status, its body range and its flag for the body.
use nuvio_engine.Common.{ℕ, ◌+◌, ◌≡◌, true, false, Option, none, some, Bytes, ◌⊎◌}
use nuvio_engine.Text.{is_empty, trim}
use nuvio_engine.Http.ByteRange.{ByteRange, RangeStatus, full, partial, RangeResult}
use nuvio_engine.Http.ByteRange as B
use nuvio_engine.Http.ByteRange.Bounds.{Fits}
use nuvio_engine.Http.Protocol.{HttpRequest, ResponseStatus, StreamResponse}
use nuvio_engine.Http.Protocol.Response.{head_text, range_text, build_error_response, is_get}

-- The range is the whole resource, or there is none for it is empty.
abbrev IsWhole : ℕ → Option ByteRange → Type 0
IsWhole size none = size ≡ 0
IsWhole size (some range) = (range.start ≡ 0) × (range.end + 1 ≡ size)

-- The whole resource is the answer to an empty text, and a part that to another one.
record IsKind (header : Bytes) (size : ℕ) (r : RangeResult) : Type 0 where
  full : r.status ≡ RangeStatus.full → (is_empty (trim header) ≡ true) × IsWhole size r.range
  partial : r.status ≡ RangeStatus.partial → is_empty (trim header) ≡ false

-- The answer to a request for a resource of the size. With a range, that is a part of the resource
-- under the head for it, and the body is sent to a `GET`; the status is 200 exactly for the whole
-- resource, without a text for the range, and 206 with one. Without a range, no body is sent, and the
-- head is that of an error or, for a request without a text for the range, of an empty resource.
unfoldable pub IsServed : HttpRequest → ℕ → Bytes → StreamResponse → Type 0
unfolding is_get
IsServed request size content_type response = elim response.body_range [
  | some range ↦
      Fits size range
      × (response.include_body ≡ is_get request.method)
      × (response.headers ≡ head_text response.status (some range) content_type size)
      × ((response.status ≡ ResponseStatus.ok)
            × (is_empty (trim (range_text request)) ≡ true)
            × (range.start ≡ 0)
            × (range.end + 1 ≡ size)
          ⊎ (response.status ≡ ResponseStatus.partial_content)
            × (is_empty (trim (range_text request)) ≡ false))
  | none ↦
      (response.include_body ≡ false)
      × ((response.status ≡ ResponseStatus.ok)
            × (size ≡ 0)
            × (is_empty (trim (range_text request)) ≡ true)
            × (response.headers ≡ head_text ResponseStatus.ok none content_type size)
          ⊎ (response.headers ≡ build_error_response ResponseStatus.bad_request 0)
            × (response.status ≡ ResponseStatus.bad_request)
          ⊎ (response.headers ≡ build_error_response ResponseStatus.range_not_satisfiable size)
            × (response.status ≡ ResponseStatus.range_not_satisfiable))
]
