-- ===== src/Torrent/StreamBridge/Handling/Lease.antt =====
-- src/torrent/libtorrent_stream_bridge.cpp: every request gives back its hold on the stream's activity.
use nuvio_engine.Common.{
  ℕ, zero, suc, ◌+◌, ◌-◌, ◌<◌, ◌≡◌, refl, ap, ◌∙◌, Bool, true, false, ◌||◌, Bool-cases, inl, inr,
  Bytes, length, u32_max, leb, ◌==◌, if◌then◌else◌, arith, bytes_eq_instance,
}
use nuvio_engine.Std.Shared.{modify}
use nuvio_engine.Std.UnorderedMap.{lookup}
use nuvio_engine.Http.ByteRange.{ByteRange}
use nuvio_engine.Http.Protocol.{HttpRequest, StreamResponse, service_unavailable}
use nuvio_engine.Http.Protocol.Response.{build_stream_response, build_error_response}
use nuvio_engine.Scheduler.DemandWindow.{blocking_demand_range}
use nuvio_engine.Torrent.StreamBridge.{StreamRoute, acquire_http_request, release_http_request}
use nuvio_engine.Torrent.StreamBridge.State.{HttpCommand, Bridge, maximum_http_commands}
use nuvio_engine.Torrent.StreamBridge.Kept.{by_if, by_option, by_result}
use nuvio_engine.Torrent.StreamBridge.Poll.{enqueue, enqueue_end}
use nuvio_engine.Torrent.StreamBridge.Handling.{
  Handling, responded, streaming, acquire, release, take_id, demand_command, open_demand, respond,
  handle_http, finish_http,
}

-- How many requests an activity counts.
abbrev pub requests_of : ℕ → Bridge → ℕ
requests_of activity s = (s.activities activity).active_http_requests

release_at :
    (now n last : ℕ)
    → (release_http_request now
        (record { active_http_requests = n; last_activity = last })).active_http_requests
      ≡ n - 1
unfolding release_http_request
release_at now zero last = omega arith
release_at now (suc zero) last = omega arith
release_at now (suc (suc n)) last = omega arith

-- One request less for the route's activity.
abbrev Less : StreamRoute → ℕ → Bridge → Bridge → Type 0
Less route k s t =
    requests_of k t ≡ (if k == route.activity then requests_of k s - 1 else requests_of k s)

release-Less :
    (now : ℕ) (route : StreamRoute) (k : ℕ) (s : Bridge) → Less route k s (release now route s)
unfolding release modify
release-Less now route k s = elim (Bool-cases (k == route.activity)) [
  | inl hit ↦ ground (arith, hit, release_at now (requests_of k s) (s.activities k).last_activity)
  | inr miss ↦ ground (arith, miss)
]

acquire_count :
    (route : StreamRoute) (k : ℕ) (s : Bridge)
    → requests_of k s < u32_max
    → requests_of k (acquire route s)
      ≡ (if k == route.activity then requests_of k s + 1 else requests_of k s)
unfolding acquire modify acquire_http_request
acquire_count route k s h = elim (Bool-cases (k == route.activity)) [
  | inl hit ↦ ground (arith, hit, h)
  | inr miss ↦ ground (arith, miss, h)
]

enqueue_requests :
    (command : HttpCommand) (k : ℕ) (s : Bridge)
    → requests_of k (enqueue command s).0 ≡ requests_of k s
unfolding enqueue
enqueue_requests command k s =
    by_if (λ (p : Bridge × Bool). requests_of k p.0 ≡ requests_of k s)
      (s.shutting_down || leb maximum_http_commands (length s.commands)) refl refl

-- The request is over.
abbrev Ends : ℕ → StreamRoute → ℕ → Bridge → Bridge × Handling → Type 0
Ends later route k s p = Less route k s (finish_http later p)

enqueued-Ends :
    (now later demand_id : ℕ) (route : StreamRoute) (body : ByteRange) (headers : Bytes) (k : ℕ)
    (s : Bridge) (queued : Bridge × Bool)
    → requests_of k queued.0 ≡ requests_of k s
    → Ends later route k s (
        if queued.1
        then (queued.0, streaming demand_id route body headers)
        else (release now route queued.0, responded (build_error_response service_unavailable 0)))
unfolding finish_http enqueue_end
enqueued-Ends now later demand_id route body headers k s (t, true) e =
    release-Less later route k (enqueue_end demand_id t)
    ∙ ap (λ n. if k == route.activity then n - 1 else n) e
enqueued-Ends now later demand_id route body headers k s (t, false) e =
    release-Less now route k t ∙ ap (λ n. if k == route.activity then n - 1 else n) e

open_demand-Ends :
    (now later state : ℕ) (route : StreamRoute) (body : ByteRange) (headers : Bytes) (k : ℕ)
    (s : Bridge)
    → Ends later route k s (open_demand now state route body headers s)
unfolding open_demand finish_http take_id
open_demand-Ends now later state route body headers k s =
    by_result (Ends later route k s)
      (blocking_demand_range body body.start route.file_offset route.piece_size)
      (λ e. release-Less now route k (take_id s))
      (λ range.
        let command = demand_command s.next_demand_id state route range in
        enqueued-Ends now later s.next_demand_id route body headers k s
          (enqueue command (take_id s)) (enqueue_requests command k (take_id s)))

respond-Ends :
    (now later state : ℕ) (route : StreamRoute) (response : StreamResponse) (k : ℕ) (s : Bridge)
    → Ends later route k s (respond now state route response s)
unfolding respond finish_http
respond-Ends now later state route response k s =
    by_option (Ends later route k s) response.body_range (release-Less now route k s) (λ body.
      by_if (Ends later route k s) response.include_body
        (open_demand-Ends now later state route body response.headers k s)
        (release-Less now route k s))

-- No request leaks its hold. Where an activity counts less than the largest 32-bit number of requests,
-- it counts as many after a request as before: whether the route is unknown, the response has no body,
-- the range has no demand, the queue is full or closed, or the body is streamed to its end.
pub finish_http-requests_of :
    (now later state : ℕ) (request : HttpRequest) (k : ℕ) (s : Bridge)
    → requests_of k s < u32_max
    → requests_of k (finish_http later (handle_http now state request s)) ≡ requests_of k s
unfolding handle_http finish_http
finish_http-requests_of now later state request k s h =
    by_option (λ (p : Bridge × Handling). requests_of k (finish_http later p) ≡ requests_of k s)
      (lookup request.target s.routes) refl
      (λ route.
        respond-Ends now later state route
          (build_stream_response request route.file_size route.content_type) k (acquire route s)
        ∙ back (k == route.activity) _ (acquire_count route k s h))
  where
    back :
        (same : Bool) (n : ℕ)
        → n ≡ (if same then requests_of k s + 1 else requests_of k s)
        → (if same then n - 1 else n) ≡ requests_of k s
    back true n e = omega (arith, e)
    back false n e = e
