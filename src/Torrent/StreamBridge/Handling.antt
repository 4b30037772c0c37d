-- ===== src/Torrent/StreamBridge/Handling.antt =====
-- src/torrent/libtorrent_stream_bridge.cpp: `handle_http` up to the loop over the body and after it, and
-- `statistics`. A request holds its stream's activity until it ends.
pub mod Lease
use nuvio_engine.Common.{
  ℕ, ◌+◌, ◌%◌, List, [], ◌∷◌, none, some, Bytes, length, min, u32_max, u64_mod, if◌then◌else◌,
  bytes_eq_instance,
}
use nuvio_engine.Std.Results.{Exception, ok, throws}
use nuvio_engine.Std.Shared.{modify}
use nuvio_engine.Std.UnorderedMap.{lookup}
use nuvio_engine.Http.ByteRange.{ByteRange}
use nuvio_engine.Http.Protocol.{HttpRequest, StreamResponse, not_found, service_unavailable}
use nuvio_engine.Http.Protocol.Response.{build_stream_response, build_error_response}
use nuvio_engine.Cache.PieceCache.{PieceCacheStats, stats}
use nuvio_engine.Core.Runtime.Stats.{StreamState}
use nuvio_engine.Scheduler.DemandWindow.{blocking_demand_range}
use nuvio_engine.Torrent.StreamBridge.{StreamRoute, acquire_http_request, release_http_request}
use nuvio_engine.Torrent.StreamBridge.State.{HttpCommand, begin_demand, WaiterTable, Bridge}
use nuvio_engine.Torrent.StreamBridge.Poll.{enqueue, enqueue_end}
use nuvio_engine.Torrent.StreamBridge.Progress.{saturating_count}

-- What becomes of a request: one response is written, a demand is open and the body follows the head,
-- or an exception leaves the handler.
pub data Handling : Type 0 where
  responded : Bytes → Handling
  streaming : ℕ → StreamRoute → ByteRange → Bytes → Handling
  failed : Exception → Handling

unfoldable pub acquire : StreamRoute → Bridge → Bridge
unfolding modify acquire_http_request
acquire route s = record s { activities = modify route.activity acquire_http_request s.activities }

-- The destructor of `HttpRequestLease`.
unfoldable pub release : ℕ → StreamRoute → Bridge → Bridge
unfolding modify release_http_request
release now route s = record s {
  activities = modify route.activity (release_http_request now) s.activities;
}

-- `next_demand_id.fetch_add(1)`.
unfoldable pub take_id : Bridge → Bridge
take_id s = record s { next_demand_id = (s.next_demand_id + 1) % u64_mod }

abbrev pub demand_command : ℕ → ℕ → StreamRoute → ByteRange → HttpCommand
demand_command demand_id state route range = record {
  type = begin_demand;
  demand_id = demand_id;
  route = route;
  range = range;
  piece = 0;
  waiter = none;
  demand_state = some state;
}

-- The demand for the body.
unfoldable pub open_demand : ℕ → ℕ → StreamRoute → ByteRange → Bytes → Bridge → Bridge × Handling
unfolding take_id release enqueue build_error_response
open_demand now state route body headers s =
    let demand_id = s.next_demand_id in
    elim (blocking_demand_range body body.start route.file_offset route.piece_size) [
      | throws e ↦ (release now route (take_id s), failed e)
      | ok range ↦
          let queued = enqueue (demand_command demand_id state route range) (take_id s) in
          if queued.1
          then (queued.0, streaming demand_id route body headers)
          else (release now route queued.0, responded (build_error_response service_unavailable 0))
    ]

unfoldable pub respond : ℕ → ℕ → StreamRoute → StreamResponse → Bridge → Bridge × Handling
unfolding open_demand release
respond now state route response s = elim response.body_range [
  | none ↦ (release now route s, responded response.headers)
  | some body ↦
      if response.include_body
      then open_demand now state route body response.headers s
      else (release now route s, responded response.headers)
]

unfoldable pub handle_http : ℕ → ℕ → HttpRequest → Bridge → Bridge × Handling
unfolding respond acquire lookup build_stream_response build_error_response
handle_http now state request s = elim (lookup request.target s.routes) [
  | none ↦ (s, responded (build_error_response not_found 0))
  | some route ↦
      respond now state route (build_stream_response request route.file_size route.content_type)
        (acquire route s)
]

-- The end of the handler: the destructors of `DemandGuard` and of `HttpRequestLease`.
unfoldable pub finish_http : ℕ → Bridge × Handling → Bridge
unfolding release enqueue_end
finish_http now (s, responded response) = s
finish_http now (s, streaming demand_id route body headers) =
    release now route (enqueue_end demand_id s)
finish_http now (s, failed e) = s

unfoldable pub pending_reads : WaiterTable → ℕ → ℕ
pending_reads [] count = count
pending_reads ((key, ws) ∷ rest) count = pending_reads rest (min (count + length ws) u32_max)

pub record StreamBridgeStats : Type 0 where
  pub active_streams : ℕ
  pub active_http_requests : ℕ
  pub active_demands : ℕ
  pub pending_piece_reads : ℕ
  pub cache : PieceCacheStats
  pub streams : List StreamState

-- The count of the server's requests and the cached progress of the streams are arguments.
unfoldable pub statistics : ℕ → List StreamState → Bridge → StreamBridgeStats
unfolding saturating_count pending_reads stats
statistics requests stream_progress_cache s = record {
  active_streams = saturating_count (length s.routes);
  active_http_requests = requests;
  active_demands = saturating_count (length s.active_demands);
  pending_piece_reads = pending_reads s.piece_waiters 0;
  cache = stats s.piece_cache;
  streams = stream_progress_cache;
}
