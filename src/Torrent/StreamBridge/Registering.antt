-- ===== src/Torrent/StreamBridge/Registering.antt =====
-- src/torrent/libtorrent_stream_bridge.cpp: `register_stream`.
use nuvio_engine.Common.{
  ℕ, ◌-◌, true, false, List, [], ◌∷◌, ◌++◌, none, some, Bytes, bytes_eq, ltb, ◌==◌, if◌then◌else◌,
  bytes_eq_instance, nat_eq,
}
use nuvio_engine.Text.{codes}
use nuvio_engine.Std.Results.{Result, ok, throws, runtime_error}
use nuvio_engine.Std.Shared.{modify}
use nuvio_engine.Std.UnorderedMap.{insert_or_assign, erase, erase_if}
use nuvio_engine.Cache.PieceCache.{key_eq_instance}
use nuvio_engine.Scheduler.DemandWindow.{blocking_demand_range}
use nuvio_engine.Torrent.StreamBridge.{StreamRoute, content_type_for_path}
use nuvio_engine.Torrent.StreamBridge.State.{Bridge, Library}
use nuvio_engine.Torrent.StreamBridge.Recompute.{recompute_schedule}
use nuvio_engine.Torrent.StreamBridge.Streams.{stop_stream}

-- The arguments of `register_stream` that describe the file, the random token and the save path.
pub record Registration : Type 0 where
  pub handle : ℕ
  pub torrent_id : Bytes
  pub file_index : ℕ
  pub path : Bytes
  pub offset : ℕ
  pub size : ℕ
  pub token : Bytes
  pub activity : ℕ

unfoldable pub route_for : Library → Registration → ℕ → StreamRoute
unfolding content_type_for_path
route_for library r piece_length = record {
  handle = r.handle;
  torrent_id = r.torrent_id;
  stream_id = r.token;
  target = codes "/stream/" ++ r.token;
  content_type = content_type_for_path r.path;
  file_index = r.file_index;
  piece_size = piece_length;
  file_offset = r.offset;
  file_size = r.size;
  payload_path = library.file_path r.handle r.file_index;
  activity = r.activity;
}

unfoldable pub streams_of : Bytes → List (Bytes × StreamRoute) → List Bytes
unfolding bytes_eq
streams_of id [] = []
streams_of id ((target, route) ∷ routes) =
    let rest = streams_of id routes in
    if bytes_eq route.torrent_id id then route.stream_id ∷ rest else rest

unfoldable pub stop_streams : Library → ℕ → List Bytes → Bridge → Bridge
unfolding stop_stream
stop_streams library now [] s = s
stop_streams library now (stream_id ∷ streams) s =
    stop_streams library now streams (stop_stream library now stream_id s).1

-- The first demand is the start of the file; an exception leaves the route in place.
unfoldable pub prefetch_route : Library → ℕ → StreamRoute → Bridge → Bridge × Result Bytes
unfolding insert_or_assign recompute_schedule
prefetch_route library now route s =
    elim (blocking_demand_range (record { start = 0; end = route.file_size - 1 }) 0
      route.file_offset route.piece_size) [
        | throws e ↦ (s, throws e)
        | ok range ↦ (
          recompute_schedule library now route.torrent_id (record s {
            anchors =
                insert_or_assign route.torrent_id
                  (record { route = route; range = range; prefetch = true }) s.anchors;
          }),
          ok route.stream_id,
        )
      ]

unfoldable pub add_route : Library → ℕ → StreamRoute → Bridge → Bridge × Result Bytes
unfolding streams_of stop_streams insert_or_assign erase erase_if prefetch_route bytes_eq
add_route library now route s =
    let stopped = stop_streams library now (streams_of route.torrent_id s.routes) s in
    let added = record stopped {
      routes = insert_or_assign route.target route stopped.routes;
      next_progress_sample = 0;
      last_ready_pieces = erase route.torrent_id stopped.last_ready_pieces;
      revoked_torrents = erase_if (λ id. bytes_eq id route.torrent_id) stopped.revoked_torrents;
    } in
    if ltb 0 route.file_size
    then prefetch_route library now route added
    else (added, ok route.stream_id)

-- The result is the stream's identifier: the address is made of it and of the server's port.
unfoldable pub register_stream : Library → ℕ → Registration → Bridge → Bridge × Result Bytes
unfolding route_for add_route modify
register_stream library now r s = elim (s.shutting_down) [
  | true ↦ (s, throws runtime_error)
  | false ↦ elim (library.piece_length r.handle) [
    | none ↦ (s, throws runtime_error)
    | some piece_length ↦
        if piece_length == 0
        then (s, throws runtime_error)
        else add_route library now (route_for library r piece_length) (record s {
          activities =
              modify r.activity (λ a. record { active_http_requests = 0; last_activity = now })
                s.activities;
        })
  ]
]
