-- ===== src/Torrent/StreamBridge/Streams.antt =====
-- src/torrent/libtorrent_stream_bridge.cpp: the streams, from their registration to the removal of their
-- torrent, and the end of the bridge.
use nuvio_engine.Common.{
  ℕ, ◌+◌, ◌/◌, Bool, true, false, ◌&&◌, ◌||◌, not, List, [], ◌∷◌, ◌++◌, Option, none, some, Bytes,
  bytes_eq, min, max, ltb, ◌==◌, if◌then◌else◌, bytes_eq_instance, nat_eq,
}
use nuvio_engine.Text.{codes}
use nuvio_engine.Std.Shared.{modify}
use nuvio_engine.Std.UnorderedMap.{lookup, erase, erase_if, insert}
use nuvio_engine.Cache.PieceCache.{key_eq_instance, erase_torrent, clear}
use nuvio_engine.Torrent.StreamBridge.{StreamRoute, is_inactive}
use nuvio_engine.Torrent.StreamBridge.State.{
  PieceKey, ActiveDemand, CurrentSchedule, StoppedStream, Bridge, Library, clear_piece_deadlines,
  call,
}
use nuvio_engine.Torrent.StreamBridge.Waiters.{
  is_empty, cancel_demand_waiters, drop_torrent_waiters, drop_all_waiters,
}
use nuvio_engine.Torrent.StreamBridge.Recompute.{recompute_schedule}

unfoldable pub route_is_active : StreamRoute → Bridge → Bool
unfolding lookup bytes_eq
route_is_active route s = elim (lookup route.target s.routes) [
  | none ↦ false
  | some active ↦
      bytes_eq active.stream_id route.stream_id && bytes_eq active.torrent_id route.torrent_id
]

unfoldable pub erase_anchor : Bytes → Bridge → Bridge
unfolding erase_if bytes_eq
erase_anchor stream_id s = record s {
  anchors = erase_if (λ entry. bytes_eq entry.1.route.stream_id stream_id) s.anchors;
}

unfoldable pub cancel_state : Option ℕ → Bridge → Bridge
unfolding modify
cancel_state none s = s
cancel_state (some state) s = record s { states = modify state (λ cancelled. true) s.states }

unfoldable pub has_active_demand : Bytes → List (ℕ × ActiveDemand) → Bool
unfolding bytes_eq
has_active_demand stream_id [] = false
has_active_demand stream_id ((id, demand) ∷ demands) =
    bytes_eq demand.route.stream_id stream_id || has_active_demand stream_id demands

unfoldable pub expires : ℕ → Bridge → StreamRoute → Bool
unfolding has_active_demand is_inactive
expires now s route =
    not (has_active_demand route.stream_id s.active_demands)
    && is_inactive now s.inactivity_timeout (s.activities route.activity)

-- The streams that leave the table of routes.
unfoldable pub expired_of : (StreamRoute → Bool) → List (Bytes × StreamRoute) → List StoppedStream
expired_of gone [] = []
expired_of gone ((target, route) ∷ routes) =
    let rest = expired_of gone routes in
    if gone route
    then record { torrent_id = route.torrent_id; stream_id = route.stream_id } ∷ rest
    else rest

unfoldable pub expire_all : Library → ℕ → List StoppedStream → Bridge → Bridge
unfolding erase_anchor recompute_schedule
expire_all library now [] s = s
expire_all library now (stream ∷ expired) s =
    let planned =
      recompute_schedule library now stream.torrent_id (erase_anchor stream.stream_id s) in
    expire_all library now expired
      (record planned { expired_streams = planned.expired_streams ++ stream ∷ [] })

-- The times are in milliseconds.
unfoldable pub expire_inactive_streams : Library → ℕ → Bridge → Bridge
unfolding expires expired_of expire_all erase_if
expire_inactive_streams library now s =
    if s.inactivity_timeout == 0 || ltb now s.next_inactivity_check
    then s
    else (let expired = expired_of (expires now s) s.routes in
        expire_all library now expired (record s {
          next_inactivity_check = now + min (max (s.inactivity_timeout / 2) 25) 1000;
          routes = erase_if (λ entry. expires now s entry.1) s.routes;
          next_progress_sample = if is_empty expired then s.next_progress_sample else 0;
        }))

unfoldable pub pop_expired_streams : Bridge → Bridge × List StoppedStream
pop_expired_streams s = (record s { expired_streams = [] }, s.expired_streams)

-- The loop over the demands, with the torrent's identifier so far.
unfoldable pub stop_demands : Bytes → List (ℕ × ActiveDemand) → Bytes → Bridge → Bytes × Bridge
unfolding bytes_eq cancel_state cancel_demand_waiters erase
stop_demands stream_id [] id s = (id, s)
stop_demands stream_id ((demand_id, demand) ∷ demands) id s =
    elim (bytes_eq demand.route.stream_id stream_id) [
      | false ↦ stop_demands stream_id demands id s
      | true ↦
          let cancelled =
            cancel_demand_waiters demand_id (codes "stream was stopped")
              (cancel_state demand.state s) in
          stop_demands stream_id demands (if is_empty id then demand.route.torrent_id else id)
            (record cancelled { active_demands = erase demand_id cancelled.active_demands })
    ]

unfoldable pub stop_route : Bytes → Bridge → Bytes × Bridge
unfolding lookup erase
stop_route target s = elim (lookup target s.routes) [
  | none ↦ ([], s)
  | some route ↦
      (route.torrent_id, record s { routes = erase target s.routes; next_progress_sample = 0 })
]

unfoldable pub stop_stream : Library → ℕ → Bytes → Bridge → Bytes × Bridge
unfolding erase_anchor stop_route stop_demands recompute_schedule
stop_stream library now stream_id s =
    let (id, unrouted) = stop_route (codes "/stream/" ++ stream_id) (erase_anchor stream_id s) in
    let (found, stopped) = stop_demands stream_id unrouted.active_demands id unrouted in
    (found, if is_empty found then stopped else recompute_schedule library now found stopped)

unfoldable pub drop_demands : Bytes → List (ℕ × ActiveDemand) → Bridge → Bridge
unfolding bytes_eq cancel_state erase
drop_demands id [] s = s
drop_demands id ((demand_id, demand) ∷ demands) s = drop_demands id demands (
    if bytes_eq demand.route.torrent_id id
    then (let cancelled = cancel_state demand.state s in
        record cancelled { active_demands = erase demand_id cancelled.active_demands })
    else s)

unfoldable pub of_torrent : Bytes → PieceKey → Bool
unfolding bytes_eq
of_torrent id key = bytes_eq key.torrent_id id

-- The first part of `remove_torrent`.
unfoldable pub revoke : Bytes → Bridge → Bridge
unfolding insert erase erase_if erase_torrent of_torrent bytes_eq
revoke id s = record s {
  revoked_torrents = insert id s.revoked_torrents;
  anchors = erase id s.anchors;
  piece_cache = erase_torrent id s.piece_cache;
  last_ready_pieces = erase id s.last_ready_pieces;
  requested_reads = erase_if (λ entry. of_torrent id entry.0) s.requested_reads;
  partial_blocks = erase_if (λ entry. of_torrent id entry.0) s.partial_blocks;
  routes = erase_if (λ entry. bytes_eq entry.1.torrent_id id) s.routes;
  next_progress_sample = 0;
}

unfoldable pub remove_torrent : Library → ℕ → Bytes → Bridge → Bridge
unfolding revoke drop_demands recompute_schedule drop_torrent_waiters
remove_torrent library now id s =
    let revoked = revoke id s in
    drop_torrent_waiters id (codes "torrent was removed")
      (recompute_schedule library now id (drop_demands id revoked.active_demands revoked))

unfoldable pub clear_schedules : Library → List (Bytes × CurrentSchedule) → Bridge → Bridge
unfolding call
clear_schedules library [] s = s
clear_schedules library ((id, schedule) ∷ schedules) s =
    clear_schedules library schedules (call library schedule.handle clear_piece_deadlines s)

unfoldable pub cancel_demands : List (ℕ × ActiveDemand) → Bridge → Bridge
unfolding cancel_state
cancel_demands [] s = s
cancel_demands ((id, demand) ∷ demands) s = cancel_demands demands (cancel_state demand.state s)

-- The server is stopped after the waiters are completed.
unfoldable pub close : Library → Bridge → Bridge
unfolding drop_all_waiters clear_schedules cancel_demands clear
close library s =
    let dropped =
      drop_all_waiters (codes "engine is shutting down") (record s { shutting_down = true }) in
    let cleared =
      clear_schedules library dropped.current_schedules (record dropped { commands = [] }) in
    let cancelled = cancel_demands cleared.active_demands (record cleared {
      current_schedules = [];
      requested_reads = [];
      partial_blocks = [];
      anchors = [];
      last_ready_pieces = [];
      piece_cache = clear cleared.piece_cache;
    }) in
    record cancelled { active_demands = []; expired_streams = []; routes = [] }

unfoldable pub shutdown : Library → Bridge → Bridge
unfolding close
shutdown library s = if s.shutting_down then s else close library s
