-- ===== src/Torrent/StreamBridge/Kept/Removing.antt =====
-- src/torrent/libtorrent_stream_bridge.cpp: the removal of a torrent, the registration of a stream, and the
-- parts of the shutdown keep the waiters.
use nuvio_engine.Common.{
  ℕ, ◌-◌, refl, ◌∙◌, Bool, true, Bool-cases, inl, inr, List, [], ◌∷◌, Bytes, bytes_eq, ltb, ◌==◌,
  bytes_eq_instance, nat_eq,
}
use nuvio_engine.Text.{codes}
use nuvio_engine.Std.Results.{Result, ok, throws, runtime_error}
use nuvio_engine.Std.Shared.{modify}
use nuvio_engine.Std.UnorderedMap.{insert_or_assign, erase, erase_if, lookup-erase_if}
use nuvio_engine.Scheduler.DemandWindow.{blocking_demand_range}
use nuvio_engine.Cache.PieceCache.{key_eq_instance}
use nuvio_engine.Torrent.StreamBridge.{StreamRoute}
use nuvio_engine.Torrent.StreamBridge.State.{
  PieceKey, ActiveDemand, CurrentSchedule, Bridge, Library, clear_piece_deadlines,
}
use nuvio_engine.Torrent.StreamBridge.Waiters.{drop_torrent_waiters, drop_all_waiters}
use nuvio_engine.Torrent.StreamBridge.Waiters.Kept.{
  complete_entries-Grows, complete_entries-settled,
}
use nuvio_engine.Torrent.StreamBridge.Kept.{
  Keeps, Keeps-same, Keeps-trans, by_bool, by_if, by_option, by_result,
}
use nuvio_engine.Torrent.StreamBridge.Kept.Scheduling.{call-Keeps, recompute_schedule-Keeps}
use nuvio_engine.Torrent.StreamBridge.Kept.Reading.{cancel_state-Keeps}
use nuvio_engine.Torrent.StreamBridge.Kept.Ending.{stop_stream-Keeps, drop_demands-Keeps}
use nuvio_engine.Torrent.StreamBridge.Streams.{
  cancel_state, stop_stream, revoke, remove_torrent, clear_schedules, cancel_demands,
}
use nuvio_engine.Torrent.StreamBridge.Registering.{
  Registration, route_for, streams_of, stop_streams, prefetch_route, add_route, register_stream,
}

pub drop_torrent_waiters-Keeps :
    (id error : Bytes) (s : Bridge) → Keeps s (drop_torrent_waiters id error s)
unfolding drop_torrent_waiters
drop_torrent_waiters-Keeps id error s =
    let takes : PieceKey → Bool = λ key. bytes_eq key.torrent_id id in
    record {
      grows = complete_entries-Grows takes (λ w. true) error s.piece_waiters s.waiters;
      kept = λ w r. elim (Bool-cases (takes r.0)) [
        | inl mine ↦ inr (
            complete_entries-settled takes (λ v. true) error s.piece_waiters s.waiters r.0 r.1.0 w
              mine refl r.1.1 r.1.2)
        | inr other ↦
            inl (r.0, (r.1.0, lookup-erase_if takes r.0 s.piece_waiters other ∙ r.1.1, r.1.2))
      ];
    }

pub remove_torrent-Keeps :
    (library : Library) (now : ℕ) (id : Bytes) (s : Bridge)
    → Keeps s (remove_torrent library now id s)
unfolding remove_torrent revoke
remove_torrent-Keeps library now id s =
    Keeps-trans s (revoke id s) _ (Keeps-same s (revoke id s) refl refl) (
      Keeps-trans _ _ _ (drop_demands-Keeps id (revoke id s).active_demands (revoke id s)) (
        Keeps-trans _ _ _ (recompute_schedule-Keeps library now id _)
          (drop_torrent_waiters-Keeps id (codes "torrent was removed") _)))

pub stop_streams-Keeps :
    (library : Library) (now : ℕ) (streams : List Bytes) (s : Bridge)
    → Keeps s (stop_streams library now streams s)
unfolding stop_streams
stop_streams-Keeps library now [] s = Keeps-same s s refl refl
stop_streams-Keeps library now (stream_id ∷ streams) s =
    Keeps-trans s _ _ (stop_stream-Keeps library now stream_id s)
      (stop_streams-Keeps library now streams (stop_stream library now stream_id s).1)

pub prefetch_route-Keeps :
    (library : Library) (now : ℕ) (route : StreamRoute) (s : Bridge)
    → Keeps s (prefetch_route library now route s).0
unfolding prefetch_route
prefetch_route-Keeps library now route s =
    by_result (λ (p : Bridge × Result Bytes). Keeps s p.0)
      (blocking_demand_range (record { start = 0; end = route.file_size - 1 }) 0 route.file_offset
        route.piece_size)
      (λ e. Keeps-same s s refl refl)
      (λ range.
        let anchored = record s {
          anchors =
              insert_or_assign route.torrent_id
                (record { route = route; range = range; prefetch = true }) s.anchors;
        } in
        Keeps-trans s anchored _ (Keeps-same s anchored refl refl)
          (recompute_schedule-Keeps library now route.torrent_id anchored))

pub add_route-Keeps :
    (library : Library) (now : ℕ) (route : StreamRoute) (s : Bridge)
    → Keeps s (add_route library now route s).0
unfolding add_route
add_route-Keeps library now route s =
    let stopped = stop_streams library now (streams_of route.torrent_id s.routes) s in
    let added = record stopped {
      routes = insert_or_assign route.target route stopped.routes;
      next_progress_sample = 0;
      last_ready_pieces = erase route.torrent_id stopped.last_ready_pieces;
      revoked_torrents = erase_if (λ id. bytes_eq id route.torrent_id) stopped.revoked_torrents;
    } in
    let kept =
      Keeps-trans s stopped added
        (stop_streams-Keeps library now (streams_of route.torrent_id s.routes) s)
        (Keeps-same stopped added refl refl) in
    by_if (λ (p : Bridge × Result Bytes). Keeps s p.0) (ltb 0 route.file_size)
      {x = prefetch_route library now route added} {y = (added, ok route.stream_id)}
      (Keeps-trans s added _ kept (prefetch_route-Keeps library now route added)) kept

pub register_stream-Keeps :
    (library : Library) (now : ℕ) (r : Registration) (s : Bridge)
    → Keeps s (register_stream library now r s).0
unfolding register_stream
register_stream-Keeps library now r s =
    let P : Bridge × Result Bytes → Type 0 = λ p. Keeps s p.0 in
    let fails : P (s, throws runtime_error) = Keeps-same s s refl refl in
    let acting = record s {
      activities =
          modify r.activity (λ a. record { active_http_requests = 0; last_activity = now })
            s.activities;
    } in
    by_bool P s.shutting_down fails (
      by_option P (library.piece_length r.handle) fails (λ piece_length.
        by_if P (piece_length == 0) {x = (s, throws runtime_error)}
          {y = add_route library now (route_for library r piece_length) acting} fails
          (Keeps-trans s acting _ (Keeps-same s acting refl refl)
            (add_route-Keeps library now (route_for library r piece_length) acting))))

pub clear_schedules-Keeps :
    (library : Library) (schedules : List (Bytes × CurrentSchedule)) (s : Bridge)
    → Keeps s (clear_schedules library schedules s)
unfolding clear_schedules
clear_schedules-Keeps library [] s = Keeps-same s s refl refl
clear_schedules-Keeps library ((id, schedule) ∷ schedules) s =
    Keeps-trans s _ _ (call-Keeps library schedule.handle clear_piece_deadlines s)
      (clear_schedules-Keeps library schedules _)

pub cancel_demands-Keeps :
    (demands : List (ℕ × ActiveDemand)) (s : Bridge) → Keeps s (cancel_demands demands s)
unfolding cancel_demands
cancel_demands-Keeps [] s = Keeps-same s s refl refl
cancel_demands-Keeps ((id, demand) ∷ demands) s =
    Keeps-trans s _ _ (cancel_state-Keeps demand.state s)
      (cancel_demands-Keeps demands (cancel_state demand.state s))

-- All waiters of the table are settled.
pub drop_all_waiters-Keeps : (error : Bytes) (s : Bridge) → Keeps s (drop_all_waiters error s)
unfolding drop_all_waiters
drop_all_waiters-Keeps error s = record {
  grows = complete_entries-Grows (λ key. true) (λ w. true) error s.piece_waiters s.waiters;
  kept = λ w r. inr (
      complete_entries-settled (λ key. true) (λ v. true) error s.piece_waiters s.waiters r.0 r.1.0 w
        refl refl r.1.1 r.1.2);
}
