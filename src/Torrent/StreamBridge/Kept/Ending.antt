-- ===== src/Torrent/StreamBridge/Kept/Ending.antt =====
-- src/torrent/libtorrent_stream_bridge.cpp: the alerts, the end of a stream and of a torrent, and the
-- shutdown keep the waiters.
use nuvio_engine.Common.{
  ℕ, refl, Bool, true, List, [], ◌∷◌, ◌++◌, Bytes, bytes_eq, length, leb, ◌==◌, if◌then◌else◌,
  bytes_eq_instance, nat_eq,
}
use nuvio_engine.Text.{codes}
use nuvio_engine.Std.UnorderedMap.{lookup, insert_or_assign, erase}
use nuvio_engine.Cache.PieceCache.{put, key_eq_instance}
use nuvio_engine.Torrent.StreamBridge.State.{PieceKey, ActiveDemand, Bridge, Library}
use nuvio_engine.Torrent.StreamBridge.Waiters.{
  is_empty, publish_all, publish_partial, complete_entries, cancel_demand_waiters,
}
use nuvio_engine.Torrent.StreamBridge.Waiters.Kept.{
  publish_all-Grows, complete_entries-Grows, complete_entries-settled,
}
use nuvio_engine.Torrent.StreamBridge.Kept.{
  Keeps, Keeps-same, Keeps-trans, by_bool, by_if, by_option, finish_piece-Keeps, fail_piece-Keeps,
  erase_waiters-Keeps,
}
use nuvio_engine.Torrent.StreamBridge.Kept.Scheduling.{recompute_schedule-Keeps}
use nuvio_engine.Torrent.StreamBridge.Kept.Reading.{grown, cancel_state-Keeps}
use nuvio_engine.Torrent.StreamBridge.Requests.{
  ReadPieceAlert, read_failure, handle_read_piece, finish_block, handle_block_finished, unfinished,
  handle_hash_failed,
}
use nuvio_engine.Torrent.StreamBridge.Demands.{none_finished}
use nuvio_engine.Torrent.StreamBridge.Streams.{
  cancel_state, erase_anchor, stop_demands, stop_route, stop_stream, drop_demands,
}

publish_partial-Keeps : (key : PieceKey) (s : Bridge) → Keeps s (publish_partial key s)
unfolding publish_partial
publish_partial-Keeps key s =
    by_option (Keeps s) (lookup key s.partial_blocks) (Keeps-same s s refl refl) (λ blocks.
      by_option (Keeps s) (lookup key s.piece_waiters) (Keeps-same s s refl refl) (λ ws.
        grown s (record s { waiters = publish_all blocks ws s.waiters })
          (publish_all-Grows blocks ws s.waiters) refl))

pub handle_read_piece-Keeps :
    (alert : ReadPieceAlert) (s : Bridge) → Keeps s (handle_read_piece alert s)
unfolding handle_read_piece
handle_read_piece-Keeps alert s =
    let read = record s {
      requested_reads = erase alert.key s.requested_reads;
      partial_blocks = erase alert.key s.partial_blocks;
    } in
    let stored = record read {
      last_ready_pieces =
          insert_or_assign alert.key.torrent_id alert.key.piece read.last_ready_pieces;
      piece_cache = put alert.key alert.buffer read.piece_cache;
    } in
    by_option (Keeps s) (read_failure alert.error alert.buffer)
      (Keeps-trans s stored _ (Keeps-same s stored refl refl)
        (finish_piece-Keeps alert.key alert.buffer [] stored))
      (λ error.
        Keeps-trans s read _ (Keeps-same s read refl refl) (fail_piece-Keeps alert.key error read))

pub handle_block_finished-Keeps :
    (library : Library) (now : ℕ) (key : PieceKey) (block : ℕ) (s : Bridge)
    → Keeps s (handle_block_finished library now key block s)
unfolding handle_block_finished
handle_block_finished-Keeps library now key block s =
    by_option (Keeps s) (lookup key s.partial_blocks) (Keeps-same s s refl refl) (λ blocks.
      let marked = record s {
        partial_blocks = insert_or_assign key (finish_block block blocks) s.partial_blocks;
      } in
      let published = publish_partial key marked in
      let told =
        Keeps-trans s marked published (Keeps-same s marked refl refl)
          (publish_partial-Keeps key marked) in
      by_if (Keeps s) (leb (length blocks) block) (Keeps-same s s refl refl) (
        by_if (Keeps s) (none_finished blocks)
          (Keeps-trans s published _ told
            (recompute_schedule-Keeps library now key.torrent_id published))
          told))

pub handle_hash_failed-Keeps : (key : PieceKey) (s : Bridge) → Keeps s (handle_hash_failed key s)
unfolding handle_hash_failed
handle_hash_failed-Keeps key s =
    by_option (Keeps s) (lookup key s.partial_blocks) (Keeps-same s s refl refl) (λ blocks.
      let reset = record s {
        partial_blocks = insert_or_assign key (unfinished (length blocks)) s.partial_blocks;
      } in
      Keeps-trans s reset _ (Keeps-same s reset refl refl) (publish_partial-Keeps key reset))

-- The waiters of a demand are settled before they leave the table.
cancel_demand_waiters-Keeps :
    (demand_id : ℕ) (error : Bytes) (s : Bridge) → Keeps s (cancel_demand_waiters demand_id error s)
unfolding cancel_demand_waiters
cancel_demand_waiters-Keeps demand_id error s =
    let mine : ℕ → Bool = λ w. (s.waiters w).demand_id == demand_id in
    let t : Bridge = record s {
      waiters = complete_entries (λ key. true) mine error s.piece_waiters s.waiters;
    } in
    Keeps-trans s t _
      (grown s t (complete_entries-Grows (λ key. true) mine error s.piece_waiters s.waiters) refl)
      (erase_waiters-Keeps mine t (λ w r m.
        complete_entries-settled (λ key. true) mine error s.piece_waiters s.waiters r.0 r.1.0 w refl
          m r.1.1 r.1.2))

stop_demands-Keeps :
    (stream_id : Bytes) (demands : List (ℕ × ActiveDemand)) (id : Bytes) (s : Bridge)
    → Keeps s (stop_demands stream_id demands id s).1
unfolding stop_demands
stop_demands-Keeps stream_id [] id s = Keeps-same s s refl refl
stop_demands-Keeps stream_id ((demand_id, demand) ∷ demands) id s =
    let cancelled =
      cancel_demand_waiters demand_id (codes "stream was stopped") (cancel_state demand.state s) in
    let erased = record cancelled { active_demands = erase demand_id cancelled.active_demands } in
    let next = if is_empty id then demand.route.torrent_id else id in
    by_bool (λ (p : Bytes × Bridge). Keeps s p.1) (bytes_eq demand.route.stream_id stream_id)
      {x = stop_demands stream_id demands next erased} {y = stop_demands stream_id demands id s}
      (Keeps-trans s (cancel_state demand.state s) _ (cancel_state-Keeps demand.state s) (
        Keeps-trans _ cancelled _
          (cancel_demand_waiters-Keeps demand_id (codes "stream was stopped")
            (cancel_state demand.state s))
          (Keeps-trans cancelled erased _ (Keeps-same cancelled erased refl refl)
            (stop_demands-Keeps stream_id demands next erased))))
      (stop_demands-Keeps stream_id demands id s)

stop_route-Keeps : (target : Bytes) (s : Bridge) → Keeps s (stop_route target s).1
unfolding stop_route
stop_route-Keeps target s =
    by_option (λ (p : Bytes × Bridge). Keeps s p.1) (lookup target s.routes)
      (Keeps-same s s refl refl) (λ route. Keeps-same s _ refl refl)

pub stop_stream-Keeps :
    (library : Library) (now : ℕ) (stream_id : Bytes) (s : Bridge)
    → Keeps s (stop_stream library now stream_id s).1
unfolding stop_stream erase_anchor
stop_stream-Keeps library now stream_id s =
    let target = codes "/stream/" ++ stream_id in
    let plain = erase_anchor stream_id s in
    let routed = stop_route target plain in
    let stopped = stop_demands stream_id routed.1.active_demands routed.0 routed.1 in
    let kept = Keeps-trans s plain _ (Keeps-same s plain refl refl) (
      Keeps-trans plain routed.1 stopped.1 (stop_route-Keeps target plain)
        (stop_demands-Keeps stream_id routed.1.active_demands routed.0 routed.1)) in
    by_if (Keeps s) (is_empty stopped.0) kept
      (Keeps-trans s stopped.1 _ kept (recompute_schedule-Keeps library now stopped.0 stopped.1))

pub drop_demands-Keeps :
    (id : Bytes) (demands : List (ℕ × ActiveDemand)) (s : Bridge)
    → Keeps s (drop_demands id demands s)
unfolding drop_demands
drop_demands-Keeps id [] s = Keeps-same s s refl refl
drop_demands-Keeps id ((demand_id, demand) ∷ demands) s =
    let cancelled = cancel_state demand.state s in
    let erased = record cancelled { active_demands = erase demand_id cancelled.active_demands } in
    Keeps-trans s _ _
      (by_if (Keeps s) (bytes_eq demand.route.torrent_id id) {x = erased} {y = s}
        (Keeps-trans s cancelled erased (cancel_state-Keeps demand.state s)
          (Keeps-same cancelled erased refl refl))
        (Keeps-same s s refl refl))
      (drop_demands-Keeps id demands _)
