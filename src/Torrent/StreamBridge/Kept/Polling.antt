-- ===== src/Torrent/StreamBridge/Kept/Polling.antt =====
-- src/torrent/libtorrent_stream_bridge.cpp: `poll` keeps the waiters, and takes over those of the reads in
-- its queue.
use nuvio_engine.Common.{
  ℕ, ◌+◌, ◌/◌, min, max, ltb, ◌==◌, ◌≡◌, refl, sym, subst, Bool, true, false, ◌||◌, List, [], ◌∷◌,
  Option, none, some, Bytes, In, arith, if◌then◌else◌, bytes_eq_instance, nat_eq,
}
use nuvio_engine.Std.UnorderedMap.{lookup, erase_if, insert_or_assign}
use nuvio_engine.Cache.PieceCache.{key_eq_instance}
use nuvio_engine.Torrent.StreamBridge.State.{
  PieceKey, HttpCommand, ActiveDemand, StoppedStream, WaiterTable, PieceWaiter, Bridge, Library,
  read_piece_data,
}
use nuvio_engine.Torrent.StreamBridge.Waiters.{is_empty, settled, prune_cancelled_waiters}
use nuvio_engine.Torrent.StreamBridge.Kept.{
  Held, Keeps, Keeps-same, Keeps-Held, Keeps-trans, by_if, by_option, erase_waiters-Keeps,
}
use nuvio_engine.Torrent.StreamBridge.Kept.Scheduling.{recompute_schedule-Keeps}
use nuvio_engine.Torrent.StreamBridge.Recompute.{recompute_schedule}
use nuvio_engine.Torrent.StreamBridge.Streams.{
  erase_anchor, expires, expired_of, expire_all, expire_inactive_streams,
}
use nuvio_engine.Torrent.StreamBridge.Poll.{
  is_recent, demand_of_torrent, poll_commands, recompute_all, reissue_read, reissue_entries,
  reissue_stalled_reads, finish_poll, poll,
}
use nuvio_engine.Torrent.StreamBridge.Kept.Commands.{Brings, poll_commands-Keeps}
use nuvio_engine.Torrent.StreamBridge.Kept.Throwing.{
  Answers, poll_commands-whole, poll_commands-Held,
}

prune_cancelled_waiters-Keeps : (s : Bridge) → Keeps s (prune_cancelled_waiters s)
unfolding prune_cancelled_waiters settled
prune_cancelled_waiters-Keeps s =
    erase_waiters-Keeps (λ w. (s.waiters w).cancelled) s
      (λ w r c. cancelled-settled (s.waiters w) c)
  where
    cancelled-settled : (w : PieceWaiter) → w.cancelled ≡ true → settled w ≡ true
    cancelled-settled w c = ground (arith, c)

recompute_all-Keeps :
    (library : Library) (now : ℕ) (ids : List Bytes) (s : Bridge)
    → Keeps s (recompute_all library now ids s)
unfolding recompute_all
recompute_all-Keeps library now [] s = Keeps-same s s refl refl
recompute_all-Keeps library now (id ∷ ids) s =
    Keeps-trans s _ _ (recompute_schedule-Keeps library now id s)
      (recompute_all-Keeps library now ids (recompute_schedule library now id s))

reissue_read-Keeps :
    (library : Library) (now : ℕ) (key : PieceKey) (demand : Option ActiveDemand) (s : Bridge)
    → Keeps s (reissue_read library now key demand s)
unfolding reissue_read
reissue_read-Keeps library now key none s = Keeps-same s s refl refl
reissue_read-Keeps library now key (some demand) s =
    by_have (library.have_piece demand.route.handle key.piece)
  where
    asked : Bridge
    asked = elim (library.refuses demand.route.handle (read_piece_data key.piece)) [
      | some refusal ↦ s
      | none ↦ record s {
        calls = (demand.route.handle, read_piece_data key.piece) ∷ s.calls;
        requested_reads = insert_or_assign key now s.requested_reads;
      }
    ]

    by_have :
        (have : Option Bool)
        → Keeps s (elim have as (λ c. Bridge) [ none ↦ s | some false ↦ s | some true ↦ asked ])
    by_have none = Keeps-same s s refl refl
    by_have (some false) = Keeps-same s s refl refl
    by_have (some true) =
        by_option (Keeps s) (library.refuses demand.route.handle (read_piece_data key.piece))
          (Keeps-same s
            (record s {
              calls = (demand.route.handle, read_piece_data key.piece) ∷ s.calls;
              requested_reads = insert_or_assign key now s.requested_reads;
            })
            refl refl)
          (λ r. Keeps-same s s refl refl)

reissue_entries-Keeps :
    (library : Library) (now : ℕ) (table : WaiterTable) (s : Bridge)
    → Keeps s (reissue_entries library now table s)
unfolding reissue_entries
reissue_entries-Keeps library now [] s = Keeps-same s s refl refl
reissue_entries-Keeps library now ((key, ws) ∷ rest) s =
    Keeps-trans s _ _
      (by_if (Keeps s) (is_recent now (lookup key s.requested_reads)) (Keeps-same s s refl refl)
        (reissue_read-Keeps library now key (demand_of_torrent key.torrent_id s.active_demands) s))
      (reissue_entries-Keeps library now rest _)

reissue_stalled_reads-Keeps :
    (library : Library) (now : ℕ) (s : Bridge) → Keeps s (reissue_stalled_reads library now s)
unfolding reissue_stalled_reads
reissue_stalled_reads-Keeps library now s =
    by_if (Keeps s) (is_empty s.piece_waiters || ltb now s.next_read_watchdog)
      (Keeps-same s s refl refl)
      (Keeps-trans s _ _ (Keeps-same s (record s { next_read_watchdog = now + 1000 }) refl refl) (
        reissue_entries-Keeps library now s.piece_waiters
          (record s { next_read_watchdog = now + 1000 })))

expire_all-Keeps :
    (library : Library) (now : ℕ) (expired : List StoppedStream) (s : Bridge)
    → Keeps s (expire_all library now expired s)
unfolding expire_all erase_anchor
expire_all-Keeps library now [] s = Keeps-same s s refl refl
expire_all-Keeps library now (stream ∷ expired) s =
    Keeps-trans s (erase_anchor stream.stream_id s) _ (Keeps-same s _ refl refl) (
      Keeps-trans _ _ _ (recompute_schedule-Keeps library now stream.torrent_id _)
        (Keeps-trans _ _ _ (Keeps-same _ _ refl refl) (expire_all-Keeps library now expired _)))

expire_inactive_streams-Keeps :
    (library : Library) (now : ℕ) (s : Bridge) → Keeps s (expire_inactive_streams library now s)
unfolding expire_inactive_streams
expire_inactive_streams-Keeps library now s =
    let expired = expired_of (expires now s) s.routes in
    let checked = record s {
      next_inactivity_check = now + min (max (s.inactivity_timeout / 2) 25) 1000;
      routes = erase_if (λ entry. expires now s entry.1) s.routes;
      next_progress_sample = if is_empty expired then s.next_progress_sample else 0;
    } in
    by_if (Keeps s) (s.inactivity_timeout == 0 || ltb now s.next_inactivity_check)
      (Keeps-same s s refl refl)
      (Keeps-trans s checked _ (Keeps-same s checked refl refl)
        (expire_all-Keeps library now expired checked))

finish_poll-Keeps :
    (library : Library) (now : ℕ) (changed : List Bytes) (s : Bridge)
    → Keeps s (finish_poll library now changed s)
unfolding finish_poll
finish_poll-Keeps library now changed s = Keeps-trans s _ _ (prune_cancelled_waiters-Keeps s) (
    Keeps-trans _ _ _ (recompute_all-Keeps library now changed _) (
      Keeps-trans _ _ _ (reissue_stalled_reads-Keeps library now _)
        (expire_inactive_streams-Keeps library now _)))

pub poll-Keeps : (library : Library) (now : ℕ) (s : Bridge) → Keeps s (poll library now s)
unfolding poll
poll-Keeps library now s =
    let ((taken, changed), whole) =
      poll_commands library now s.commands (record s { commands = [] }, []) in
    Keeps-trans s (record s { commands = [] }) _ (Keeps-same s _ refl refl)
      (Keeps-trans _ taken _
        (poll_commands-Keeps library now s.commands (record s { commands = [] }, []))
        (by_if (Keeps taken) whole {x = finish_poll library now changed taken} {y = taken}
          (finish_poll-Keeps library now changed taken) (Keeps-same taken taken refl refl)))

-- No read is forgotten: where neither `in_session` nor `torrent_file` throws for a torrent whose handle
-- is valid, after `poll` the waiter of every read in its queue stands in the table or is settled,
-- whatever became of its demand or its torrent, and whether other calls of the library threw or not.
pub poll-Held :
    (library : Library) (now : ℕ) (s : Bridge) (command : HttpCommand) (w : ℕ)
    → Answers library
    → In command s.commands
    → Brings w command
    → Held (poll library now s) w
unfolding poll
poll-Held library now s command w h i b =
    let ((taken, changed), whole) =
      poll_commands library now s.commands (record s { commands = [] }, []) in
    let to_end : whole ≡ true =
      poll_commands-whole library now s.commands (record s { commands = [] }, []) h in
    subst (λ go. Held (if go then finish_poll library now changed taken else taken) w) (sym to_end)
      (Keeps-Held taken _ (finish_poll-Keeps library now changed taken) w (
        poll_commands-Held library now s.commands (record s { commands = [] }, []) command w h i b))
