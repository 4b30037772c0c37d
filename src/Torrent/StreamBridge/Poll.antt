-- ===== src/Torrent/StreamBridge/Poll.antt =====
-- src/torrent/libtorrent_stream_bridge.cpp: the commands of the server's workers, and `poll`, which takes
-- them.
use nuvio_engine.Common.{
  ℕ, ◌+◌, Bool, true, false, ◌&&◌, ◌||◌, not, List, [], ◌∷◌, ◌++◌, Option, none, some, Bytes,
  bytes_eq, length, ltb, leb, if◌then◌else◌, bytes_eq_instance, nat_eq,
}
use nuvio_engine.Text.{codes}
use nuvio_engine.Std.UnorderedMap.{lookup, insert_or_assign, erase, member, insert}
use nuvio_engine.Cache.PieceCache.{key_eq_instance}
use nuvio_engine.Torrent.StreamBridge.{StreamRoute}
use nuvio_engine.Torrent.StreamBridge.State.{
  maximum_http_commands, PieceKey, HttpCommand, begin_demand, end_demand, read_piece, ActiveDemand,
  WaiterTable, Bridge, Library, read_piece_data,
}
use nuvio_engine.Torrent.StreamBridge.Waiters.{is_empty, prune_cancelled_waiters}
use nuvio_engine.Torrent.StreamBridge.Recompute.{recompute_schedule}
use nuvio_engine.Torrent.StreamBridge.Demands.{first_piece}
use nuvio_engine.Torrent.StreamBridge.Requests.{
  piece_available, finish, request_throws, process_piece_request,
}
use nuvio_engine.Torrent.StreamBridge.Streams.{
  route_is_active, cancel_state, expire_inactive_streams,
}

-- The result is whether the command is taken. The wake-up is a callback.
unfoldable pub enqueue : HttpCommand → Bridge → Bridge × Bool
enqueue command s =
    if s.shutting_down || leb maximum_http_commands (length s.commands)
    then (s, false)
    else (record s { commands = s.commands ++ command ∷ [] }, true)

abbrev pub no_route : StreamRoute
no_route = record {
  handle = 0;
  torrent_id = [];
  stream_id = [];
  target = [];
  content_type = [];
  file_index = 0;
  piece_size = 0;
  file_offset = 0;
  file_size = 0;
  payload_path = [];
  activity = 0;
}

unfoldable pub enqueue_end : ℕ → Bridge → Bridge
enqueue_end demand_id s = record s {
  commands =
      s.commands
      ++ record {
        type = end_demand;
        demand_id = demand_id;
        route = no_route;
        range = record { start = 0; end = 0 };
        piece = 0;
        waiter = none;
        demand_state = none;
      }
        ∷ [];
}

unfoldable pub begin_command : Library → HttpCommand → Bridge × List Bytes → Bridge × List Bytes
unfolding member route_is_active piece_available first_piece insert_or_assign insert cancel_state
begin_command library command (s, changed) =
    let route = command.route in
    if not (member route.torrent_id s.revoked_torrents) && route_is_active route s
    then (
      record s {
        active_demands =
            insert_or_assign command.demand_id
              (record {
                id = command.demand_id;
                route = route;
                range = command.range;
                state = command.demand_state;
                needs_data =
                    not (piece_available library route (first_piece route command.range) s);
              })
              s.active_demands;
      },
      insert route.torrent_id changed,
    )
    else (cancel_state command.demand_state s, changed)

unfoldable pub end_command : ℕ → Bridge × List Bytes → Bridge × List Bytes
unfolding lookup erase insert
end_command demand_id (s, changed) = elim (lookup demand_id s.active_demands) [
  | none ↦ (s, changed)
  | some demand ↦ (
    record s { active_demands = erase demand_id s.active_demands },
    insert demand.route.torrent_id changed,
  )
]

unfoldable pub is_live : Option ℕ → (ℕ → Bool) → Bool
is_live none states = false
is_live (some state) states = not (states state)

-- A read whose demand is no longer active.
unfoldable pub reject_read : Option ℕ → Bridge → Bridge
unfolding finish
reject_read none s = s
reject_read (some waiter) s = finish waiter none (codes "stream demand is no longer active") s

-- A read, by what the table has for its demand.
unfoldable pub read_command :
    Library → ℕ → HttpCommand → Option ActiveDemand → Bridge × List Bytes → Bridge × List Bytes
unfolding is_live reject_read insert_or_assign insert process_piece_request
read_command library now command none (s, changed) = (reject_read command.waiter s, changed)
read_command library now command (some demand) (s, changed) =
    if is_live demand.state s.states
    then (
      process_piece_request library now command (record s {
        active_demands =
            insert_or_assign command.demand_id (record demand { range = command.range })
              s.active_demands;
      }),
      insert demand.route.torrent_id changed,
    )
    else (reject_read command.waiter s, changed)

unfoldable pub poll_command : Library → ℕ → HttpCommand → Bridge × List Bytes → Bridge × List Bytes
unfolding begin_command end_command read_command lookup
poll_command library now command (s, changed) = elim command.type [
  | begin_demand ↦ begin_command library command (s, changed)
  | end_demand ↦ end_command command.demand_id (s, changed)
  | read_piece ↦
      read_command library now command (lookup command.demand_id s.active_demands) (s, changed)
]

-- A read that throws out of `poll`.
unfoldable pub read_throws : Library → HttpCommand → Option ActiveDemand → Bridge → Bool
unfolding is_live request_throws
read_throws library command none s = false
read_throws library command (some demand) s =
    is_live demand.state s.states && request_throws library command s

unfoldable pub poll_throws : Library → HttpCommand → Bridge → Bool
unfolding read_throws lookup
poll_throws library command s = elim command.type [
  | begin_demand ↦ false
  | end_demand ↦ false
  | read_piece ↦ read_throws library command (lookup command.demand_id s.active_demands) s
]

-- What a read has changed when it throws.
unfoldable pub note_range : HttpCommand → Option ActiveDemand → Bridge → Bridge
unfolding insert_or_assign
note_range command none s = s
note_range command (some demand) s = record s {
  active_demands =
      insert_or_assign command.demand_id (record demand { range = command.range }) s.active_demands;
}

-- The loop, which an exception ends: the commands behind it are lost with the local queue. The result is
-- whether it comes to the end of the queue.
unfoldable pub poll_commands :
    Library → ℕ → List HttpCommand → Bridge × List Bytes → (Bridge × List Bytes) × Bool
unfolding poll_command poll_throws note_range lookup
poll_commands library now [] polled = (polled, true)
poll_commands library now (command ∷ commands) (s, changed) =
    let rest = poll_commands library now commands (poll_command library now command (s, changed)) in
    if poll_throws library command s
    then ((note_range command (lookup command.demand_id s.active_demands) s, changed), false)
    else rest

unfoldable pub recompute_all : Library → ℕ → List Bytes → Bridge → Bridge
unfolding recompute_schedule
recompute_all library now [] s = s
recompute_all library now (id ∷ ids) s =
    recompute_all library now ids (recompute_schedule library now id s)

unfoldable pub demand_of_torrent : Bytes → List (ℕ × ActiveDemand) → Option ActiveDemand
unfolding bytes_eq
demand_of_torrent id [] = none
demand_of_torrent id ((demand_id, demand) ∷ demands) =
    if bytes_eq demand.route.torrent_id id then some demand else demand_of_torrent id demands

-- A read that was asked for less than two seconds ago.
unfoldable pub is_recent : ℕ → Option ℕ → Bool
is_recent now none = false
is_recent now (some requested) = ltb now (requested + 2000)

unfoldable pub reissue_read : Library → ℕ → PieceKey → Option ActiveDemand → Bridge → Bridge
unfolding insert_or_assign
reissue_read library now key none s = s
reissue_read library now key (some demand) s =
    let handle = demand.route.handle in
    elim (library.have_piece handle key.piece) [
      | none ↦ s
      | some false ↦ s
      | some true ↦ elim (library.refuses handle (read_piece_data key.piece)) [
        | some refusal ↦ s
        | none ↦ record s {
          calls = (handle, read_piece_data key.piece) ∷ s.calls;
          requested_reads = insert_or_assign key now s.requested_reads;
        }
      ]
    ]

unfoldable pub reissue_entries : Library → ℕ → WaiterTable → Bridge → Bridge
unfolding is_recent lookup demand_of_torrent reissue_read
reissue_entries library now [] s = s
reissue_entries library now ((key, waiters) ∷ rest) s = reissue_entries library now rest (
    if is_recent now (lookup key s.requested_reads)
    then s
    else reissue_read library now key (demand_of_torrent key.torrent_id s.active_demands) s)

unfoldable pub reissue_stalled_reads : Library → ℕ → Bridge → Bridge
unfolding reissue_entries
reissue_stalled_reads library now s =
    if is_empty s.piece_waiters || ltb now s.next_read_watchdog
    then s
    else reissue_entries library now s.piece_waiters (record s { next_read_watchdog = now + 1000 })

-- What follows the loop over the commands.
unfoldable pub finish_poll : Library → ℕ → List Bytes → Bridge → Bridge
unfolding prune_cancelled_waiters recompute_all reissue_stalled_reads expire_inactive_streams
finish_poll library now changed s = expire_inactive_streams library now (
    reissue_stalled_reads library now
      (recompute_all library now changed (prune_cancelled_waiters s)))

unfoldable pub poll : Library → ℕ → Bridge → Bridge
unfolding poll_commands finish_poll
poll library now s =
    let ((taken, changed), whole) =
      poll_commands library now s.commands (record s { commands = [] }, []) in
    if whole then finish_poll library now changed taken else taken
