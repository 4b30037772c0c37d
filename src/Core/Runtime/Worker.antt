-- ===== src/Core/Runtime/Worker.antt =====
-- The worker thread of src/core/engine_runtime.cpp: `process_command`, `collect_backend_events`,
-- `refresh_stats`, and one round of the loop in `run`, over a backend.
use nuvio_engine.Common.{
  ℕ, ◌+◌, Bool, true, false, ◌&&◌, List, [], ◌∷◌, none, some, Bytes, u32_max, ltb, if◌then◌else◌,
}
use nuvio_engine.Text.{codes}
use nuvio_engine.Core.Runtime.Stats.{BackendStats, engine_stats, snapshots}
use nuvio_engine.Core.Runtime.Types.{
  BackendEvent, torrent_error, Request, Command, Attempt, returned, failed, unknown, Backend,
}
use nuvio_engine.Core.Runtime.{Runtime, push_event}

-- The event that reports an exception; the fields that it does not name have their defaults.
unfoldable pub error_event : ℕ → Bytes → BackendEvent
error_event request_id message = record {
  type = torrent_error;
  request_id = request_id;
  torrent_id = [];
  message = message;
  files = [];
  file_index = u32_max;
  file_size = 0;
  stream_id = [];
  stream_url = [];
}

pub is_empty_list : List BackendEvent → Bool
is_empty_list [] = true
is_empty_list (e ∷ es) = false

module _ {B : Type 0} where
  -- The `catch` clauses: `text` is the message for an exception that is no `std::exception`.
  unfoldable pub report : {A : Type 0} → ℕ → Bytes → Attempt A → Runtime B → Runtime B
  unfolding error_event
  report request_id text (returned a) r = r
  report request_id text (failed message) r = push_event (error_event request_id message) r
  report request_id text unknown r = push_event (error_event request_id text) r

  unfoldable pub push_events : List BackendEvent → Runtime B → Runtime B
  push_events [] r = r
  push_events (e ∷ es) r = push_events es (push_event e r)

module _ (K : Backend) where
  open K use {State}

  -- The call of the backend that a command stands for.
  unfoldable pub dispatch : Command → Bytes → State → State × Attempt (Unit {0})
  dispatch command save_path s = elim command.request [
    | Request.add_torrent input ↦ K.add_torrent s command.request_id input save_path
    | Request.prepare_stream torrent_id file_index file ↦
        K.prepare_file s command.request_id torrent_id file_index file
    | Request.stop_stream stream_id ↦ K.stop_stream s command.request_id stream_id
    | Request.reclaim_disk_cache target_bytes ↦
        K.reclaim_disk_cache s command.request_id target_bytes
    | Request.remove_torrent torrent_id ↦ K.remove_torrent s command.request_id torrent_id
  ]

  unfoldable pub process_command : Command → State → Runtime State → Runtime State
  process_command command s r =
      report command.request_id (codes "unknown protocol backend error")
        (dispatch command r.save_path s).1
        (record r { backend = some (dispatch command r.save_path s).0 })

  unfoldable pub publish : BackendStats → Runtime State → Runtime State
  unfolding engine_stats snapshots
  publish backend_stats r = record r {
    stats = some (engine_stats backend_stats);
    stream_stats = snapshots backend_stats.streams [];
  }

  -- `refresh_stats` and the loop over the events; if `statistics` throws, the events are lost.
  unfoldable pub publish_events :
      List BackendEvent → Attempt BackendStats → Runtime State → Runtime State
  unfolding publish
  publish_events events (returned backend_stats) r = push_events events (publish backend_stats r)
  publish_events events (failed message) r =
      report {A = BackendStats} 0 (codes "unknown protocol event error") (failed message) r
  publish_events events unknown r =
      report {A = BackendStats} 0 (codes "unknown protocol event error") unknown r

  -- From the state and the result of `pop_events`.
  unfoldable pub collect_popped :
      ℕ → State → Attempt (List BackendEvent) → Runtime State → Runtime State
  unfolding is_empty_list
  collect_popped now s (returned events) r =
      if is_empty_list events && ltb now r.next_stats_refresh
      then record r { backend = some s }
      else publish_events events (K.statistics s).1
          (record r { next_stats_refresh = now + 50; backend = some (K.statistics s).0 })
  collect_popped now s (failed message) r =
      report {A = BackendStats} 0 (codes "unknown protocol event error") (failed message)
        (record r { backend = some s })
  collect_popped now s unknown r =
      report {A = BackendStats} 0 (codes "unknown protocol event error") unknown
        (record r { backend = some s })

  -- `collect_backend_events` at time `now`, with the `catch` clauses of `run`.
  unfoldable pub collect_backend_events : ℕ → State → Runtime State → Runtime State
  collect_backend_events now s r = collect_popped now (K.pop_events s).0 (K.pop_events s).1 r

  -- The state of the backend after a step that keeps it.
  unfoldable pub collect_now : ℕ → Runtime State → Runtime State
  collect_now now r = elim r.backend [ none ↦ r | some s ↦ collect_backend_events now s r ]

  -- One round of `run` after its wait: the new state, and whether the loop goes on.
  unfoldable pub run_once : ℕ → State → Runtime State → Runtime State × Bool
  run_once now s r = elim r.commands [
    | command ∷ rest ↦ (
      collect_now now
          (process_command command s (record r { wake_pending = false; commands = rest })),
      true,
    )
    | [] ↦
        if r.stopping
        then (record r { wake_pending = false; backend = some (K.shutdown s) }, false)
        else (collect_now now (record r { wake_pending = false }), true)
  ]

  -- The rounds of `run` at the times of the list: the last state, and whether the loop has ended.
  unfoldable pub run : List ℕ → Runtime State → Runtime State × Bool
  run [] r = (r, false)
  run (now ∷ times) r = elim r.backend [
    | none ↦ (r, false)
    | some s ↦ elim (run_once now s r).1 [
      | true ↦ run times (run_once now s r).0
      | false ↦ ((run_once now s r).0, true)
    ]
  ]
