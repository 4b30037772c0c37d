-- ===== src/Tests/Runtime.antt =====
-- The runtime with a backend that counts its calls.
use nuvio_engine.Common.{
  ℕ, ◌+◌, ◌≡◌, ◌≢◌, ◌<◌, ◌≤◌, ◌⊎◌, refl, true, false, [], ◌∷◌, ◌++◌, none, some, bytes_eq,
  bytes_eq_instance, arith, length, get_elem?, if◌then◌else◌, map,
}
use nuvio_engine.Text.{codes}
use nuvio_engine.Std.UnorderedMap.{lookup}
use nuvio_engine.Torrent.FileSelection.{select_file}
use nuvio_engine.Core.Runtime.Types.{
  Status, magnet, TorrentFileInfo, metadata_ready, BackendEvent, Request, Command, returned, failed,
  Backend,
}
use nuvio_engine.Core.Runtime.{
  dropped_after, Runtime, answer, selectable, enqueue, prepare_stream, push_event,
}
use nuvio_engine.Core.Runtime.Worker.{dispatch, process_command, run}
use nuvio_engine.Core.Runtime.Queue.{IsQueued, enqueue_accepts}
use nuvio_engine.Core.Runtime.Course.{Course}
use nuvio_engine.Core.Runtime.Draining.{run-terminates}
use nuvio_engine.Core.Runtime.Log.{
  IsLogged, LogsError, Reports, push_event-IsLogged, process_command-Reports,
}
use nuvio_engine.Core.Runtime.Metadata.{push_event_files, prepare_stream_selects}

abbrev counting : Backend
counting = record {
  State = ℕ;
  add_torrent = λ s id input path. (s + 1, failed (codes "no peers"));
  prepare_file = λ s id torrent index file. (s + 1, returned tt);
  stop_stream = λ s id stream. (s + 1, returned tt);
  reclaim_disk_cache = λ s id bytes. (s + 1, returned tt);
  remove_torrent = λ s id torrent. (s + 1, returned tt);
  shutdown = λ s. 0;
  pop_events = λ s. (s, returned []);
  statistics = λ s. (s, failed (codes "none"));
}

abbrev queued : Command
queued = record { request_id = 4; request = Request.stop_stream (codes "s1") }

abbrev info : TorrentFileInfo
info = record { path = codes "one.mkv"; offset = 0; size = 500 }

abbrev ready : BackendEvent
ready = record {
  type = metadata_ready;
  request_id = 0;
  torrent_id = codes "t1";
  message = [];
  files = info ∷ [];
  file_index = 0;
  file_size = 0;
  stream_id = [];
  stream_url = [];
}

abbrev runtime : Runtime ℕ
runtime = record {
  backend = some 0;
  save_path = codes "/tmp";
  command_capacity = 2;
  event_capacity = 1;
  commands = queued ∷ [];
  events = [];
  files = (codes "t1", info ∷ []) ∷ [];
  stats = none;
  stream_stats = [];
  stopping = false;
  wake_pending = false;
  next_stats_refresh = 0;
  next_request_id = 5;
  next_sequence = 1;
  dropped_events = 0;
}

abbrev stopping_runtime : Runtime ℕ
stopping_runtime = record runtime { stopping = true }

abbrev runtime-IsQueued : IsQueued runtime
runtime-IsQueued = record { bounded = omega arith; numbered = (omega arith, tt, tt) }

abbrev runtime-IsLogged : IsLogged runtime
runtime-IsLogged = record { room = omega arith; bounded = omega arith; consecutive = tt }

overflow_run : (push_event ready (push_event ready runtime)).dropped_events ≡ 1
unfolding push_event dropped_after
overflow_run = refl

enqueue_accepts_example :
    ((runtime.backend ≢ none)
      × (runtime.stopping ≡ false)
      × (length runtime.commands < runtime.command_capacity)
      × ((enqueue (Request.reclaim_disk_cache 9) runtime).1 ≡ answer runtime.next_request_id)
      × ((enqueue (Request.reclaim_disk_cache 9) runtime).0.commands
          ≡ runtime.commands
            ++ record {
              request_id = runtime.next_request_id;
              request = Request.reclaim_disk_cache 9;
            }
              ∷ []))
    ⊎ (((runtime.backend ≡ none)
          ⊎ ((runtime.stopping ≡ true) ⊎ (runtime.command_capacity ≤ length runtime.commands)))
        × ((enqueue (Request.reclaim_disk_cache 9) runtime).0 ≡ runtime)
        × ((enqueue (Request.reclaim_disk_cache 9) runtime).1.status ≢ Status.ok))
enqueue_accepts_example = enqueue_accepts (Request.reclaim_disk_cache 9) runtime

run-terminates_example :
    (t : ℕ) × Course counting (codes "/tmp") (queued ∷ []) 0 t
    × ((run counting (0 ∷ 250 ∷ []) stopping_runtime).1 ≡ true)
    × ((run counting (0 ∷ 250 ∷ []) stopping_runtime).0.commands ≡ [])
    × ((run counting (0 ∷ 250 ∷ []) stopping_runtime).0.backend ≡ some 0)
run-terminates_example =
    run-terminates counting stopping_runtime 0 (0 ∷ 250 ∷ []) refl refl (omega arith)

push_event-IsLogged_example :
    IsLogged (push_event ready runtime)
    × (length (push_event ready runtime).events
          + (push_event ready runtime).dropped_events
          + runtime.next_sequence
        ≡ length runtime.events + runtime.dropped_events + (push_event ready runtime).next_sequence)
push_event-IsLogged_example =
    push_event-IsLogged ready runtime (omega arith) (omega arith) runtime-IsLogged

abbrev logged_runtime : Runtime ℕ
logged_runtime = push_event ready runtime

-- The call for torrent 5 throws.
abbrev adding : Command
adding = record {
  request_id = 5;
  request =
      Request.add_torrent
        (record { type = magnet; magnet_uri = codes "magnet:?xt=urn:btih:1"; torrent_data = [] });
}

process_command-Reports_example :
    LogsError 5 (codes "no peers") runtime (process_command counting adding 0 runtime)
unfolding dispatch Reports
process_command-Reports_example = process_command-Reports counting adding 0 runtime

push_event_files_example : lookup (codes "t1") (push_event ready runtime).files ≡ (
    if bytes_eq ready.torrent_id (codes "t1")
    then some ready.files
    else lookup (codes "t1") runtime.files)
push_event_files_example = push_event_files ready runtime (codes "t1")

known : lookup (codes "t1") runtime.files ≡ some (info ∷ [])
unfolding lookup bytes_eq
known = refl

prepare_stream_selects_example :
    (i : ℕ) × (file : TorrentFileInfo) × ((select_file
        (map selectable (info ∷ []))
        none
        (codes "one.mkv")).index
      ≡ some i)
    × (get_elem? (info ∷ []) i ≡ some file)
    × (prepare_stream (codes "t1") none (codes "one.mkv") runtime
        ≡ enqueue (Request.prepare_stream (codes "t1") i file) runtime)
prepare_stream_selects_example =
    prepare_stream_selects (codes "t1") none (codes "one.mkv") runtime info [] known (omega arith)
