-- ===== src/Core/Runtime.antt =====
-- src/core/engine_runtime.cpp and engine_runtime.hpp. Each method is a function from the state
-- before to the state after and its result: a method holds the mutex of what it changes, so that
-- calls from several threads are a sequence of such steps.
pub mod Types
pub mod Stats
pub mod Worker
pub mod Queue
pub mod Course
pub mod Draining
pub mod Metadata
pub mod Log
use nuvio_engine.Common.{
  ℕ, ◌+◌, ◌-◌, ◌%◌, Bool, true, false, List, [], ◌∷◌, ◌++◌, map, Option, none, some, Bytes, min,
  length, take, get_elem?, u32_max, u64_mod, leb, if◌then◌else◌, bytes_eq_instance,
}
use nuvio_engine.Std.UnorderedMap.{lookup, insert_or_assign, erase}
use nuvio_engine.Torrent.FileSelection.{TorrentFile, select_file}
use Stats.{EngineStats, StreamStats}
use Types.{
  Status, backend_unavailable, initialization_failed, queue_full, no_event, not_found,
  metadata_not_ready, out_of_range, TorrentInput, TorrentFileInfo, EventType, torrent_added,
  metadata_ready, torrent_error, stream_prepared, stream_stopped, disk_cache_reclaimed,
  torrent_removed, BackendEvent, Event, File, Request, Command,
}

-- `copy_text` into an array of `size` bytes: the text in front of the terminating zero.
unfoldable pub copy_text : ℕ → Bytes → Bytes
copy_text size source = take (min (length source) (size - 1)) source

abbrev pub FileTable : Type 0
FileTable = List (Bytes × List TorrentFileInfo)

-- The members of `EngineRuntime`, over the state of its backend; `backend` is `none` where the
-- pointer is null.
pub record Runtime (B : Type 0) : Type 0 where
  pub backend : Option B
  pub save_path : Bytes
  pub command_capacity : ℕ
  pub event_capacity : ℕ
  pub commands : List Command
  pub events : List Event
  pub files : FileTable
  pub stats : Option EngineStats
  pub stream_stats : List (Bytes × StreamStats)
  pub stopping : Bool
  pub wake_pending : Bool
  pub next_stats_refresh : ℕ
  pub next_request_id : ℕ
  pub next_sequence : ℕ
  pub dropped_events : ℕ

-- A status with the value of the out parameter, if it is written.
pub record Reply (A : Type 0) : Type 0 where
  pub status : Status
  pub value : Option A

abbrev pub refuse : {A : Type 0} → Status → Reply A
refuse status = record { status = status; value = none }

abbrev pub answer : {A : Type 0} → A → Reply A
answer value = record { status = Status.ok; value = some value }

unfoldable pub selectable : TorrentFileInfo → TorrentFile
selectable file = record { path = file.path; size = file.size }

unfoldable pub file_record : ℕ → TorrentFileInfo → File
file_record index source = record {
  index = index % (u32_max + 1);
  offset = source.offset;
  size = source.size;
  path_truncated = if leb 1024 (length source.path) then 1 else 0;
  path = copy_text 1024 source.path;
}

-- The table of files after an event.
unfoldable pub note_files : BackendEvent → FileTable → FileTable
note_files event files = elim event.type [
  | metadata_ready ↦ insert_or_assign event.torrent_id event.files files
  | torrent_removed ↦ erase event.torrent_id files
  | _ ↦ files
]

unfoldable pub event_code : EventType → ℕ
event_code torrent_added = 1
event_code metadata_ready = 2
event_code torrent_error = 3
event_code stream_prepared = 4
event_code torrent_removed = 5
event_code stream_stopped = 6
event_code disk_cache_reclaimed = 7

unfoldable pub pop_front : List Event → List Event
pop_front [] = []
pop_front (event ∷ rest) = rest

module _ {B : Type 0} where
  unfoldable pub init : Option B → Bytes → ℕ → ℕ → Runtime B
  init backend save_path command_capacity event_capacity = record {
    backend = backend;
    save_path = save_path;
    command_capacity = command_capacity;
    event_capacity = event_capacity;
    commands = [];
    events = [];
    files = [];
    stats = none;
    stream_stats = [];
    stopping = false;
    wake_pending = false;
    next_stats_refresh = 0;
    next_request_id = 1;
    next_sequence = 1;
    dropped_events = 0;
  }

  unfoldable pub wake : Runtime B → Runtime B
  wake r = record r { wake_pending = true }

  -- What the destructor sets before it joins the worker.
  unfoldable pub request_stop : Runtime B → Runtime B
  request_stop r = record r { stopping = true }

  -- A command under the next request id, at the end of the queue.
  unfoldable pub accept : Request → Runtime B → Runtime B
  accept request r = record r {
    commands = r.commands ++ record { request_id = r.next_request_id; request = request } ∷ [];
    next_request_id = (r.next_request_id + 1) % u64_mod;
  }

  unfoldable pub enqueue : Request → Runtime B → Runtime B × Reply ℕ
  enqueue request r = elim r.backend [
    | none ↦ (r, refuse backend_unavailable)
    | some backend ↦
        if r.stopping
        then (r, refuse initialization_failed)
        else if leb r.command_capacity (length r.commands)
        then (r, refuse queue_full)
        else (accept request r, answer r.next_request_id)
  ]

  unfoldable pub add_torrent : TorrentInput → Runtime B → Runtime B × Reply ℕ
  add_torrent input = enqueue (Request.add_torrent input)

  unfoldable pub remove_torrent : Bytes → Runtime B → Runtime B × Reply ℕ
  remove_torrent torrent_id = enqueue (Request.remove_torrent torrent_id)

  unfoldable pub stop_stream : Bytes → Runtime B → Runtime B × Reply ℕ
  stop_stream stream_id = enqueue (Request.stop_stream stream_id)

  unfoldable pub reclaim_disk_cache : ℕ → Runtime B → Runtime B × Reply ℕ
  reclaim_disk_cache target_bytes = enqueue (Request.reclaim_disk_cache target_bytes)

  -- `snapshot->second[selected_index]`, which `select_file` keeps in range.
  unfoldable pub prepare_selected :
      Bytes → List TorrentFileInfo → Option ℕ → Runtime B → Runtime B × Reply ℕ
  prepare_selected torrent_id infos selected r = elim selected [
    | none ↦ (r, refuse not_found)
    | some index ↦ elim (get_elem? infos index) [
      | none ↦ (r, refuse not_found)
      | some info ↦ enqueue (Request.prepare_stream torrent_id (index % (u32_max + 1)) info) r
    ]
  ]

  unfoldable pub prepare_stream : Bytes → Option ℕ → Bytes → Runtime B → Runtime B × Reply ℕ
  prepare_stream torrent_id requested_index filename_hint r = elim (lookup torrent_id r.files) [
    | none ↦ (r, refuse metadata_not_ready)
    | some infos ↦
        prepare_selected torrent_id infos
          (select_file (map selectable infos) requested_index filename_hint).index r
  ]

  unfoldable pub get_file_count : Bytes → Runtime B → Reply ℕ
  get_file_count torrent_id r = elim (lookup torrent_id r.files) [
    | none ↦ refuse metadata_not_ready
    | some infos ↦ answer (length infos)
  ]

  unfoldable pub get_file : Bytes → ℕ → Runtime B → Reply File
  unfolding file_record
  get_file torrent_id file_index r = elim (lookup torrent_id r.files) [
    | none ↦ refuse metadata_not_ready
    | some infos ↦ elim (get_elem? infos file_index) [
      | none ↦ refuse out_of_range
      | some source ↦ answer (file_record file_index source)
    ]
  ]

  unfoldable pub poll_event : Runtime B → Runtime B × Reply Event
  poll_event r = elim r.events [
    | [] ↦ (r, refuse no_event)
    | event ∷ rest ↦ (record r { events = rest }, answer event)
  ]

  unfoldable pub get_stream_stats : Bytes → Runtime B → Reply StreamStats
  get_stream_stats stream_id r = elim (lookup stream_id r.stream_stats) [
    | none ↦ refuse not_found
    | some stats ↦ answer stats
  ]

  -- The number of dropped events when an event is added.
  unfoldable pub dropped_after : Runtime B → ℕ
  dropped_after r =
      if leb r.event_capacity (length r.events)
      then (r.dropped_events + 1) % u64_mod
      else r.dropped_events

  unfoldable pub event_record : BackendEvent → Runtime B → Event
  unfolding event_code
  event_record e r = record {
    type = event_code e.type;
    sequence = r.next_sequence;
    request_id = e.request_id;
    dropped_events = dropped_after r;
    torrent_id = copy_text 65 e.torrent_id;
    message = copy_text 256 e.message;
    file_index = e.file_index;
    file_size = e.file_size;
    stream_id = copy_text 65 e.stream_id;
    stream_url = copy_text 512 e.stream_url;
  }

  unfoldable pub push_event : BackendEvent → Runtime B → Runtime B
  push_event e r = record r {
    files = note_files e r.files;
    next_sequence = (r.next_sequence + 1) % u64_mod;
    dropped_events = dropped_after r;
    events =
        (if leb r.event_capacity (length r.events) then pop_front r.events else r.events)
        ++ event_record e r ∷ [];
  }
