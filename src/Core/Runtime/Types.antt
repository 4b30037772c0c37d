-- ===== src/Core/Runtime/Types.antt =====
-- The data of the runtime: status codes and records of include/nuvio_engine/nuvio_engine.h, and
-- the backend's interface of src/torrent/protocol_backend.hpp.
use nuvio_engine.Common.{ℕ, List, Bytes}
use nuvio_engine.Core.Runtime.Stats.{BackendStats}

pub data Status : Type 0 where
  ok invalid_argument incompatible_abi allocation_failed initialization_failed : Status
  backend_unavailable queue_full no_event not_found metadata_not_ready out_of_range : Status

pub data TorrentInputType : Type 0 where
  magnet torrent_data : TorrentInputType

pub record TorrentInput : Type 0 where
  pub type : TorrentInputType
  pub magnet_uri : Bytes
  pub torrent_data : Bytes

pub record TorrentFileInfo : Type 0 where
  pub path : Bytes
  pub offset : ℕ
  pub size : ℕ

pub data EventType : Type 0 where
  torrent_added metadata_ready torrent_error stream_prepared : EventType
  stream_stopped disk_cache_reclaimed torrent_removed : EventType

pub record BackendEvent : Type 0 where
  pub type : EventType
  pub request_id : ℕ
  pub torrent_id : Bytes
  pub message : Bytes
  pub files : List TorrentFileInfo
  pub file_index : ℕ
  pub file_size : ℕ
  pub stream_id : Bytes
  pub stream_url : Bytes

-- `nuvio_engine_event`; `type` is the number in the C interface.
pub record Event : Type 0 where
  pub type : ℕ
  pub sequence : ℕ
  pub request_id : ℕ
  pub dropped_events : ℕ
  pub torrent_id : Bytes
  pub message : Bytes
  pub file_index : ℕ
  pub file_size : ℕ
  pub stream_id : Bytes
  pub stream_url : Bytes

-- `nuvio_engine_file`.
pub record File : Type 0 where
  pub index : ℕ
  pub offset : ℕ
  pub size : ℕ
  pub path_truncated : ℕ
  pub path : Bytes

-- The `CommandType` of a command with the fields that it uses.
pub data Request : Type 0 where
  add_torrent : TorrentInput → Request
  prepare_stream : Bytes → ℕ → TorrentFileInfo → Request
  stop_stream : Bytes → Request
  reclaim_disk_cache : ℕ → Request
  remove_torrent : Bytes → Request

pub record Command : Type 0 where
  pub request_id : ℕ
  pub request : Request

-- How a call of the backend ends: `failed` is a `std::exception` with its text.
pub data Attempt (A : Type 0) : Type 0 where
  returned : A → Attempt A
  failed : Bytes → Attempt A
  unknown : Attempt A

-- `ProtocolBackend`: its implementations and their state are outside of this model.
pub record Backend : Type 1 where
  pub State : Type 0
  pub add_torrent : State → ℕ → TorrentInput → Bytes → State × Attempt (Unit {0})
  pub prepare_file : State → ℕ → Bytes → ℕ → TorrentFileInfo → State × Attempt (Unit {0})
  pub stop_stream : State → ℕ → Bytes → State × Attempt (Unit {0})
  pub reclaim_disk_cache : State → ℕ → ℕ → State × Attempt (Unit {0})
  pub remove_torrent : State → ℕ → Bytes → State × Attempt (Unit {0})
  pub shutdown : State → State
  pub pop_events : State → State × Attempt (List BackendEvent)
  pub statistics : State → State × Attempt BackendStats
