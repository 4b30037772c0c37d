-- ===== src/Torrent/StreamBridge/State.antt =====
-- src/torrent/libtorrent_stream_bridge.cpp: the state of the bridge, and the calls of the torrent
-- library. A waiter, the state of a demand and an activity are shared objects: their pointers are
-- numbers. A torrent handle is a number too. The locks are not modelled: each operation is one step.
use nuvio_engine.Common.{ℕ, Bool, List, ◌∷◌, Option, none, some, Bytes}
use nuvio_engine.Http.ByteRange.{ByteRange}
use nuvio_engine.Cache.PieceCache.{PieceCacheKey, VerifiedPieceCache}
use nuvio_engine.Scheduler.PieceSchedule.{Priorities}
use nuvio_engine.Scheduler.DemandPlan.{StreamWindow}
use nuvio_engine.Torrent.StreamBridge.{DownloadPriority, StreamActivity, StreamRoute}

abbrev pub maximum_http_commands : ℕ
maximum_http_commands = 4096

abbrev pub PieceKey : Type 0
PieceKey = PieceCacheKey

-- `bytes` is the field `data`.
pub record PieceWaiter : Type 0 where
  pub bytes : Option Bytes
  pub error : Bytes
  pub done : Bool
  pub cancelled : Bool
  pub demand_id : ℕ
  pub finished_blocks : List Bool

pub data CommandType : Type 0 where
  begin_demand end_demand read_piece : CommandType

-- `waiter` and `demand_state` are none for a null pointer.
pub record HttpCommand : Type 0 where
  pub type : CommandType
  pub demand_id : ℕ
  pub route : StreamRoute
  pub range : ByteRange
  pub piece : ℕ
  pub waiter : Option ℕ
  pub demand_state : Option ℕ

pub record ActiveDemand : Type 0 where
  pub id : ℕ
  pub route : StreamRoute
  pub range : ByteRange
  pub state : Option ℕ
  pub needs_data : Bool

pub record StreamAnchor : Type 0 where
  pub route : StreamRoute
  pub range : ByteRange
  pub prefetch : Bool

pub record CurrentSchedule : Type 0 where
  pub handle : ℕ
  pub priorities : Priorities
  pub deadline_order : List ℕ
  pub focused_demand_id : ℕ
  pub revision : ℕ
  pub cold : Bool
  pub first_blocks : List (ℕ × ℕ)

pub record StoppedStream : Type 0 where
  pub torrent_id : Bytes
  pub stream_id : Bytes

-- The calls of a torrent handle that change something in the library.
pub data Call : Type 0 where
  prioritize_all : List DownloadPriority → Call
  prioritize_pieces : List (ℕ × DownloadPriority) → Call
  set_piece_deadline : ℕ → ℕ → Bool → Call
  reset_piece_deadline : ℕ → Call
  set_piece_first_block : ℕ → ℕ → Call
  read_piece_data : ℕ → Call
  clear_piece_deadlines : Call

-- An exception that the library throws: with a message, or not a `std::exception`.
pub data Refusal : Type 0 where
  described : Bytes → Refusal
  unknown : Refusal

-- A piece of the download queue, with the blocks that are finished.
pub record PartialPiece : Type 0 where
  pub piece_index : ℕ
  pub finished : List Bool

-- What the torrent library answers during an operation. `num_pieces` and `piece_length` are none
-- where there is no metadata, `have_piece` and `download_queue` are none where they throw; whether
-- `in_session` and `torrent_file` throw for a request, the last two fields say.
pub record Library : Type 0 where
  pub is_valid : ℕ → Bool
  pub in_session : ℕ → Bool
  pub num_pieces : ℕ → Option ℕ
  pub piece_length : ℕ → Option ℕ
  pub file_path : ℕ → ℕ → Bytes
  pub piece_size : ℕ → ℕ → ℕ
  pub have_piece : ℕ → ℕ → Option Bool
  pub download_queue : ℕ → Option (List PartialPiece)
  pub refuses : ℕ → Call → Option Refusal
  pub session_throws : ℕ → Bool
  pub metadata_throws : ℕ → Bool

-- The table of the waiters of each piece.
abbrev pub WaiterTable : Type 0
WaiterTable = List (PieceKey × List ℕ)

-- `waiters`, `states` and `activities` are the shared objects; in `states` stands whether the demand
-- is cancelled. `calls` are the calls that the library has taken, latest first.
pub record Bridge : Type 0 where
  pub window : StreamWindow
  pub inactivity_timeout : ℕ
  pub shutting_down : Bool
  pub routes : List (Bytes × StreamRoute)
  pub commands : List HttpCommand
  pub active_demands : List (ℕ × ActiveDemand)
  pub anchors : List (Bytes × StreamAnchor)
  pub current_schedules : List (Bytes × CurrentSchedule)
  pub last_ready_pieces : List (Bytes × ℕ)
  pub piece_cache : VerifiedPieceCache
  pub revoked_torrents : List Bytes
  pub piece_waiters : WaiterTable
  pub requested_reads : List (PieceKey × ℕ)
  pub partial_blocks : List (PieceKey × List Bool)
  pub expired_streams : List StoppedStream
  pub next_read_watchdog : ℕ
  pub next_inactivity_check : ℕ
  pub next_progress_sample : ℕ
  pub next_demand_id : ℕ
  pub waiters : ℕ → PieceWaiter
  pub states : ℕ → Bool
  pub activities : ℕ → StreamActivity
  pub calls : List (ℕ × Call)

-- A call whose exception the code drops.
unfoldable pub call : Library → ℕ → Call → Bridge → Bridge
call library handle c s = elim (library.refuses handle c) [
  | some refusal ↦ s
  | none ↦ record s { calls = (handle, c) ∷ s.calls }
]
