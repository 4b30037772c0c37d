-- ===== src/Torrent/StreamBridge.antt =====
-- src/torrent/libtorrent_stream_bridge.cpp: the rules of the bridge between the server and the
-- torrent library, the activity of a stream, and the loop over the pieces of a response.
pub mod Registering
pub mod Demands
pub mod Body
pub mod Piece
pub mod Deadlines
pub mod Handling
pub mod Kept
pub mod Priorities
pub mod Progress
pub mod Recompute
pub mod Requests
pub mod Poll
pub mod State
pub mod Streams
pub mod Waiters
use Prim.Native.String.{String}
use nuvio_engine.Common.{
  ℕ, zero, suc, ◌+◌, ◌-◌, ◌*◌, ◌/◌, ◌%◌, Bool, true, false, ◌&&◌, ◌||◌, List, [], ◌∷◌, Bytes, drop,
  ltb, leb, ◌==◌, min, max, u64_max, u64_mod, u32_max, if◌then◌else◌,
}
use nuvio_engine.Text.{codes, lowercase, ends_with}
use nuvio_engine.Http.ByteRange.{ByteRange}
use nuvio_engine.Scheduler.PieceSchedule.{
  PriorityClass, blocking, critical, playback, metadata_tail, readahead,
}

abbrev pub minimum_readahead_bytes : ℕ
minimum_readahead_bytes = 67108864

abbrev pub maximum_readahead_bytes : ℕ
maximum_readahead_bytes = 268435456

abbrev pub block_bytes : ℕ
block_bytes = 16384

unfoldable pub readahead_for_disk_budget : ℕ → ℕ
readahead_for_disk_budget disk_capacity_bytes =
    min (max (disk_capacity_bytes / 4) minimum_readahead_bytes) maximum_readahead_bytes

unfoldable pub content_type_for_path : Bytes → Bytes
unfolding lowercase ends_with
content_type_for_path path =
    let ending : String → Bool = λ suffix. ends_with (codes suffix) (lowercase path) in
    if ending ".mp4" || ending ".m4v"
    then codes "video/mp4"
    else if ending ".mkv"
    then codes "video/x-matroska"
    else if ending ".webm"
    then codes "video/webm"
    else if ending ".avi"
    then codes "video/x-msvideo"
    else if ending ".ts" || ending ".mpeg" || ending ".mpg"
    then codes "video/mp2t"
    else if ending ".mov"
    then codes "video/quicktime"
    else if ending ".mp3"
    then codes "audio/mpeg"
    else if ending ".flac"
    then codes "audio/flac"
    else codes "application/octet-stream"

-- The priorities of the torrent library that the bridge gives; `level` is one by its number.
pub data DownloadPriority : Type 0 where
  dont_download top default low : DownloadPriority
  level : ℕ → DownloadPriority

unfoldable pub download_priority_for : PriorityClass → Bool → DownloadPriority
download_priority_for blocking cold = top
download_priority_for critical cold = top
download_priority_for playback cold = default
download_priority_for metadata_tail cold = if cold then level 6 else top
download_priority_for readahead cold = low

unfoldable pub deadline_for : ℕ → ℕ
deadline_for ordinal = min ((ordinal * 100) % u64_mod) 2000

-- `StreamActivity`: the count wraps as a 32-bit integer.
pub record StreamActivity : Type 0 where
  pub active_http_requests : ℕ
  pub last_activity : ℕ

unfoldable pub acquire_http_request : StreamActivity → StreamActivity
acquire_http_request a = record a {
  active_http_requests = (a.active_http_requests + 1) % (u32_max + 1);
}

unfoldable pub release_http_request : ℕ → StreamActivity → StreamActivity
release_http_request now a = elim a.active_http_requests [
  | zero ↦ a
  | suc zero ↦ record { active_http_requests = 0; last_activity = now }
  | suc (suc n) ↦ record a { active_http_requests = suc n }
]

unfoldable pub is_inactive : ℕ → ℕ → StreamActivity → Bool
is_inactive now timeout a = (a.active_http_requests == 0) && leb (a.last_activity + timeout) now

-- The blocks from the front on that are finished, after so many.
unfoldable pub finished_blocks_from : List Bool → ℕ → ℕ
finished_blocks_from [] block = block
finished_blocks_from (finished ∷ rest) block = elim finished [
  | true ↦ finished_blocks_from rest (block + 1)
  | false ↦ block
]

unfoldable pub finished_run_end : List Bool → ℕ → ℕ → ℕ
unfolding finished_blocks_from
finished_run_end blocks cursor limit =
    let block = cursor / block_bytes in
    min ((finished_blocks_from (drop block blocks) block * block_bytes) % u64_mod) limit

-- The torrent handle and the shared activity are numbers; the counter of delivered bytes is left out.
pub record StreamRoute : Type 0 where
  pub handle : ℕ
  pub torrent_id : Bytes
  pub stream_id : Bytes
  pub target : Bytes
  pub content_type : Bytes
  pub file_index : ℕ
  pub piece_size : ℕ
  pub file_offset : ℕ
  pub file_size : ℕ
  pub payload_path : Bytes
  pub activity : ℕ

pub record PieceSlice : Type 0 where
  pub piece : ℕ
  pub piece_start : ℕ
  pub begin : ℕ
  pub end : ℕ

-- A round of the loop: the token or the demand's state ends it, or `serve_piece` returns false or
-- true.
pub data Round : Type 0 where
  halted failed served : Round

-- The slice of a piece within the range from `absolute_start` to `absolute_end_exclusive`.
unfoldable pub slice_of : StreamRoute → ℕ → ℕ → ℕ → PieceSlice
slice_of route absolute_start absolute_end_exclusive piece =
    let piece_start = (piece * route.piece_size) % u64_mod in
    record {
      piece = piece;
      piece_start = piece_start;
      begin = max absolute_start piece_start - piece_start;
      end = min absolute_end_exclusive ((piece_start + route.piece_size) % u64_mod) - piece_start;
    }

-- The slices that the loop has served in full, from a piece on.
unfoldable pub body_loop : StreamRoute → ℕ → ℕ → ℕ → List Round → ℕ → List PieceSlice
unfolding slice_of
body_loop route absolute_start absolute_end_exclusive last_piece [] piece = []
body_loop route absolute_start absolute_end_exclusive last_piece (round ∷ rounds) piece =
    elim (leb piece last_piece
      && leb route.file_offset (max absolute_start ((piece * route.piece_size) % u64_mod))) [
        | false ↦ []
        | true ↦ elim round [
          | halted ↦ []
          | failed ↦ []
          | served ↦
              slice_of route absolute_start absolute_end_exclusive piece
              ∷ body_loop route absolute_start absolute_end_exclusive last_piece rounds (piece + 1)
        ]
      ]

unfoldable pub stream_body : StreamRoute → ByteRange → List Round → List PieceSlice
unfolding body_loop
stream_body route range rounds =
    if ltb (u64_max - route.file_offset) range.end
    then []
    else if route.file_offset + range.end == u64_max
    then []
    else if ltb u32_max ((route.file_offset + range.end) / route.piece_size)
    then []
    else body_loop route ((route.file_offset + range.start) % u64_mod)
        (route.file_offset + range.end + 1) ((route.file_offset + range.end) / route.piece_size)
        rounds ((route.file_offset + range.start) % u64_mod / route.piece_size)
