-- ===== src/Core/Engine/Requests.antt =====
-- src/core/engine.cpp: the records of the requests with their checks, and the texts of the statuses.
use nuvio_engine.Common.{
  ◌&&◌, ℕ, ◌*◌, Bool, ◌||◌, not, [], ◌∷◌, Option, none, some, Bytes, take, ltb, leb, ◌==◌, u32_max,
  if◌then◌else◌,
}
use nuvio_engine.Text.{codes}
use nuvio_engine.Core.Runtime.Types.{
  Status, invalid_argument, incompatible_abi, allocation_failed, initialization_failed,
  backend_unavailable, queue_full, no_event, not_found, metadata_not_ready, out_of_range,
  TorrentInput, magnet, torrent_data, Event,
}
use nuvio_engine.Core.Engine.{
  bounded_string_length, normalize_torrent_id, torrent_request_v1_size, torrent_request_v2_size,
  stream_request_v1_size, event_v1_size, end_of, word, long,
}
use nuvio_engine.Core.Engine.Create.{Checked, refused, accepted, ◌>>=◌, bounded_text}

-- None is a number that names no status.
unfoldable pub status_message : Option Status → Bytes
status_message none = codes "unknown status"
status_message (some status) = elim status [
  | Status.ok ↦ codes "ok"
  | invalid_argument ↦ codes "invalid argument"
  | incompatible_abi ↦ codes "incompatible ABI"
  | allocation_failed ↦ codes "allocation failed"
  | initialization_failed ↦ codes "initialization failed"
  | backend_unavailable ↦ codes "protocol backend unavailable"
  | queue_full ↦ codes "command queue full"
  | no_event ↦ codes "no event available"
  | not_found ↦ codes "torrent not found"
  | metadata_not_ready ↦ codes "torrent metadata not ready"
  | out_of_range ↦ codes "index out of range"
]

-- `nuvio_engine_torrent_request`.
pub record TorrentRequest : Type 0 where
  pub struct_size : ℕ
  pub magnet_uri : Option Bytes
  pub source_type : ℕ
  pub torrent_data : Option Bytes
  pub torrent_data_size : ℕ

-- `nuvio_engine_stream_request`.
pub record StreamRequest : Type 0 where
  pub struct_size : ℕ
  pub torrent_id : Option Bytes
  pub file_index : ℕ
  pub filename_hint : Option Bytes

-- `nuvio_engine_stream_request_init_sized` of a record of so many bytes.
unfoldable pub stream_request_init_sized : ℕ → StreamRequest
unfolding end_of
stream_request_init_sized struct_size = record {
  struct_size = if ltb struct_size 4 then 0 else struct_size;
  torrent_id = none;
  file_index = if leb (end_of (word ∷ long ∷ word ∷ []) 0) struct_size then u32_max else 0;
  filename_hint = none;
}

-- `nuvio_engine_event_init_sized` of a record of so many bytes.
unfoldable pub event_init_sized : ℕ → Event
unfolding end_of event_v1_size
event_init_sized struct_size = record {
  type = 0;
  sequence = 0;
  request_id = 0;
  dropped_events = 0;
  torrent_id = [];
  message = [];
  file_index =
      if leb 4 struct_size && leb (end_of (word ∷ []) event_v1_size) struct_size
      then u32_max
      else 0;
  file_size = 0;
  stream_id = [];
  stream_url = [];
}

unfoldable pub check_magnet : Option Bytes → Checked TorrentInput
unfolding bounded_text
check_magnet none = refused invalid_argument
check_magnet (some uri) =
    bounded_text (16 * 1024) uri
    >>= (λ uri. accepted (record { type = magnet; magnet_uri = uri; torrent_data = [] }))

unfoldable pub check_data : Bool → Option Bytes → ℕ → Checked TorrentInput
check_data has_v2_fields none size = refused invalid_argument
check_data has_v2_fields (some bytes) size =
    if not has_v2_fields || (size == 0) || ltb (4 * 1024 * 1024) size
    then refused invalid_argument
    else accepted (record { type = torrent_data; magnet_uri = []; torrent_data = take size bytes })

-- The type of the source; a record of the first version has magnets only.
unfoldable pub source_of : TorrentRequest → ℕ
unfolding torrent_request_v2_size
source_of request =
    if leb torrent_request_v2_size request.struct_size then request.source_type else 0

unfoldable pub check_input : TorrentRequest → Checked TorrentInput
unfolding torrent_request_v1_size torrent_request_v2_size source_of check_magnet check_data
check_input request =
    if ltb request.struct_size torrent_request_v1_size
    then refused incompatible_abi
    else if source_of request == 0
    then check_magnet request.magnet_uri
    else if source_of request == 1
    then check_data (leb torrent_request_v2_size request.struct_size) request.torrent_data
        request.torrent_data_size
    else refused invalid_argument

-- An id that is normalized, or the refusal of the argument.
unfoldable pub check_id : Option Bytes → Checked Bytes
check_id none = refused invalid_argument
check_id (some id) = accepted id

unfoldable pub check_hint : Option Bytes → Checked Bytes
unfolding bounded_string_length
check_hint none = accepted []
check_hint (some hint) =
    let length = bounded_string_length hint (4 * 1024) in
    if ltb (4 * 1024) length then refused invalid_argument else accepted (take length hint)

pub record Selection : Type 0 where
  pub torrent_id : Bytes
  pub requested_index : Option ℕ
  pub filename_hint : Bytes

unfoldable pub check_stream_request : StreamRequest → Checked Selection
unfolding stream_request_v1_size check_id check_hint normalize_torrent_id
check_stream_request request =
    if ltb request.struct_size stream_request_v1_size
    then refused incompatible_abi
    else check_id (normalize_torrent_id request.torrent_id) >>= (λ id.
      check_hint request.filename_hint >>= (λ hint. accepted (record {
        torrent_id = id;
        requested_index = if request.file_index == u32_max then none else some request.file_index;
        filename_hint = hint;
      })))
