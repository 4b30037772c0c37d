-- ===== src/Core/Engine/Calls.antt =====
-- src/core/engine.cpp: the calls on an engine: each checks its arguments and asks the runtime. The
-- pointers for results are given by whether they are there, or by the size of what they lead to.
use nuvio_engine.Common.{ℕ, Bool, true, false, Option, none, some, Bytes, ltb, min, if◌then◌else◌}
use nuvio_engine.Core.Runtime.Types.{invalid_argument, incompatible_abi, File, Event}
use nuvio_engine.Core.Runtime.Stats.{EngineStats, StreamStats}
use nuvio_engine.Core.Runtime as R
use nuvio_engine.Core.Runtime.{Runtime, Reply, refuse, answer}
use nuvio_engine.Core.Engine.{
  normalize_torrent_id, normalize_stream_id, event_v1_size, event_size, file_v1_size, file_size,
  stats_v1_size, stats_size, stream_stats_v1_size, stream_stats_size,
}
use nuvio_engine.Core.Engine.Create.{Checked, refused, accepted}
use nuvio_engine.Core.Engine.Requests.{
  TorrentRequest, StreamRequest, check_input, check_id, Selection, check_stream_request,
}

-- `*request_id = 0` in front of the call.
unfoldable pub zeroed : Reply ℕ → Reply ℕ
zeroed reply = elim reply.value [
  | none ↦ record { status = reply.status; value = some 0 }
  | some value ↦ reply
]

-- `memcpy` of a snapshot: it comes with the count of its bytes that the caller has room for.
unfoldable pub copied : {A : Type 0} → ℕ → ℕ → Reply A → Reply (A × ℕ)
copied caller_size size reply = elim reply.value [
  | none ↦ refuse reply.status
  | some value ↦ record { status = reply.status; value = some (value, min caller_size size) }
]

module _ {B : Type 0} where
  -- A request to the runtime with arguments that are checked.
  unfoldable pub ask :
      {A : Type 0}
      → (A → Runtime B → Runtime B × Reply ℕ)
      → Checked A
      → Runtime B
      → Runtime B × Reply ℕ
  ask request (refused status) r = (r, refuse status)
  ask request (accepted a) r = request a r

  -- The guard of the calls that return a request id.
  unfoldable pub submit :
      (Runtime B → Runtime B × Reply ℕ) → Option (Runtime B) → Bool → Option (Runtime B) × Reply ℕ
  unfolding zeroed
  submit request none request_id = (none, refuse invalid_argument)
  submit request (some r) false = (some r, refuse invalid_argument)
  submit request (some r) true = (some (request r).0, zeroed (request r).1)

  unfoldable pub add_torrent :
      Option (Runtime B) → Option TorrentRequest → Bool → Option (Runtime B) × Reply ℕ
  unfolding submit ask check_input R.add_torrent
  add_torrent engine none request_id = (engine, refuse invalid_argument)
  add_torrent engine (some request) request_id =
      submit (ask R.add_torrent (check_input request)) engine request_id

  -- `EngineRuntime::prepare_stream` with the arguments of a selection.
  unfoldable pub prepare : Selection → Runtime B → Runtime B × Reply ℕ
  unfolding R.prepare_stream
  prepare s = R.prepare_stream s.torrent_id s.requested_index s.filename_hint

  unfoldable pub prepare_stream :
      Option (Runtime B) → Option StreamRequest → Bool → Option (Runtime B) × Reply ℕ
  unfolding submit ask check_stream_request prepare
  prepare_stream engine none request_id = (engine, refuse invalid_argument)
  prepare_stream engine (some request) request_id =
      submit (ask prepare (check_stream_request request)) engine request_id

  unfoldable pub remove_torrent :
      Option (Runtime B) → Option Bytes → Bool → Option (Runtime B) × Reply ℕ
  unfolding submit ask check_id normalize_torrent_id R.remove_torrent
  remove_torrent engine torrent_id request_id =
      submit (ask R.remove_torrent (check_id (normalize_torrent_id torrent_id))) engine request_id

  unfoldable pub stop_stream :
      Option (Runtime B) → Option Bytes → Bool → Option (Runtime B) × Reply ℕ
  unfolding submit ask check_id normalize_stream_id R.stop_stream
  stop_stream engine stream_id request_id =
      submit (ask R.stop_stream (check_id (normalize_stream_id stream_id))) engine request_id

  unfoldable pub reclaim_disk_cache : Option (Runtime B) → ℕ → Bool → Option (Runtime B) × Reply ℕ
  unfolding submit R.reclaim_disk_cache
  reclaim_disk_cache engine target_bytes request_id =
      submit (R.reclaim_disk_cache target_bytes) engine request_id

  -- A question to the runtime with an id that is checked.
  unfoldable pub look_up :
      {A : Type 0} → (Bytes → Runtime B → Reply A) → Checked Bytes → Runtime B → Reply A
  look_up question (refused status) r = refuse status
  look_up question (accepted id) r = question id r

  unfoldable pub get_file_count : Option (Runtime B) → Option Bytes → Bool → Reply ℕ
  unfolding zeroed look_up check_id normalize_torrent_id R.get_file_count
  get_file_count none torrent_id file_count = refuse invalid_argument
  get_file_count (some r) torrent_id false = refuse invalid_argument
  get_file_count (some r) torrent_id true =
      zeroed (look_up R.get_file_count (check_id (normalize_torrent_id torrent_id)) r)

  -- The guard of the calls that fill a record of the caller, with the size that it claims.
  unfoldable pub fill :
      {A : Type 0} → ℕ → ℕ → (Runtime B → Reply A) → Option (Runtime B) → Option ℕ → Reply (A × ℕ)
  unfolding copied
  fill smallest size question none room = refuse invalid_argument
  fill smallest size question (some r) none = refuse invalid_argument
  fill smallest size question (some r) (some caller_size) =
      if ltb caller_size smallest
      then refuse incompatible_abi
      else copied caller_size size (question r)

  unfoldable pub get_file : Option (Runtime B) → Option Bytes → ℕ → Option ℕ → Reply (File × ℕ)
  unfolding fill file_v1_size file_size look_up check_id normalize_torrent_id R.get_file
  get_file engine torrent_id file_index file =
      fill file_v1_size file_size
        (look_up (λ id r. R.get_file id file_index r) (check_id (normalize_torrent_id torrent_id)))
        engine file

  unfoldable pub get_stats : Option (Runtime B) → Option ℕ → Reply (Option EngineStats × ℕ)
  unfolding fill stats_v1_size stats_size
  get_stats engine stats = fill stats_v1_size stats_size (λ r. answer r.stats) engine stats

  unfoldable pub get_stream_stats :
      Option (Runtime B) → Option Bytes → Option ℕ → Reply (StreamStats × ℕ)
  unfolding fill stream_stats_v1_size stream_stats_size look_up check_id normalize_stream_id
      R.get_stream_stats
  get_stream_stats engine stream_id stats =
      fill stream_stats_v1_size stream_stats_size
        (look_up R.get_stream_stats (check_id (normalize_stream_id stream_id))) engine stats

  unfoldable pub poll_event : Option (Runtime B) → Option ℕ → Option (Runtime B) × Reply (Event × ℕ)
  unfolding event_v1_size event_size copied R.poll_event
  poll_event none event = (none, refuse invalid_argument)
  poll_event (some r) none = (some r, refuse invalid_argument)
  poll_event (some r) (some caller_size) =
      if ltb caller_size event_v1_size
      then (some r, refuse incompatible_abi)
      else (some (R.poll_event r).0, copied caller_size event_size (R.poll_event r).1)
