-- ===== src/Torrent/StreamBridge/Progress.antt =====
-- src/torrent/libtorrent_stream_bridge.cpp: `progress_for`, the progress of a stream: how much of its file
-- is verified, and how much of that from the front on.
pub mod Bounds
use nuvio_engine.Common.{
  ℕ, zero, suc, ◌+◌, ◌-◌, ◌*◌, ◌/◌, ◌%◌, Bool, true, false, ◌||◌, List, [], ◌∷◌, Option, none, some,
  Bytes, bytes_eq, length, get_elem?, min, max, u32_max, u64_max, u64_mod, ltb, leb, ◌==◌,
  if◌then◌else◌, bytes_eq_instance,
}
use nuvio_engine.Std.OrderedMap.{find}
use nuvio_engine.Std.Sort.{stable_sort}
use nuvio_engine.Std.UnorderedMap.{lookup}
use nuvio_engine.Scheduler.PieceSchedule.{PriorityClass, Priorities, rank, blocking}
use nuvio_engine.Http.ByteRange.{ByteRange}
use nuvio_engine.Core.Runtime.Stats.{StreamState}
use nuvio_engine.Torrent.StreamBridge.{StreamRoute}
use nuvio_engine.Torrent.StreamBridge.State.{ActiveDemand, CurrentSchedule, Bridge}

unfoldable pub saturating_count : ℕ → ℕ
saturating_count count = min count u32_max

unfoldable pub is_blocking : Option PriorityClass → Bool
is_blocking none = false
is_blocking (some priority) = rank priority == rank blocking

unfoldable pub blocking_among : Priorities → List ℕ → List ℕ
unfolding is_blocking find
blocking_among priorities [] = []
blocking_among priorities (piece ∷ order) =
    let rest = blocking_among priorities order in
    if is_blocking (find piece priorities) then piece ∷ rest else rest

unfoldable pub blocking_pieces_of : CurrentSchedule → List ℕ
unfolding blocking_among
blocking_pieces_of schedule = blocking_among schedule.priorities schedule.deadline_order

-- What the library says of a torrent: the size of a piece, and whether it has it. The sizes are
-- positive where the library's are; 0 stands for one that is not.
pub record TorrentStatus : Type 0 where
  pub num_pieces : ℕ
  pub piece_size : ℕ → ℕ
  pub is_seeding : Bool
  pub pieces : List Bool

pub record Verified : Type 0 where
  pub verified_file_bytes : ℕ
  pub contiguous_ready_bytes : ℕ

abbrev pub nothing_verified : Verified
nothing_verified = record { verified_file_bytes = 0; contiguous_ready_bytes = 0 }

unfoldable pub has_piece : Option Bool → Bool
has_piece none = false
has_piece (some has) = has

unfoldable pub is_ready : TorrentStatus → ℕ → Bool
unfolding has_piece
is_ready status piece = status.is_seeding || has_piece (get_elem? status.pieces piece)

-- The bytes of the file in a piece.
unfoldable pub overlap : StreamRoute → ℕ → ℕ → ℕ
overlap route piece piece_bytes =
    let piece_start = (piece * route.piece_size) % u64_mod in
    let piece_end = (piece_start + piece_bytes) % u64_mod in
    min (route.file_offset + route.file_size) piece_end - max route.file_offset piece_start

-- The loop over `count` pieces from `piece` on.
unfoldable pub verify_pieces : StreamRoute → TorrentStatus → ℕ → ℕ → Bool → Verified → Verified
unfolding is_ready overlap
verify_pieces route status zero piece contiguous v = v
verify_pieces route status (suc count) piece contiguous v = elim (is_ready status piece) [
  | false ↦ verify_pieces route status count (suc piece) false v
  | true ↦ elim (status.piece_size piece == 0) [
    | true ↦ nothing_verified
    | false ↦
        let bytes = overlap route piece (status.piece_size piece) in
        verify_pieces route status count (suc piece) contiguous (record {
          verified_file_bytes = (v.verified_file_bytes + bytes) % u64_mod;
          contiguous_ready_bytes =
              if contiguous
              then (v.contiguous_ready_bytes + bytes) % u64_mod
              else v.contiguous_ready_bytes;
        })
  ]
]

-- The last part of `progress_for`: `status` is none where the torrent is not in the session, has no
-- metadata, or the library throws.
unfoldable pub verify_file : StreamRoute → Option TorrentStatus → Verified
unfolding verify_pieces
verify_file route none = nothing_verified
verify_file route (some status) =
    if route.file_size == 0 || ltb (u64_max - route.file_offset) route.file_size
    then nothing_verified
    else (let file_end = route.file_offset + route.file_size in
        let first_piece = route.file_offset / route.piece_size in
        let last_piece = (file_end - 1) / route.piece_size in
        if leb status.num_pieces last_piece
        then nothing_verified
        else verify_pieces route status (suc last_piece - first_piece) first_piece true
            nothing_verified)

-- The counts of demands and pieces: `demands` are those of the stream, the latest first.
unfoldable pub demands_of : Bytes → List (ℕ × ActiveDemand) → List ActiveDemand
unfolding bytes_eq
demands_of stream_id [] = []
demands_of stream_id ((demand_id, demand) ∷ demands) =
    let rest = demands_of stream_id demands in
    if bytes_eq demand.route.stream_id stream_id then demand ∷ rest else rest

abbrev pub by_latest : ActiveDemand → ActiveDemand → Bool
by_latest left right = ltb right.id left.id

abbrev pub range_at : List ActiveDemand → ℕ → ByteRange
range_at demands i = elim (get_elem? demands i) [
  | none ↦ record { start = 0; end = 0 }
  | some demand ↦ demand.range
]

-- The value for no piece.
abbrev pub no_piece : ℕ
no_piece = u32_max

abbrev pub piece_at : List ℕ → ℕ → ℕ
piece_at pieces i = elim (get_elem? pieces i) [ none ↦ no_piece | some piece ↦ piece ]

unfoldable pub schedule_progress : Option CurrentSchedule → StreamState → StreamState
unfolding blocking_pieces_of saturating_count
schedule_progress none result = result
schedule_progress (some schedule) result =
    let urgent = blocking_pieces_of schedule in
    record result {
      scheduled_pieces = saturating_count (length schedule.priorities);
      schedule_revision = schedule.revision;
      blocking_pieces = saturating_count (length urgent);
      primary_blocking_piece = piece_at urgent 0;
      secondary_blocking_piece = piece_at urgent 1;
    }

unfoldable pub progress_for : StreamRoute → ℕ → Option TorrentStatus → Bridge → StreamState
unfolding demands_of stable_sort schedule_progress verify_file lookup saturating_count
progress_for route delivered status s =
    let demands = stable_sort by_latest (demands_of route.stream_id s.active_demands) in
    let verified = verify_file route status in
    schedule_progress (lookup route.torrent_id s.current_schedules) (record {
      stream_id = route.stream_id;
      file_index = route.file_index;
      file_size = route.file_size;
      contiguous_ready_bytes = verified.contiguous_ready_bytes;
      verified_file_bytes = verified.verified_file_bytes;
      delivered_bytes = delivered;
      active_demands = saturating_count (length demands);
      scheduled_pieces = 0;
      blocking_pieces = 0;
      primary_blocking_piece = no_piece;
      secondary_blocking_piece = no_piece;
      last_ready_piece = elim (lookup route.torrent_id s.last_ready_pieces) [
        | none ↦ no_piece
        | some ready ↦ ready
      ];
      primary_demand_start = (range_at demands 0).start;
      primary_demand_end = (range_at demands 0).end;
      secondary_demand_start = (range_at demands 1).start;
      secondary_demand_end = (range_at demands 1).end;
      schedule_revision = 0;
    })
