-- ===== src/Scheduler/PieceSchedule.antt =====
-- src/scheduler/piece_scheduler.cpp and include/nuvio_engine/piece_scheduler.hpp: the schedule for
-- one demand. A `std::map` is the list of its entries, a thrown exception is a result.
pub mod Windows
pub mod Order
pub mod Zones
pub mod Priorities
pub mod Errors
use nuvio_engine.Common.{
  ℕ, zero, suc, ◌-◌, ◌/◌, Bool, ◌&&◌, ◌||◌, List, [], map, none, some, min, u32_max, saturating_add,
  ltb, leb, ◌==◌, if◌then◌else◌,
}
use nuvio_engine.Std.Results.{Result, ok, throws, invalid_argument, overflow_error, ◌>>=◌}
use nuvio_engine.Std.OrderedMap.{find, assign}
use nuvio_engine.Std.Sort.{stable_sort}
use nuvio_engine.Http.ByteRange.{ByteRange}

pub data PriorityClass : Type 0 where
  blocking critical playback metadata_tail readahead : PriorityClass

-- The values of the enumeration.
abbrev pub rank : PriorityClass → ℕ
rank blocking = 0
rank critical = 1
rank playback = 2
rank metadata_tail = 3
rank readahead = 4

pub record PiecePriority : Type 0 where
  pub piece : ℕ
  pub priority : PriorityClass

pub record ScheduleRequest : Type 0 where
  pub file_offset : ℕ
  pub file_size : ℕ
  pub piece_size : ℕ
  pub demand : ByteRange
  pub critical_bytes : ℕ
  pub playback_bytes : ℕ
  pub readahead_bytes : ℕ
  pub metadata_tail_bytes : ℕ

abbrev pub Priorities : Type 0
Priorities = List (ℕ × PriorityClass)

unfoldable pub extend_from : ℕ → ℕ → ℕ → ByteRange
extend_from start additional_bytes file_size =
    let exclusive_end = min (saturating_add start additional_bytes) file_size in
    record { start = start; end = if ltb start exclusive_end then exclusive_end - 1 else start }

-- The body of the loop over the pieces.
unfoldable pub raise : Priorities → ℕ → PriorityClass → Priorities
raise priorities index priority = elim (find index priorities) [
  | none ↦ assign index priority priorities
  | some existing ↦
      if ltb (rank priority) (rank existing) then assign index priority priorities else priorities
]

-- `count` pieces from `piece` on.
unfoldable pub raise_pieces : ℕ → ℕ → PriorityClass → Priorities → Priorities
raise_pieces zero piece priority priorities = priorities
raise_pieces (suc count) piece priority priorities =
    raise_pieces count (suc piece) priority (raise priorities piece priority)

unfoldable pub add_range :
    Priorities → ScheduleRequest → ByteRange → PriorityClass → Result Priorities
add_range priorities request range priority =
    if request.file_size == 0 || leb request.file_size range.start
    then ok priorities
    else (let clamped_end = min range.end (request.file_size - 1) in
        let absolute_start = saturating_add request.file_offset range.start in
        let absolute_end = saturating_add request.file_offset clamped_end in
        let first_piece = absolute_start / request.piece_size in
        let last_piece = absolute_end / request.piece_size in
        if ltb u32_max last_piece
        then throws overflow_error
        else ok (raise_pieces (suc last_piece - first_piece) first_piece priority priorities))

-- One of the windows behind the demand: the priorities with it, and the next start.
unfoldable pub add_window :
    Priorities → ScheduleRequest → ℕ → ℕ → PriorityClass → Result (Priorities × ℕ)
add_window priorities request next_start bytes priority =
    if ltb next_start request.file_size && ltb 0 bytes
    then (let range = extend_from next_start bytes request.file_size in
        add_range priorities request range priority >>= λ added.
        ok (added, min (saturating_add range.end 1) request.file_size))
    else ok (priorities, next_start)

unfoldable pub add_tail : Priorities → ScheduleRequest → Result Priorities
add_tail priorities request =
    if ltb 0 request.metadata_tail_bytes
    then (let tail_size = min request.metadata_tail_bytes request.file_size in
        add_range priorities request
          (record { start = request.file_size - tail_size; end = request.file_size - 1 })
          metadata_tail)
    else ok priorities

-- The map that the code collects before it sorts.
unfoldable pub collect : ScheduleRequest → Result Priorities
collect request = do
  demanded ← add_range [] request request.demand blocking
  (urgent, after_critical) ←
      add_window demanded request (min (saturating_add request.demand.end 1) request.file_size)
        request.critical_bytes critical
  (played, after_playback) ←
      add_window urgent request after_critical request.playback_bytes playback
  (ahead, after_readahead) ←
      add_window played request after_playback request.readahead_bytes readahead
  add_tail ahead request

abbrev pub by_priority : PiecePriority → PiecePriority → Bool
by_priority left right = ltb (rank left.priority) (rank right.priority)

abbrev pub entry : ℕ × PriorityClass → PiecePriority
entry (piece, priority) = record { piece = piece; priority = priority }

unfoldable pub sorted_entries : Priorities → List PiecePriority
unfolding stable_sort
sorted_entries priorities = stable_sort by_priority (map entry priorities)

unfoldable pub build_piece_schedule : ScheduleRequest → Result (List PiecePriority)
build_piece_schedule request =
    if request.piece_size == 0
    then throws invalid_argument
    else if request.file_size == 0
    then ok []
    else if ltb request.demand.end request.demand.start
        || leb request.file_size request.demand.start
    then throws invalid_argument
    else (collect request >>= λ priorities. ok (sorted_entries priorities))
