-- ===== src/Scheduler/DemandPlan.antt =====
-- src/scheduler/stream_demand_plan.cpp and stream_demand_plan.hpp: one plan for all demands of a
-- torrent. The set `ordered` is a list without an order.
pub mod Marks
pub mod Plan
use nuvio_engine.Common.{
  ℕ, ◌+◌, ◌-◌, ◌*◌, ◌/◌, ◌%◌, Bool, true, false, ◌&&◌, ◌||◌, List, [], ◌∷◌, ◌++◌, map, reverse, min,
  max, u64_mod, ltb, leb, ◌==◌, if◌then◌else◌,
}
use nuvio_engine.Std.Results.{Result, ok, throws, ◌>>=◌}
use nuvio_engine.Std.Sort.{stable_sort}
use nuvio_engine.Http.ByteRange.{ByteRange}
use nuvio_engine.Scheduler.PieceSchedule.{
  PriorityClass, blocking, critical, playback, rank, PiecePriority, ScheduleRequest, Priorities,
  raise, entry, sorted_entries, build_piece_schedule,
}

pub data DemandKind : Type 0 where
  reader anchor prefetch : DemandKind

pub record StreamDemand : Type 0 where
  pub id : ℕ
  pub file_offset : ℕ
  pub file_size : ℕ
  pub piece_size : ℕ
  pub range : ByteRange
  pub kind : DemandKind
  pub cold : Bool

pub record StreamWindow : Type 0 where
  pub critical_bytes : ℕ
  pub critical_piece_limit : ℕ
  pub playback_bytes : ℕ
  pub readahead_bytes : ℕ
  pub tail_bytes : ℕ

pub record StreamDemandPlan : Type 0 where
  pub focused_demand_id : ℕ
  pub pieces : List PiecePriority
  pub deadline_order : List ℕ
  pub cold : Bool

pub is_reader : DemandKind → Bool
is_reader reader = true
is_reader anchor = false
is_reader prefetch = false

is_prefetch : DemandKind → Bool
is_prefetch reader = false
is_prefetch anchor = false
is_prefetch prefetch = true

unfoldable pub merge_schedule : Priorities → List PiecePriority → Priorities
unfolding raise
merge_schedule combined [] = combined
merge_schedule combined (x ∷ xs) = merge_schedule (raise combined x.piece x.priority) xs

-- `ordered.insert(piece).second` holds where the piece is new.
pub contains : ℕ → List ℕ → Bool
contains p [] = false
contains p (x ∷ xs) = (x == p) || contains p xs

pub record Deadlines : Type 0 where
  pub ordered : List ℕ
  pub deadline_order : List ℕ

pub push_deadline : ℕ → Deadlines → Deadlines
unfolding contains
push_deadline piece d =
    if contains piece d.ordered
    then d
    else record { ordered = piece ∷ d.ordered; deadline_order = d.deadline_order ++ piece ∷ [] }

-- The loops that give a deadline to the pieces of one class.
pub push_deadlines : PriorityClass → List PiecePriority → Deadlines → Deadlines
unfolding push_deadline
push_deadlines c [] d = d
push_deadlines c (x ∷ xs) d =
    push_deadlines c xs (if rank x.priority == rank c then push_deadline x.piece d else d)

is_cold : StreamDemand → Bool
unfolding is_prefetch
is_cold focused = is_prefetch focused.kind || focused.cold

critical_for : StreamDemand → StreamWindow → ℕ
unfolding is_cold
critical_for focused window =
    if is_cold focused
    then 0
    else min window.critical_bytes (window.critical_piece_limit * focused.piece_size)

focused_request : StreamDemand → StreamWindow → ScheduleRequest
unfolding critical_for
focused_request focused window = record {
  file_offset = focused.file_offset;
  file_size = focused.file_size;
  piece_size = focused.piece_size;
  demand = focused.range;
  critical_bytes = critical_for focused window;
  playback_bytes = window.playback_bytes;
  readahead_bytes = window.readahead_bytes;
  metadata_tail_bytes = window.tail_bytes;
}

-- A request with no window behind the range.
unfoldable pub bare_request : StreamDemand → ByteRange → ScheduleRequest
bare_request demand range = record {
  file_offset = demand.file_offset;
  file_size = demand.file_size;
  piece_size = demand.piece_size;
  demand = range;
  critical_bytes = 0;
  playback_bytes = 0;
  readahead_bytes = 0;
  metadata_tail_bytes = 0;
}

-- Blocking pieces of a demand that is no reader are critical.
demote : PiecePriority → PiecePriority
demote x = if rank x.priority == rank blocking then record x { priority = critical } else x

pub demoted : DemandKind → List PiecePriority → List PiecePriority
unfolding is_reader demote
demoted kind schedule = if is_reader kind then schedule else map demote schedule

as_playback : PiecePriority → PiecePriority
as_playback x = record x { priority = playback }

index_bytes : StreamDemand → StreamWindow → ℕ
index_bytes focused window = min (max window.tail_bytes (focused.file_size / 64)) focused.file_size

head_bytes : StreamDemand → StreamWindow → ℕ
unfolding critical_for
head_bytes focused window =
    min ((critical_for focused window + window.playback_bytes) % u64_mod) focused.file_size

-- A demand in the index at the end of the file also wants the head of the file.
pub add_head : Priorities → StreamDemand → StreamWindow → Result Priorities
unfolding index_bytes head_bytes bare_request merge_schedule as_playback
add_head combined focused window =
    if ltb 0 window.tail_bytes
      && leb (focused.file_size - index_bytes focused window) focused.range.start
    then (if ltb 0 (head_bytes focused window)
        then (build_piece_schedule
              (bare_request focused (record { start = 0; end = head_bytes focused window - 1 }))
            >>= λ head. ok (merge_schedule combined (map as_playback head)))
        else ok combined)
    else ok combined

-- The other readers, latest first.
pub add_readers : List StreamDemand → Priorities → Deadlines → Result (Priorities × Deadlines)
unfolding is_reader bare_request merge_schedule push_deadlines
add_readers [] combined d = ok (combined, d)
add_readers (demand ∷ rest) combined d = elim (is_reader demand.kind) [
  | false ↦ add_readers rest combined d
  | true ↦ elim (build_piece_schedule (bare_request demand demand.range)) [
    | throws e ↦ throws e
    | ok schedule ↦
        add_readers rest (merge_schedule combined schedule) (push_deadlines blocking schedule d)
  ]
]

abbrev pub no_deadlines : Deadlines
no_deadlines = record { ordered = []; deadline_order = [] }

-- The demands from the last to the first: the focused one is at the front.
pub plan_for : List StreamDemand → StreamWindow → Result StreamDemandPlan
plan_for [] window =
    ok (record { focused_demand_id = 0; pieces = []; deadline_order = []; cold = false })
plan_for (focused ∷ others) window = do
  built ← build_piece_schedule (focused_request focused window)
  let schedule = demoted focused.kind built
  combined ← add_head (merge_schedule [] schedule) focused window
  (merged, d) ← add_readers others combined (push_deadlines blocking schedule no_deadlines)
  ok (record {
    focused_demand_id = focused.id;
    pieces = sorted_entries merged;
    deadline_order = (push_deadlines critical (map entry merged) d).deadline_order;
    cold = is_cold focused;
  })

abbrev by_id : StreamDemand → StreamDemand → Bool
by_id left right = ltb left.id right.id

unfoldable pub build_stream_demand_plan : List StreamDemand → StreamWindow → Result StreamDemandPlan
build_stream_demand_plan demands window = plan_for (reverse (stable_sort by_id demands)) window
