-- ===== src/Tests/Scheduler.antt =====
-- Schedules and plans of concrete demands.
use nuvio_engine.Std.OrderedMap.{assign, find}
use nuvio_engine.Common.{saturating_add, ℕ, ◌≡◌, refl, ◌↔◌, false, List, [], ◌∷◌, In, arith}
use nuvio_engine.Std.Results.{ok, throws, invalid_argument, overflow_error}
use nuvio_engine.Http.ByteRange.{ByteRange}
use nuvio_engine.Scheduler.PieceSchedule.{
  add_range, add_tail, add_window, collect, extend_from, raise, raise_pieces, sorted_entries,
  PriorityClass, blocking, critical, PiecePriority, ScheduleRequest, entry, build_piece_schedule,
}
use nuvio_engine.Scheduler.PieceSchedule.Windows.{InBounds}
use nuvio_engine.Scheduler.PieceSchedule.Order.{IsOrdered}
use nuvio_engine.Scheduler.PieceSchedule.Zones.{IsBest}
use nuvio_engine.Scheduler.PieceSchedule.Priorities.{build_piece_schedule_lem}
use nuvio_engine.Scheduler.DemandWindow.{
  blocking_demand_range, IsDemand, blocking_demand_range-IsDemand,
}
use nuvio_engine.Scheduler.DemandPlan.{
  reader, StreamDemand, StreamWindow, StreamDemandPlan, bare_request, build_stream_demand_plan,
}
use nuvio_engine.Scheduler.DemandPlan.Plan.{IsValid, IsPlan, build_stream_demand_plan-IsPlan}

abbrev demanded : ByteRange
demanded = record { start = 100; end = 149 }

abbrev schedule_request : ScheduleRequest
schedule_request = record {
  file_offset = 10;
  file_size = 1000;
  piece_size = 100;
  demand = demanded;
  critical_bytes = 50;
  playback_bytes = 100;
  readahead_bytes = 100;
  metadata_tail_bytes = 20;
}

abbrev reversed_request : ScheduleRequest
reversed_request = record schedule_request { demand = record { start = 149; end = 100 } }

abbrev huge_request : ScheduleRequest
huge_request = record schedule_request { file_offset = 18446744073709551600 }

schedule_run :
    build_piece_schedule schedule_request
    ≡ ok (
        entry (1, blocking)
        ∷ entry (2, critical)
        ∷ entry (3, PriorityClass.playback)
        ∷ entry (9, PriorityClass.metadata_tail)
        ∷ entry (10, PriorityClass.metadata_tail)
        ∷ entry (4, PriorityClass.readahead)
        ∷ [])
unfolding build_piece_schedule collect add_range saturating_add add_window extend_from add_tail
    sorted_entries raise_pieces raise find assign
schedule_run = refl

reversed_run : build_piece_schedule reversed_request ≡ throws invalid_argument
unfolding build_piece_schedule
reversed_run = refl

huge_run : build_piece_schedule huge_request ≡ throws overflow_error
unfolding build_piece_schedule collect add_range saturating_add
huge_run = refl

abbrev schedule_request-InBounds : InBounds schedule_request
schedule_request-InBounds = record {
  piece_size_pos = omega arith;
  file_size_pos = omega arith;
  demand_ordered = omega arith;
  demand_inside = omega arith;
  demand_word = omega arith;
  file_word = omega arith;
  piece_word = omega arith;
}

build_piece_schedule_lem_example :
    (s : List PiecePriority) × (build_piece_schedule schedule_request ≡ ok s)
    × ((p : ℕ) (c : PriorityClass) → In (entry (p, c)) s ↔ IsBest schedule_request p c)
    × IsOrdered s
build_piece_schedule_lem_example =
    build_piece_schedule_lem schedule_request schedule_request-InBounds

blocking_demand_range-IsDemand_example :
    (r : ByteRange) × (blocking_demand_range demanded 120 10 16 ≡ ok r)
    × IsDemand demanded 120 10 16 r
blocking_demand_range-IsDemand_example =
    blocking_demand_range-IsDemand demanded 120 10 16 (omega arith) (omega arith) (omega arith)
      (omega arith)

abbrev stream_demand : StreamDemand
stream_demand = record {
  id = 7;
  file_offset = 10;
  file_size = 1000;
  piece_size = 100;
  range = demanded;
  kind = reader;
  cold = false;
}

abbrev window : StreamWindow
window = record {
  critical_bytes = 50;
  critical_piece_limit = 2;
  playback_bytes = 100;
  readahead_bytes = 100;
  tail_bytes = 20;
}

abbrev stream_demand-IsValid : IsValid stream_demand
unfolding bare_request
stream_demand-IsValid = record {
  piece_size_pos = omega arith;
  file_size_pos = omega arith;
  demand_ordered = omega arith;
  demand_inside = omega arith;
  demand_word = omega arith;
  file_word = omega arith;
  piece_word = omega arith;
}

build_stream_demand_plan-IsPlan_example :
    (plan : StreamDemandPlan) × (build_stream_demand_plan (stream_demand ∷ []) window ≡ ok plan)
    × IsPlan plan
build_stream_demand_plan-IsPlan_example =
    build_stream_demand_plan-IsPlan (stream_demand ∷ []) window (stream_demand-IsValid, tt)
