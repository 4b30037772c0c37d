-- ===== src/Scheduler/PieceSchedule/Errors.antt =====
-- The exceptions of the schedule.
use nuvio_engine.Common.{ℕ, ◌<◌, ◌≤◌, ◌≡◌, ◌↔◌, ◌⊎◌, arith}
use nuvio_engine.Std.Results.{Exception, throws, invalid_argument, overflow_error}
use nuvio_engine.Http.ByteRange.{ByteRange}
use nuvio_engine.Scheduler.PieceSchedule.{
  PriorityClass, ScheduleRequest, Priorities, add_range, add_window, add_tail, collect,
  build_piece_schedule,
}

add_range-throws :
    (m : Priorities) (r : ScheduleRequest) (range : ByteRange) (c : PriorityClass) (e : Exception)
    → add_range m r range c ≡ throws e
    → e ≡ overflow_error
unfolding add_range
add_range-throws m r range c e h = ground arith

add_window-throws :
    (m : Priorities) (r : ScheduleRequest) (next bytes : ℕ) (c : PriorityClass) (e : Exception)
    → add_window m r next bytes c ≡ throws e
    → e ≡ overflow_error
unfolding add_window
add_window-throws m r next bytes c e h = grind (arith, add_range-throws)

add_tail-throws :
    (m : Priorities) (r : ScheduleRequest) (e : Exception)
    → add_tail m r ≡ throws e
    → e ≡ overflow_error
unfolding add_tail
add_tail-throws m r e h = grind (arith, add_range-throws)

collect-throws : (r : ScheduleRequest) (e : Exception) → collect r ≡ throws e → e ≡ overflow_error
unfolding collect
collect-throws r e h = grind (arith, add_range-throws, add_window-throws, add_tail-throws)

-- Why a request is refused.
abbrev pub IsInvalid : ScheduleRequest → Type 0
IsInvalid r =
    (r.piece_size ≡ 0)
    ⊎ ((0 < r.file_size) × ((r.demand.end < r.demand.start) ⊎ (r.file_size ≤ r.demand.start)))

refusal : (r : ScheduleRequest) → build_piece_schedule r ≡ throws invalid_argument → IsInvalid r
unfolding build_piece_schedule
refusal r h = grind (arith, collect-throws)

-- `invalid_argument` is thrown exactly for a piece size of zero, or on a file that is not empty for
-- a demand that is reversed or starts behind the file.
pub build_piece_schedule-throws :
    (r : ScheduleRequest) → (build_piece_schedule r ≡ throws invalid_argument) ↔ IsInvalid r
unfolding build_piece_schedule
build_piece_schedule-throws r = (refusal r, λ v. ground arith)

-- No other exception is thrown than `invalid_argument` and `overflow_error`.
pub build_piece_schedule_exceptions :
    (r : ScheduleRequest) (e : Exception)
    → build_piece_schedule r ≡ throws e
    → (e ≡ overflow_error) ⊎ (e ≡ invalid_argument)
unfolding build_piece_schedule
build_piece_schedule_exceptions r e h = grind (arith, collect-throws)
