-- ===== src/Torrent/StreamBridge/Kept/Scheduling.antt =====
-- src/torrent/libtorrent_stream_bridge.cpp: `recompute_schedule` keeps the waiters.
use nuvio_engine.Common.{
  ℕ, ◌+◌, refl, Bool, true, false, List, [], ◌∷◌, Option, none, some, Bytes, bytes_eq_instance,
  nat_eq,
}
use nuvio_engine.Std.UnorderedMap.{lookup, erase, erase_if, member}
use nuvio_engine.Scheduler.PieceSchedule.{Priorities}
use nuvio_engine.Scheduler.DemandPlan.{StreamDemandPlan, build_stream_demand_plan}
use nuvio_engine.Torrent.StreamBridge.State.{
  PieceKey, Bridge, Library, Call, CurrentSchedule, Refusal, ActiveDemand, call,
}
use nuvio_engine.Torrent.StreamBridge.Kept.{
  Keeps, Keeps-same, Keeps-trans, by_bool, by_if, by_option, by_result, fail_piece-Keeps,
}
use nuvio_engine.Torrent.StreamBridge.Deadlines.{
  reset_deadline, reset_deadlines, is_jump, answered, set_deadline, set_deadlines, apply_deadlines,
}
use nuvio_engine.Torrent.StreamBridge.Recompute.{
  move_anchor, apply_priorities, apply_first_blocks, store_schedule, apply_schedule, reschedule,
  usable_handle, has_stream, kept_priorities, combine, recompute_schedule,
}
use nuvio_engine.Torrent.StreamBridge.Demands.{collect_demands, first_blocks_of}

pub call-Keeps :
    (library : Library) (handle : ℕ) (c : Call) (s : Bridge) → Keeps s (call library handle c s)
unfolding call
call-Keeps library handle c s =
    by_option (Keeps s) (library.refuses handle c) (Keeps-same s _ refl refl)
      (λ r. Keeps-same s s refl refl)

reset_deadlines-Keeps :
    (library : Library) (handle : ℕ) (id : Bytes) (pieces : List ℕ) (s : Bridge)
    → Keeps s (reset_deadlines library handle id pieces s)
unfolding reset_deadlines reset_deadline
reset_deadlines-Keeps library handle id [] s = Keeps-same s s refl refl
reset_deadlines-Keeps library handle id (piece ∷ pieces) s =
    Keeps-trans s _ _ (Keeps-trans s _ _ (call-Keeps library handle _ s) (Keeps-same _ _ refl refl))
      (reset_deadlines-Keeps library handle id pieces _)

answered-Keeps :
    (refusal : Option Refusal) (now handle : ℕ) (key : PieceKey) (wants : Bool) (c : Call)
    (s : Bridge)
    → Keeps s (answered refusal now handle key wants c s)
unfolding answered
answered-Keeps none now handle key wants c s = Keeps-same s _ refl refl
answered-Keeps (some refusal) now handle key wants c s = fail_piece-Keeps key _ s

set_deadlines-Keeps :
    (library : Library) (now handle : ℕ) (id : Bytes) (jumped : Bool) (previous next : List ℕ)
    (ordinal : ℕ) (s : Bridge)
    → Keeps s (set_deadlines library now handle id jumped previous next ordinal s)
unfolding set_deadlines set_deadline
set_deadlines-Keeps library now handle id jumped previous [] ordinal s = Keeps-same s s refl refl
set_deadlines-Keeps library now handle id jumped previous (piece ∷ next) ordinal s =
    Keeps-trans s _ _
      (by_bool (Keeps s) _ (Keeps-same s s refl refl) (answered-Keeps _ now handle _ _ _ s))
      (set_deadlines-Keeps library now handle id jumped previous next (ordinal + 1) _)

apply_deadlines-Keeps :
    (library : Library) (now handle : ℕ) (id : Bytes) (previous next : List ℕ) (s : Bridge)
    → Keeps s (apply_deadlines library now handle id previous next s)
unfolding apply_deadlines
apply_deadlines-Keeps library now handle id previous next s =
    by_bool (Keeps s) (is_jump previous next)
      (Keeps-trans s _ _ (reset_deadlines-Keeps library handle id previous s)
        (set_deadlines-Keeps library now handle id true previous next 0 _))
      (Keeps-trans s _ _ (set_deadlines-Keeps library now handle id false previous next 0 s) (
        reset_deadlines-Keeps library handle id (erase_if (λ piece. member piece next) previous) _))

apply_priorities-Keeps :
    (library : Library) (handle : ℕ) (previous : Option CurrentSchedule) (combined : Priorities)
    (cold : Bool) (s : Bridge)
    → Keeps s (apply_priorities library handle previous combined cold s)
unfolding apply_priorities
apply_priorities-Keeps library handle none combined cold s =
    by_option (Keeps s) (library.num_pieces handle) (Keeps-same s s refl refl)
      (λ n. call-Keeps library handle _ s)
apply_priorities-Keeps library handle (some previous) combined cold s =
    by_if (Keeps s) _ (Keeps-same s s refl refl) (call-Keeps library handle _ s)

apply_first_blocks-Keeps :
    (library : Library) (handle : ℕ) (before : List (ℕ × ℕ)) (previous : List ℕ)
    (wanted : List (ℕ × ℕ)) (next : List ℕ) (s : Bridge)
    → Keeps s (apply_first_blocks library handle before previous wanted next s)
unfolding apply_first_blocks
apply_first_blocks-Keeps library handle before previous wanted [] s = Keeps-same s s refl refl
apply_first_blocks-Keeps library handle before previous wanted (piece ∷ next) s =
    Keeps-trans s _ _ (by_if (Keeps s) _ (call-Keeps library handle _ s) (Keeps-same s s refl refl))
      (apply_first_blocks-Keeps library handle before previous wanted next _)

apply_schedule-Keeps :
    (library : Library) (now : ℕ) (id : Bytes) (handle : ℕ) (previous : Option CurrentSchedule)
    (combined : Priorities) (plan : StreamDemandPlan) (wanted : List (ℕ × ℕ)) (s : Bridge)
    → Keeps s (apply_schedule library now id handle previous combined plan wanted s)
unfolding apply_schedule store_schedule
apply_schedule-Keeps library now id handle previous combined plan wanted s =
    Keeps-trans s _ _ (apply_priorities-Keeps library handle previous combined plan.cold s) (
      Keeps-trans _ _ _ (apply_deadlines-Keeps library now handle id _ plan.deadline_order _) (
        Keeps-trans _ _ _ (apply_first_blocks-Keeps library handle _ _ wanted plan.deadline_order _)
          (Keeps-same _ _ refl refl)))

move_anchor-Keeps :
    (id : Bytes) (focused : Option ActiveDemand) (s : Bridge) → Keeps s (move_anchor id focused s)
unfolding move_anchor
move_anchor-Keeps id none s = Keeps-same s s refl refl
move_anchor-Keeps id (some focused) s = Keeps-same s _ refl refl

reschedule-Keeps :
    (library : Library) (now : ℕ) (id : Bytes) (handle : Option ℕ) (wanted : List (ℕ × ℕ))
    (plan : StreamDemandPlan) (s : Bridge)
    → Keeps s (reschedule library now id handle wanted plan s)
unfolding reschedule
reschedule-Keeps library now id handle wanted plan s =
    by_option (Keeps s) (usable_handle library handle (lookup id s.current_schedules))
      (Keeps-same s (record s { current_schedules = erase id s.current_schedules }) refl refl)
      (λ usable.
        apply_schedule-Keeps library now id usable (lookup id s.current_schedules)
          (kept_priorities (has_stream id s.routes) (lookup id s.current_schedules)
            (combine plan.pieces []))
          plan wanted s)

pub recompute_schedule-Keeps :
    (library : Library) (now : ℕ) (id : Bytes) (s : Bridge)
    → Keeps s (recompute_schedule library now id s)
unfolding recompute_schedule
recompute_schedule-Keeps library now id s =
    let wanted = first_blocks_of (collect_demands id s).0 [] in
    by_result (Keeps s) (build_stream_demand_plan (collect_demands id s).0 s.window)
      (λ e. Keeps-same s s refl refl)
      (λ plan.
        Keeps-trans s _ _ (move_anchor-Keeps id (lookup plan.focused_demand_id s.active_demands) s)
          (reschedule-Keeps library now id (collect_demands id s).1 wanted plan _))
