-- ===== src/Torrent/StreamBridge/Recompute.antt =====
-- src/torrent/libtorrent_stream_bridge.cpp: `recompute_schedule`, which plans the demands of a torrent and
-- gives the library the difference to the schedule before.
pub mod Asked
use nuvio_engine.Common.{
  ℕ, ◌+◌, ◌%◌, Bool, true, false, ◌&&◌, ◌||◌, not, List, [], ◌∷◌, Option, none, some, Bytes,
  bytes_eq, u64_mod, ltb, ◌==◌, if◌then◌else◌, nat_eq, bytes_eq_instance,
}
use nuvio_engine.Std.Results.{ok, throws}
use nuvio_engine.Std.OrderedMap.{find, assign}
use nuvio_engine.Std.UnorderedMap.{lookup, insert_or_assign, erase, member}
use nuvio_engine.Cache.PieceCache.{key_eq_instance}
use nuvio_engine.Scheduler.PieceSchedule.{
  PriorityClass, blocking, critical, playback, rank, PiecePriority, Priorities,
}
use nuvio_engine.Scheduler.DemandPlan.{StreamDemandPlan, prefetch, build_stream_demand_plan}
use nuvio_engine.Torrent.StreamBridge.{StreamRoute}
use nuvio_engine.Torrent.StreamBridge.State.{
  ActiveDemand, CurrentSchedule, Bridge, Library, prioritize_all, prioritize_pieces,
  set_piece_first_block, call,
}
use nuvio_engine.Torrent.StreamBridge.Waiters.{is_empty}
use nuvio_engine.Torrent.StreamBridge.Priorities.{full_priorities, priority_updates}
use nuvio_engine.Torrent.StreamBridge.Deadlines.{is_jump, apply_deadlines}
use nuvio_engine.Torrent.StreamBridge.Demands.{collect_demands, first_blocks_of}

unfoldable pub combine : List PiecePriority → Priorities → Priorities
unfolding assign
combine [] combined = combined
combine (x ∷ xs) combined = combine xs (assign x.piece x.priority combined)

-- The focused demand is where the stream is read.
unfoldable pub move_anchor : Bytes → Option ActiveDemand → Bridge → Bridge
unfolding insert_or_assign
move_anchor id none s = s
move_anchor id (some focused) s = record s {
  anchors =
      insert_or_assign id
        (record { route = focused.route; range = focused.range; prefetch = false }) s.anchors;
}

unfoldable pub has_stream : Bytes → List (Bytes × StreamRoute) → Bool
unfolding bytes_eq
has_stream id [] = false
has_stream id ((target, route) ∷ routes) = bytes_eq route.torrent_id id || has_stream id routes

unfoldable pub relax : PriorityClass → PriorityClass
relax blocking = playback
relax critical = playback
relax other = other

unfoldable pub relax_all : Priorities → Priorities
unfolding relax
relax_all [] = []
relax_all ((piece, priority) ∷ priorities) = (piece, relax priority) ∷ relax_all priorities

-- A stream without a demand keeps the pieces of the schedule before, none of them urgent.
unfoldable pub kept_priorities : Bool → Option CurrentSchedule → Priorities → Priorities
unfolding relax_all
kept_priorities streams none combined = combined
kept_priorities streams (some previous) combined =
    if is_empty combined && streams then relax_all previous.priorities else combined

unfoldable pub usable_handle : Library → Option ℕ → Option CurrentSchedule → Option ℕ
usable_handle library (some handle) previous = if library.is_valid handle then some handle else none
usable_handle library none none = none
usable_handle library none (some previous) =
    if library.is_valid previous.handle then some previous.handle else none

unfoldable pub apply_priorities :
    Library → ℕ → Option CurrentSchedule → Priorities → Bool → Bridge → Bridge
unfolding full_priorities priority_updates call
apply_priorities library handle none combined cold s = elim (library.num_pieces handle) [
  | none ↦ s
  | some num_pieces ↦
      call library handle (prioritize_all (full_priorities combined cold num_pieces)) s
]
apply_priorities library handle (some previous) combined cold s =
    let updates = priority_updates previous.priorities previous.cold combined cold in
    if is_empty updates then s else call library handle (prioritize_pieces updates) s

unfoldable pub order_before : Option CurrentSchedule → List ℕ
order_before none = []
order_before (some previous) = previous.deadline_order

unfoldable pub blocks_before : Option CurrentSchedule → List (ℕ × ℕ)
blocks_before none = []
blocks_before (some previous) = previous.first_blocks

unfoldable pub block_at : List (ℕ × ℕ) → ℕ → ℕ
unfolding find
block_at blocks piece = elim (find piece blocks) [ none ↦ 0 | some block ↦ block ]

-- The calls for the first blocks, with those before; after a jump there are none before.
unfoldable pub apply_first_blocks :
    Library → ℕ → List (ℕ × ℕ) → List ℕ → List (ℕ × ℕ) → List ℕ → Bridge → Bridge
unfolding block_at member call
apply_first_blocks library handle before previous wanted [] s = s
apply_first_blocks library handle before previous wanted (piece ∷ next) s =
    let block = block_at wanted piece in
    apply_first_blocks library handle before previous wanted next (
      if not (block == block_at before piece) || (ltb 0 block && not (member piece previous))
      then call library handle (set_piece_first_block piece block) s
      else s)

unfoldable pub applied_first_blocks : List (ℕ × ℕ) → List ℕ → List (ℕ × ℕ) → List (ℕ × ℕ)
unfolding block_at assign find
applied_first_blocks wanted [] applied = applied
applied_first_blocks wanted (piece ∷ next) applied =
    let block = block_at wanted piece in
    applied_first_blocks wanted next (
      if ltb 0 block
      then elim (find piece applied) [ none ↦ assign piece block applied | some b ↦ applied ]
      else applied)

unfoldable pub same_priorities : Priorities → Priorities → Bool
same_priorities [] [] = true
same_priorities [] (y ∷ ys) = false
same_priorities (x ∷ xs) [] = false
same_priorities (x ∷ xs) (y ∷ ys) = (x.0 == y.0) && (rank x.1 == rank y.1) && same_priorities xs ys

unfoldable pub next_revision : Option CurrentSchedule → Priorities → StreamDemandPlan → ℕ
unfolding same_priorities bytes_eq
next_revision none combined plan = 1
next_revision (some previous) combined plan =
    if same_priorities previous.priorities combined
      && bytes_eq previous.deadline_order plan.deadline_order
      && (previous.focused_demand_id == plan.focused_demand_id)
    then previous.revision
    else (previous.revision + 1) % u64_mod

unfoldable pub store_schedule :
    Bytes
    → ℕ
    → Option CurrentSchedule
    → Priorities
    → StreamDemandPlan
    → List (ℕ × ℕ)
    → Bridge
    → Bridge
unfolding erase insert_or_assign next_revision applied_first_blocks
store_schedule id handle previous combined plan wanted s = record s {
  current_schedules =
      if is_empty combined
      then erase id s.current_schedules
      else insert_or_assign id
          (record {
            handle = handle;
            priorities = combined;
            deadline_order = plan.deadline_order;
            focused_demand_id = plan.focused_demand_id;
            revision = next_revision previous combined plan;
            cold = plan.cold;
            first_blocks = applied_first_blocks wanted plan.deadline_order [];
          })
          s.current_schedules;
}

-- From the priorities on, with a handle.
unfoldable pub apply_schedule :
    Library
    → ℕ
    → Bytes
    → ℕ
    → Option CurrentSchedule
    → Priorities
    → StreamDemandPlan
    → List (ℕ × ℕ)
    → Bridge
    → Bridge
unfolding apply_priorities apply_deadlines apply_first_blocks store_schedule order_before
    blocks_before is_jump
apply_schedule library now id handle previous combined plan wanted s =
    let before = order_before previous in
    let prioritized = apply_priorities library handle previous combined plan.cold s in
    let timed = apply_deadlines library now handle id before plan.deadline_order prioritized in
    let blocks = if is_jump before plan.deadline_order then [] else blocks_before previous in
    store_schedule id handle previous combined plan wanted
      (apply_first_blocks library handle blocks before wanted plan.deadline_order timed)

-- From the plan on.
unfoldable pub reschedule :
    Library → ℕ → Bytes → Option ℕ → List (ℕ × ℕ) → StreamDemandPlan → Bridge → Bridge
unfolding usable_handle kept_priorities combine has_stream apply_schedule lookup erase
reschedule library now id handle wanted plan s =
    let previous = lookup id s.current_schedules in
    elim (usable_handle library handle previous) [
      | none ↦ record s { current_schedules = erase id s.current_schedules }
      | some usable ↦
          apply_schedule library now id usable previous
            (kept_priorities (has_stream id s.routes) previous (combine plan.pieces [])) plan wanted
            s
    ]

unfoldable pub recompute_schedule : Library → ℕ → Bytes → Bridge → Bridge
unfolding collect_demands first_blocks_of move_anchor reschedule lookup
recompute_schedule library now id s =
    let (demands, handle) = collect_demands id s in
    elim (build_stream_demand_plan demands s.window) [
      | throws e ↦ s
      | ok plan ↦
          reschedule library now id handle (first_blocks_of demands []) plan
            (move_anchor id (lookup plan.focused_demand_id s.active_demands) s)
    ]
