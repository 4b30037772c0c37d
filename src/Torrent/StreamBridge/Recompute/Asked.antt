-- ===== src/Torrent/StreamBridge/Recompute/Asked.antt =====
-- src/torrent/libtorrent_stream_bridge.cpp: the deadlines that all the calls for a schedule ask for.
use nuvio_engine.Common.{
  ℕ, ◌≡◌, refl, ◌∙◌, Bool, true, false, ◌&&◌, ◌||◌, not, List, [], ◌∷◌, Option, none, some, Bytes,
  ltb, ◌==◌, if◌then◌else◌, nat_eq,
}
use nuvio_engine.Std.UnorderedMap.{member}
use nuvio_engine.Scheduler.PieceSchedule.{Priorities}
use nuvio_engine.Scheduler.DemandPlan.{StreamDemandPlan}
use nuvio_engine.Scheduler.DemandPlan.Marks.{Distinct}
use nuvio_engine.Torrent.StreamBridge.State.{
  CurrentSchedule, Bridge, Library, Call, prioritize_all, prioritize_pieces, set_piece_first_block,
  call,
}
use nuvio_engine.Torrent.StreamBridge.Kept.{by_if, by_option}
use nuvio_engine.Torrent.StreamBridge.Waiters.{is_empty}
use nuvio_engine.Torrent.StreamBridge.Priorities.{full_priorities, priority_updates}
use nuvio_engine.Torrent.StreamBridge.Deadlines.{
  is_jump, apply_deadlines, asked_after, asked_in, order_deadline,
}
use nuvio_engine.Torrent.StreamBridge.Deadlines.Applied.{apply_deadlines-order_deadline}
use nuvio_engine.Torrent.StreamBridge.Recompute.{
  apply_priorities, order_before, blocks_before, block_at, apply_first_blocks, store_schedule,
  apply_schedule,
}

-- The calls ask for the same deadlines.
SameDeadlines : ℕ → Bridge → Bridge → Type 0
SameDeadlines handle s t =
    (piece : ℕ) → asked_in t.calls handle piece ≡ asked_in s.calls handle piece

call-SameDeadlines :
    (library : Library) (handle : ℕ) (c : Call) (s : Bridge)
    → ((piece : ℕ) (before : Option ℕ) → asked_after c piece before ≡ before)
    → SameDeadlines handle s (call library handle c s)
unfolding SameDeadlines call asked_in
call-SameDeadlines library handle c s same piece =
    by_option (λ t. asked_in t.calls handle piece ≡ asked_in s.calls handle piece)
      (library.refuses handle c) {x = record s { calls = (handle, c) ∷ s.calls }}
      (by_handle (handle == handle)) (λ r. refl)
  where
    by_handle :
        (b : Bool)
        → (if b
            then asked_after c piece (asked_in s.calls handle piece)
            else asked_in s.calls handle piece)
          ≡ asked_in s.calls handle piece
    by_handle true = same piece (asked_in s.calls handle piece)
    by_handle false = refl

apply_priorities-SameDeadlines :
    (library : Library) (handle : ℕ) (previous : Option CurrentSchedule) (combined : Priorities)
    (cold : Bool) (s : Bridge)
    → SameDeadlines handle s (apply_priorities library handle previous combined cold s)
unfolding apply_priorities SameDeadlines asked_after
apply_priorities-SameDeadlines library handle none combined cold s =
    by_option (SameDeadlines handle s) (library.num_pieces handle) (λ piece. refl)
      (λ n.
        call-SameDeadlines library handle (prioritize_all (full_priorities combined cold n)) s
          (λ piece before. refl))
apply_priorities-SameDeadlines library handle (some previous) combined cold s =
    let updates = priority_updates previous.priorities previous.cold combined cold in
    by_if (SameDeadlines handle s) (is_empty updates) (λ piece. refl)
      (call-SameDeadlines library handle (prioritize_pieces updates) s (λ piece before. refl))

apply_first_blocks-SameDeadlines :
    (library : Library) (handle : ℕ) (before : List (ℕ × ℕ)) (previous : List ℕ)
    (wanted : List (ℕ × ℕ)) (next : List ℕ) (s : Bridge)
    → SameDeadlines handle s (apply_first_blocks library handle before previous wanted next s)
unfolding apply_first_blocks SameDeadlines asked_after
apply_first_blocks-SameDeadlines library handle before previous wanted [] s piece = refl
apply_first_blocks-SameDeadlines library handle before previous wanted (first ∷ next) s piece =
    let block = block_at wanted first in
    apply_first_blocks-SameDeadlines library handle before previous wanted next _ piece
    ∙ by_if (SameDeadlines handle s)
        (not (block == block_at before first) || (ltb 0 block && not (member first previous)))
        (call-SameDeadlines library handle (set_piece_first_block first block) s
          (λ p before_call. refl))
        (λ p. refl) piece

-- The calls follow the schedule. Where the library throws at none, the calls so far ask for every piece
-- for the deadline of the order before, none without one, and neither order names a piece twice: after
-- all calls for a new schedule, those for priorities and first blocks included, they ask for every piece
-- for exactly the deadline of the new order, and for none for a piece that is not in it, whether the
-- reader jumped or moved on, and although a deadline that stays is not asked for again.
pub apply_schedule-order_deadline :
    (library : Library) (now : ℕ) (id : Bytes) (handle : ℕ) (previous : Option CurrentSchedule)
    (combined : Priorities) (plan : StreamDemandPlan) (wanted : List (ℕ × ℕ)) (s : Bridge)
    → ((c : Call) → library.refuses handle c ≡ none)
    → Distinct (order_before previous)
    → Distinct plan.deadline_order
    → ((p : ℕ) → asked_in s.calls handle p ≡ order_deadline (order_before previous) 0 p)
    → (piece : ℕ)
    → asked_in
        (apply_schedule library now id handle previous combined plan wanted s).calls
        handle
        piece
      ≡ order_deadline plan.deadline_order 0 piece
unfolding apply_schedule store_schedule SameDeadlines
apply_schedule-order_deadline library now id handle previous combined plan wanted s takes c d h
      piece =
    let before = order_before previous in
    let prioritized = apply_priorities library handle previous combined plan.cold s in
    let timed = apply_deadlines library now handle id before plan.deadline_order prioritized in
    apply_first_blocks-SameDeadlines library handle
      (if is_jump before plan.deadline_order then [] else blocks_before previous) before wanted
      plan.deadline_order timed piece
    ∙ apply_deadlines-order_deadline library now handle id before plan.deadline_order prioritized
        takes c d
        (λ p. apply_priorities-SameDeadlines library handle previous combined plan.cold s p ∙ h p)
        piece
