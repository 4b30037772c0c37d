-- ===== src/Torrent/StreamBridge/Deadlines.antt =====
-- src/torrent/libtorrent_stream_bridge.cpp: the piece deadlines of `recompute_schedule`, with the
-- lambdas `in_next`, `in_previous` and `reset_deadline`.
pub mod Order
pub mod Applied
use nuvio_engine.Common.{
  ℕ, ◌+◌, Bool, true, false, ◌&&◌, ◌||◌, not, List, [], ◌∷◌, Option, none, some, Bytes, get_elem?,
  ◌==◌, if◌then◌else◌, nat_eq,
}
use nuvio_engine.Text.{codes}
use nuvio_engine.Std.UnorderedMap.{has_key, try_emplace, erase, erase_if, member}
use nuvio_engine.Cache.PieceCache.{key_eq_instance}
use nuvio_engine.Torrent.StreamBridge.{deadline_for}
use nuvio_engine.Torrent.StreamBridge.State.{
  PieceKey, Bridge, Library, Refusal, described, unknown, Call, set_piece_deadline,
  reset_piece_deadline, clear_piece_deadlines, call,
}
use nuvio_engine.Torrent.StreamBridge.Waiters.{is_empty, fail_piece}

unfoldable pub message : Refusal → Bytes
message (described text) = text
message unknown = codes "failed to request blocking piece"

abbrev pub key_of : Bytes → ℕ → PieceKey
key_of id piece = record { torrent_id = id; piece = piece }

unfoldable pub reset_deadline : Library → ℕ → Bytes → ℕ → Bridge → Bridge
unfolding call erase
reset_deadline library handle id piece s =
    let called = call library handle (reset_piece_deadline piece) s in
    record called { requested_reads = erase (key_of id piece) called.requested_reads }

unfoldable pub reset_deadlines : Library → ℕ → Bytes → List ℕ → Bridge → Bridge
unfolding reset_deadline
reset_deadlines library handle id [] s = s
reset_deadlines library handle id (piece ∷ pieces) s =
    reset_deadlines library handle id pieces (reset_deadline library handle id piece s)

unfoldable pub none_in : List ℕ → List ℕ → Bool
unfolding member
none_in [] next = true
none_in (piece ∷ previous) next = not (member piece next) && none_in previous next

-- The new order has no piece of the order before.
unfoldable pub is_jump : List ℕ → List ℕ → Bool
unfolding none_in
is_jump previous next = not (is_empty previous) && not (is_empty next) && none_in previous next

unfoldable pub is_at : Option ℕ → ℕ → Bool
is_at none piece = false
is_at (some previous) piece = previous == piece

-- What follows `set_piece_deadline`, by the exception of the call.
unfoldable pub answered : Option Refusal → ℕ → ℕ → PieceKey → Bool → Call → Bridge → Bridge
unfolding try_emplace message fail_piece
answered (some refusal) now handle key wants_read request s = fail_piece key (message refusal) s
answered none now handle key wants_read request s = record s {
  calls = (handle, request) ∷ s.calls;
  requested_reads = if wants_read then try_emplace key now s.requested_reads else s.requested_reads;
}

-- The body of the loop over the new order.
unfoldable pub set_deadline : Library → ℕ → ℕ → Bytes → ℕ → Bool → ℕ → Bridge → Bridge
unfolding has_key answered
set_deadline library now handle id ordinal unchanged piece s =
    let key = key_of id piece in
    let read_requested = has_key key s.requested_reads in
    let wants_read = has_key key s.piece_waiters && not read_requested in
    let request = set_piece_deadline piece (deadline_for ordinal) (wants_read || read_requested) in
    elim (unchanged && not wants_read) [
      | true ↦ s
      | false ↦ answered (library.refuses handle request) now handle key wants_read request s
    ]

unfoldable pub set_deadlines :
    Library → ℕ → ℕ → Bytes → Bool → List ℕ → List ℕ → ℕ → Bridge → Bridge
unfolding is_at set_deadline
set_deadlines library now handle id jumped previous [] ordinal s = s
set_deadlines library now handle id jumped previous (piece ∷ next) ordinal s =
    set_deadlines library now handle id jumped previous next (ordinal + 1) (
      set_deadline library now handle id ordinal
        (not jumped && is_at (get_elem? previous ordinal) piece) piece s)

unfoldable pub apply_deadlines : Library → ℕ → ℕ → Bytes → List ℕ → List ℕ → Bridge → Bridge
unfolding is_jump reset_deadlines set_deadlines erase_if member
apply_deadlines library now handle id previous next s = elim (is_jump previous next) [
  | true ↦
      set_deadlines library now handle id true previous next 0
        (reset_deadlines library handle id previous s)
  | false ↦
      reset_deadlines library handle id (erase_if (λ piece. member piece next) previous)
        (set_deadlines library now handle id false previous next 0 s)
]

-- The deadline that is asked for a piece after a call, if one is: that of the last call that names
-- the piece or all pieces. What the library makes of a deadline, and from when it counts it, is outside
-- of the model.
unfoldable pub asked_after : Call → ℕ → Option ℕ → Option ℕ
asked_after (set_piece_deadline other milliseconds alert) piece before =
    if other == piece then some milliseconds else before
asked_after (reset_piece_deadline other) piece before = if other == piece then none else before
asked_after clear_piece_deadlines piece before = none
asked_after other piece before = before

-- The deadline that the calls ask for a piece, the latest of which is first.
unfoldable pub asked_in : List (ℕ × Call) → ℕ → ℕ → Option ℕ
unfolding asked_after
asked_in [] handle piece = none
asked_in ((to, c) ∷ earlier) handle piece =
    let before = asked_in earlier handle piece in
    if to == handle then asked_after c piece before else before

-- The deadline that an order of pieces gives, from an ordinal on.
unfoldable pub order_deadline : List ℕ → ℕ → ℕ → Option ℕ
order_deadline [] ordinal piece = none
order_deadline (first ∷ rest) ordinal piece =
    let others = order_deadline rest (ordinal + 1) piece in
    if first == piece then some (deadline_for ordinal) else others
