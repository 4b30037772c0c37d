-- ===== src/Torrent/StreamBridge/Deadlines/Applied.antt =====
-- src/torrent/libtorrent_stream_bridge.cpp: the calls of `recompute_schedule` ask for the
-- deadlines of the new order.
use nuvio_engine.Common.{
  ℕ, ◌+◌, ◌≡◌, refl, sym, ap, ◌∙◌, subst, Bool, true, false, ◌&&◌, ◌||◌, not, &&_left, Bool-cases,
  inl, inr, List, [], ◌∷◌, Option, none, some, Bytes, In, get_elem?, arith, ◌==◌, if◌then◌else◌,
  nat_eq,
}
use nuvio_engine.Std.UnorderedMap.{erase_if, member, has_key}
use nuvio_engine.Scheduler.DemandPlan.Marks.{Distinct}
use nuvio_engine.Torrent.StreamBridge.{deadline_for}
use nuvio_engine.Cache.PieceCache.{key_eq_instance}
use nuvio_engine.Torrent.StreamBridge.State.{
  PieceKey, Bridge, Library, Call, Refusal, call, reset_piece_deadline, set_piece_deadline,
}
use nuvio_engine.Torrent.StreamBridge.Deadlines.{
  reset_deadline, reset_deadlines, is_jump, is_at, answered, set_deadline, set_deadlines,
  apply_deadlines, asked_in, asked_after, order_deadline, key_of,
}
use nuvio_engine.Torrent.StreamBridge.Deadlines.Order.{
  or_else, order_absent, order_at, unchanged_at, or_else-step, or_else-none, order_reset,
  order_left,
}

call_taken :
    (library : Library) (handle : ℕ) (c : Call) (s : Bridge)
    → library.refuses handle c ≡ none
    → (call library handle c s).calls ≡ (handle, c) ∷ s.calls
unfolding call
call_taken library handle c s e = by_refusal (library.refuses handle c) e
  where
    by_refusal :
        (refusal : Option Refusal)
        → refusal ≡ none
        → (elim refusal as (λ r. Bridge) [
          | some r ↦ s
          | none ↦ record s { calls = (handle, c) ∷ s.calls }
        ]).calls
          ≡ (handle, c) ∷ s.calls
    by_refusal none e = refl
    by_refusal (some r) e = cc

reset_deadline_at :
    (library : Library) (handle : ℕ) (id : Bytes)
    (takes : (c : Call) → library.refuses handle c ≡ none) (other piece : ℕ) (s : Bridge)
    → asked_in (reset_deadline library handle id other s).calls handle piece
      ≡ (if other == piece then none else asked_in s.calls handle piece)
unfolding asked_in reset_deadline asked_after
reset_deadline_at library handle id takes other piece s =
    ap (λ calls. asked_in calls handle piece)
      (call_taken library handle (reset_piece_deadline other) s
        (takes (reset_piece_deadline other)))
    ∙ ground arith

reset_deadlines_at :
    (library : Library) (handle : ℕ) (id : Bytes)
    (takes : (c : Call) → library.refuses handle c ≡ none) (pieces : List ℕ) (piece : ℕ)
    (s : Bridge)
    → asked_in (reset_deadlines library handle id pieces s).calls handle piece
      ≡ (if member piece pieces then none else asked_in s.calls handle piece)
unfolding reset_deadlines member
reset_deadlines_at library handle id takes [] piece s = refl
reset_deadlines_at library handle id takes (other ∷ pieces) piece s =
    reset_deadlines_at library handle id takes pieces piece _
    ∙ ap (λ (d : Option ℕ). if member piece pieces then none else d)
        (reset_deadline_at library handle id takes other piece s)
    ∙ ground arith

-- The body of the loop, by its test and by the exception of the call.
answered_at :
    (skips : Bool) (refusal : Option Refusal) (now handle : ℕ) (key : PieceKey) (wants alert : Bool)
    (milliseconds other piece : ℕ) (s : Bridge)
    → refusal ≡ none
    → (skips ≡ true → asked_in s.calls handle other ≡ some milliseconds)
    → asked_in
        (elim skips as (λ b. Bridge) [
          | true ↦ s
          | false ↦
              answered refusal now handle key wants (set_piece_deadline other milliseconds alert) s
        ]).calls
        handle
        piece
      ≡ (if other == piece then some milliseconds else asked_in s.calls handle piece)
unfolding answered asked_in asked_after
answered_at true refusal now handle key wants alert milliseconds other piece s e h =
    elim (Bool-cases (other == piece)) [
      | inl hit ↦
          let same : other ≡ piece = ground (arith, hit) in
          subst (λ p. asked_in s.calls handle p ≡ some milliseconds) same (h refl)
          ∙ ground (arith, hit)
      | inr miss ↦ ground (arith, miss)
    ]
answered_at false none now handle key wants alert milliseconds other piece s e h = ground arith
answered_at false (some r) now handle key wants alert milliseconds other piece s e h = cc

-- A deadline that is left as it is was that of its place.
set_deadline_at :
    (library : Library) (now handle : ℕ) (id : Bytes)
    (takes : (c : Call) → library.refuses handle c ≡ none) (ordinal : ℕ) (unchanged : Bool)
    (other piece : ℕ) (s : Bridge)
    → (unchanged ≡ true → asked_in s.calls handle other ≡ some (deadline_for ordinal))
    → asked_in (set_deadline library now handle id ordinal unchanged other s).calls handle piece
      ≡ (if other == piece then some (deadline_for ordinal) else asked_in s.calls handle piece)
unfolding set_deadline
set_deadline_at library now handle id takes ordinal unchanged other piece s h =
    let key = key_of id other in
    let reads = has_key key s.requested_reads in
    let wants = has_key key s.piece_waiters && not reads in
    answered_at (unchanged && not wants)
      (library.refuses handle (set_piece_deadline other (deadline_for ordinal) (wants || reads)))
      now handle key wants (wants || reads) (deadline_for ordinal) other piece s (takes _)
      (λ e. h (&&_left unchanged (not wants) e))

-- The loop: a piece that the order does not have keeps its deadline.
set_deadlines_at :
    (library : Library) (now handle : ℕ) (id : Bytes)
    (takes : (c : Call) → library.refuses handle c ≡ none) (jumped : Bool) (previous next : List ℕ)
    (ordinal piece : ℕ) (s : Bridge)
    → Distinct next
    → ((i p : ℕ)
        → jumped ≡ false
        → get_elem? previous i ≡ some p
        → In p next
        → asked_in s.calls handle p ≡ some (deadline_for i))
    → asked_in
        (set_deadlines library now handle id jumped previous next ordinal s).calls
        handle
        piece
      ≡ or_else (order_deadline next ordinal piece) (asked_in s.calls handle piece)
unfolding set_deadlines order_deadline or_else
set_deadlines_at library now handle id takes jumped previous [] ordinal piece s d h = refl
set_deadlines_at library now handle id takes jumped previous (other ∷ next) ordinal piece s d h =
    let unchanged = not jumped && is_at (get_elem? previous ordinal) other in
    let same : (p : ℕ)
        → asked_in (set_deadline library now handle id ordinal unchanged other s).calls handle p
          ≡ (if other == p then some (deadline_for ordinal) else asked_in s.calls handle p) =
      λ p. set_deadline_at library now handle id takes ordinal unchanged other p s (λ e.
        let at = unchanged_at jumped (get_elem? previous ordinal) other e in
        h ordinal other at.0 at.1 (inl refl)) in
    set_deadlines_at library now handle id takes jumped previous next (ordinal + 1) piece _ d.1
      (λ i p j e m.
        same p
        ∙ ground
            (arith, h i p j e (inr m), λ (s : other ≡ p). d.0 (subst (λ k. In k next) (sym s) m)))
    ∙ ap (or_else (order_deadline next (ordinal + 1) piece)) (same piece)
    ∙ or_else-step (other == piece) (order_deadline next (ordinal + 1) piece)
        (asked_in s.calls handle piece) (deadline_for ordinal)
        (λ hit.
          let same_piece : other ≡ piece = ground (arith, hit) in
          order_absent next (ordinal + 1) piece (subst (λ k. ¬ In k next) same_piece d.0))

-- A jump, then no jump.
jump_at :
    (library : Library) (now handle : ℕ) (id : Bytes)
    (takes : (c : Call) → library.refuses handle c ≡ none) (previous next : List ℕ) (piece : ℕ)
    (s : Bridge)
    → Distinct next
    → asked_in s.calls handle piece ≡ order_deadline previous 0 piece
    → asked_in
        (set_deadlines library now handle id true previous next 0
          (reset_deadlines library handle id previous s)).calls
        handle
        piece
      ≡ order_deadline next 0 piece
jump_at library now handle id takes previous next piece s d h =
    set_deadlines_at library now handle id takes true previous next 0 piece _ d (λ i p j. cc)
    ∙ ap (or_else (order_deadline next 0 piece)) (
        reset_deadlines_at library handle id takes previous piece s
        ∙ ap (λ (o : Option ℕ). if member piece previous then none else o) h
        ∙ order_reset previous piece)
    ∙ or_else-none (order_deadline next 0 piece)

stay_at :
    (library : Library) (now handle : ℕ) (id : Bytes)
    (takes : (c : Call) → library.refuses handle c ≡ none) (previous next : List ℕ) (piece : ℕ)
    (s : Bridge)
    → Distinct previous
    → Distinct next
    → ((p : ℕ) → asked_in s.calls handle p ≡ order_deadline previous 0 p)
    → asked_in
        (reset_deadlines library handle id
          (erase_if (λ p. member p next) previous)
          (set_deadlines library now handle id false previous next 0 s)).calls
        handle
        piece
      ≡ order_deadline next 0 piece
stay_at library now handle id takes previous next piece s c d h =
    reset_deadlines_at library handle id takes (erase_if (λ p. member p next) previous) piece _
    ∙ ap
        (λ (o : Option ℕ).
          if member piece (erase_if (λ p. member p next) previous) then none else o)
        (set_deadlines_at library now handle id takes false previous next 0 piece s d (λ i p j e m.
            h p ∙ order_at previous 0 i p c e ∙ ap (λ k. some (deadline_for k)) (first i))
          ∙ ap (or_else (order_deadline next 0 piece)) (h piece))
    ∙ order_left previous next piece
  where
    first : (i : ℕ) → 0 + i ≡ i
    first i = omega arith

-- The calls ask for the deadlines of the schedule. Where the library throws at none, the calls so far
-- ask for every piece for the deadline of the order before, and neither order names a piece twice, they
-- then ask for every piece for exactly the deadline that the new order gives, and for none for a piece
-- that it does not have, whether the reader jumped or moved on.
pub apply_deadlines-order_deadline :
    (library : Library) (now handle : ℕ) (id : Bytes) (previous next : List ℕ) (s : Bridge)
    → ((c : Call) → library.refuses handle c ≡ none)
    → Distinct previous
    → Distinct next
    → ((p : ℕ) → asked_in s.calls handle p ≡ order_deadline previous 0 p)
    → (piece : ℕ)
    → asked_in (apply_deadlines library now handle id previous next s).calls handle piece
      ≡ order_deadline next 0 piece
unfolding apply_deadlines
apply_deadlines-order_deadline library now handle id previous next s takes c d h piece =
    by_jump (is_jump previous next)
  where
    by_jump :
        (jumps : Bool)
        → asked_in
            (elim jumps as (λ b. Bridge) [
              | true ↦
                  set_deadlines library now handle id true previous next 0
                    (reset_deadlines library handle id previous s)
              | false ↦
                  reset_deadlines library handle id
                    (erase_if (λ p. member p next) previous)
                    (set_deadlines library now handle id false previous next 0 s)
            ]).calls
            handle
            piece
          ≡ order_deadline next 0 piece
    by_jump true = jump_at library now handle id takes previous next piece s d (h piece)
    by_jump false = stay_at library now handle id takes previous next piece s c d h
