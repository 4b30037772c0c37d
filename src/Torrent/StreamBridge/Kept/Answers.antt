-- ===== src/Torrent/StreamBridge/Kept/Answers.antt =====
-- src/torrent/libtorrent_stream_bridge.cpp: what the waiters of a piece get when the library has read it.
use nuvio_engine.Common.{
  ℕ, ◌≡◌, refl, sym, ap, ◌∙◌, subst, ◌||◌, true, false, Bool-cases, inl, inr, List, [], ◌∷◌, Option,
  none, some, Bytes, In, arith, ◌==◌, bytes_eq_instance,
}
use nuvio_engine.Text.{codes}
use nuvio_engine.Std.Shared.{modify_same, modify_other}
use nuvio_engine.Std.UnorderedMap.{lookup, insert_or_assign, erase, lookup-erase}
use nuvio_engine.Cache.PieceCache.{put, key_eq_iff, key_eq_instance}
use nuvio_engine.Torrent.StreamBridge.State.{PieceKey, PieceWaiter, Bridge}
use nuvio_engine.Torrent.StreamBridge.Waiters.{
  settled, completed, complete_waiter, complete_waiters, finish_piece, fail_piece,
}
use nuvio_engine.Torrent.StreamBridge.Waiters.Kept.{
  Waiters, completed-settled, complete_waiters-Grows,
}
use nuvio_engine.Torrent.StreamBridge.Requests.{ReadPieceAlert, read_failure, handle_read_piece}

complete_waiter_at :
    (bytes : Option Bytes) (error : Bytes) (w : ℕ) (a : Waiters)
    → complete_waiter bytes error w a w ≡ completed bytes error (a w)
unfolding complete_waiter
complete_waiter_at bytes error w a = modify_same w (completed bytes error) a

complete_waiters_first :
    (bytes : Option Bytes) (error : Bytes) (w : ℕ) (ws : List ℕ) (a : Waiters)
    → complete_waiters bytes error ws (complete_waiter bytes error w a) w
      ≡ completed bytes error (a w)
complete_waiters_first bytes error w ws a =
    let first = complete_waiter_at bytes error w a in
    complete_waiters-Grows bytes error ws (complete_waiter bytes error w a) w
      (ap settled first ∙ completed-settled bytes error (a w))
    ∙ first

complete_waiters_at :
    (bytes : Option Bytes) (error : Bytes) (ws : List ℕ) (w : ℕ) (a : Waiters)
    → In w ws
    → complete_waiters bytes error ws a w ≡ completed bytes error (a w)
unfolding complete_waiters complete_waiter
complete_waiters_at bytes error [] w a i = absurd i
complete_waiters_at bytes error (v ∷ ws) w a (inl e) =
    subst
      (λ p.
        complete_waiters bytes error ws (complete_waiter bytes error p a) w
        ≡ completed bytes error (a w))
      e (complete_waiters_first bytes error w ws a)
complete_waiters_at bytes error (v ∷ ws) w a (inr i) = elim (Bool-cases (w == v)) [
  | inl hit ↦
      let same : w ≡ v = ground (arith, hit) in
      subst
        (λ p.
          complete_waiters bytes error ws (complete_waiter bytes error p a) w
          ≡ completed bytes error (a w))
        same (complete_waiters_first bytes error w ws a)
  | inr miss ↦
      complete_waiters_at bytes error ws w (complete_waiter bytes error v a) i
      ∙ ap (completed bytes error)
          (modify_other v w (completed bytes error) a (λ s. absurd (ground (arith, miss, s))))
]

-- The waiter is completed, and its piece has no entry any more.
record Completes (key : PieceKey) (bytes : Option Bytes) (error : Bytes) (w : ℕ) (s t : Bridge)
    : Type 0 where
  answer : t.waiters w ≡ completed bytes error (s.waiters w)
  gone : lookup key t.piece_waiters ≡ none

finish_piece-Completes :
    (key : PieceKey) (bytes : Option Bytes) (error : Bytes) (w : ℕ) (ws : List ℕ) (s : Bridge)
    → lookup key s.piece_waiters ≡ some ws
    → In w ws
    → Completes key bytes error w s (finish_piece key bytes error s)
unfolding finish_piece
finish_piece-Completes key bytes error w ws s e i =
    subst
      (λ o. Completes key bytes error w s (elim o as (λ c. Bridge) [
        | none ↦ s
        | some found ↦ record s {
          waiters = complete_waiters bytes error found s.waiters;
          piece_waiters = erase key s.piece_waiters;
        }
      ]))
      (sym e)
      (record {
        answer = complete_waiters_at bytes error ws w s.waiters i;
        gone = lookup-erase key key s.piece_waiters ∙ ground (arith, key_eq_iff key key);
      })

-- The data and the error that the waiters of an alert get.
abbrev answer_bytes : Option Bytes → Option Bytes → Option Bytes
answer_bytes none buffer = buffer
answer_bytes (some error) buffer = none

abbrev answer_error : Option Bytes → Bytes
answer_error none = []
answer_error (some error) = error

handle_read_piece-Completes :
    (alert : ReadPieceAlert) (w : ℕ) (ws : List ℕ) (s : Bridge)
    → lookup alert.key s.piece_waiters ≡ some ws
    → In w ws
    → Completes alert.key
        (answer_bytes (read_failure alert.error alert.buffer) alert.buffer)
        (answer_error (read_failure alert.error alert.buffer))
        w
        s
        (handle_read_piece alert s)
unfolding handle_read_piece fail_piece
handle_read_piece-Completes alert w ws s e i = by_failure (read_failure alert.error alert.buffer)
  where
    read : Bridge
    read = record s {
      requested_reads = erase alert.key s.requested_reads;
      partial_blocks = erase alert.key s.partial_blocks;
    }

    stored : Bridge
    stored = record read {
      last_ready_pieces =
          insert_or_assign alert.key.torrent_id alert.key.piece read.last_ready_pieces;
      piece_cache = put alert.key alert.buffer read.piece_cache;
    }

    moved :
        (bytes : Option Bytes) (error : Bytes) (t u : Bridge)
        → t.waiters w ≡ s.waiters w
        → Completes alert.key bytes error w t u
        → Completes alert.key bytes error w s u
    moved bytes error t u same a = record {
      answer = a.answer ∙ ap (completed bytes error) same;
      gone = a.gone;
    }

    by_failure :
        (failure : Option Bytes)
        → Completes alert.key
            (answer_bytes failure alert.buffer)
            (answer_error failure)
            w
            s
            (elim failure as (λ c. Bridge) [
              | some error ↦ fail_piece alert.key error read
              | none ↦ finish_piece alert.key alert.buffer [] stored
            ])
    by_failure none =
        moved alert.buffer [] stored _ refl
          (finish_piece-Completes alert.key alert.buffer [] w ws stored e i)
    by_failure (some error) =
        let cleared : Bridge = record read {
          partial_blocks = erase alert.key read.partial_blocks;
        } in
        moved none error cleared _ refl
          (finish_piece-Completes alert.key none error w ws cleared e i)

-- What an open waiter gets: the error of the alert, or that its buffer is missing or empty, or the
-- data.
unfoldable pub IsDelivery : Option Bytes → Option Bytes → PieceWaiter → Type 0
IsDelivery (some error) buffer v = (v.done ≡ true) × (v.bytes ≡ none) × (v.error ≡ error)
IsDelivery none none v =
    (v.done ≡ true) × (v.bytes ≡ none) × (v.error ≡ codes "verified piece is empty")
IsDelivery none (some []) v =
    (v.done ≡ true) × (v.bytes ≡ none) × (v.error ≡ codes "verified piece is empty")
IsDelivery none (some (byte ∷ bytes)) v =
    (v.done ≡ true) × (v.bytes ≡ some (byte ∷ bytes)) × (v.error ≡ [])

-- A waiter before and after the alert, and its piece's entry after it.
pub record Answered (alert : ReadPieceAlert) (w : ℕ) (s t : Bridge) : Type 0 where
  pub cancelled : (s.waiters w).cancelled ≡ true → t.waiters w ≡ s.waiters w
  pub done : (s.waiters w).done ≡ true → t.waiters w ≡ s.waiters w
  pub unsettled :
      (s.waiters w).cancelled ≡ false
      → (s.waiters w).done ≡ false
      → IsDelivery alert.error alert.buffer (t.waiters w)
  pub gone : lookup alert.key t.piece_waiters ≡ none

completed_kept :
    (bytes : Option Bytes) (error : Bytes) (w : PieceWaiter)
    → w.cancelled || w.done ≡ true
    → completed bytes error w ≡ w
unfolding completed settled
completed_kept bytes error w e = rw e refl

completed_open :
    (bytes : Option Bytes) (error : Bytes) (w : PieceWaiter)
    → w.cancelled || w.done ≡ false
    → completed bytes error w ≡ record w { bytes = bytes; error = error; done = true }
unfolding completed settled
completed_open bytes error w e = rw e refl

delivery :
    (error buffer : Option Bytes) (w : PieceWaiter)
    → IsDelivery error buffer (record w {
      bytes = answer_bytes (read_failure error buffer) buffer;
      error = answer_error (read_failure error buffer);
      done = true;
    })
unfolding IsDelivery read_failure
delivery (some error) buffer w = (refl, refl, refl)
delivery none none w = (refl, refl, refl)
delivery none (some []) w = (refl, refl, refl)
delivery none (some (byte ∷ bytes)) w = (refl, refl, refl)

-- A piece that the library has read reaches all who wait for it: after the alert, a waiter that
-- stood in the table under the piece and was neither done nor cancelled is done. It has the alert's data
-- and no error; or, where the alert has an error, that error and no data; or, where its buffer is
-- missing or empty, the error "verified piece is empty" and no data. A waiter that was done or
-- cancelled is as before. The piece has no entry in the table any more.
pub handle_read_piece-Answered :
    (alert : ReadPieceAlert) (w : ℕ) (ws : List ℕ) (s : Bridge)
    → lookup alert.key s.piece_waiters ≡ some ws
    → In w ws
    → Answered alert w s (handle_read_piece alert s)
handle_read_piece-Answered alert w ws s e i =
    let failure = read_failure alert.error alert.buffer in
    let bytes = answer_bytes failure alert.buffer in
    let error = answer_error failure in
    let c = handle_read_piece-Completes alert w ws s e i in
    record {
      cancelled = λ h.
          c.answer ∙ completed_kept bytes error (s.waiters w) (ap (λ b. b || (s.waiters w).done) h);
      done = λ h. c.answer ∙ completed_kept bytes error (s.waiters w) (ground (arith, h));
      unsettled = λ h k.
          subst (IsDelivery alert.error alert.buffer)
            (sym (c.answer ∙ completed_open bytes error (s.waiters w) (rw (h, k) refl)))
            (delivery alert.error alert.buffer (s.waiters w));
      gone = c.gone;
    }
