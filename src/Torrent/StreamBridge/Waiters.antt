-- ===== src/Torrent/StreamBridge/Waiters.antt =====
-- src/torrent/libtorrent_stream_bridge.cpp: the waiters of the pieces, from their completion to the
-- removal of the entries of the table.
pub mod Kept
use nuvio_engine.Common.{
  ℕ, Bool, true, false, ◌||◌, List, [], ◌∷◌, Option, none, some, Bytes, bytes_eq, ◌==◌,
  if◌then◌else◌,
}
use nuvio_engine.Std.Shared.{modify}
use nuvio_engine.Std.UnorderedMap.{lookup, erase, erase_if}
use nuvio_engine.Cache.PieceCache.{key_eq_instance}
use nuvio_engine.Torrent.StreamBridge.State.{PieceKey, PieceWaiter, WaiterTable, Bridge}

abbrev pub is_empty {ℓ} : {A : Type ℓ} → List A → Bool
is_empty [] = true
is_empty (x ∷ xs) = false

-- The test of `complete_waiter` and of `publish_blocks`.
unfoldable pub settled : PieceWaiter → Bool
settled w = w.cancelled || w.done

unfoldable pub completed : Option Bytes → Bytes → PieceWaiter → PieceWaiter
unfolding settled
completed bytes error w =
    if settled w then w else record w { bytes = bytes; error = error; done = true }

unfoldable pub complete_waiter : Option Bytes → Bytes → ℕ → (ℕ → PieceWaiter) → ℕ → PieceWaiter
unfolding modify completed
complete_waiter bytes error waiter waiters = modify waiter (completed bytes error) waiters

-- The loops over the waiters of an entry.
unfoldable pub complete_waiters :
    Option Bytes → Bytes → List ℕ → (ℕ → PieceWaiter) → ℕ → PieceWaiter
unfolding complete_waiter
complete_waiters bytes error [] waiters = waiters
complete_waiters bytes error (w ∷ ws) waiters =
    complete_waiters bytes error ws (complete_waiter bytes error w waiters)

-- The waiters of a piece are completed and leave the table.
unfoldable pub finish_piece : PieceKey → Option Bytes → Bytes → Bridge → Bridge
unfolding complete_waiters lookup erase
finish_piece key bytes error s = elim (lookup key s.piece_waiters) [
  | none ↦ s
  | some found ↦ record s {
    waiters = complete_waiters bytes error found s.waiters;
    piece_waiters = erase key s.piece_waiters;
  }
]

unfoldable pub fail_piece : PieceKey → Bytes → Bridge → Bridge
unfolding finish_piece erase
fail_piece key error s =
    finish_piece key none error (record s { partial_blocks = erase key s.partial_blocks })

-- The loops that erase waiters of each entry, and an entry without a waiter with its blocks.
unfoldable pub kept_entries : (ℕ → Bool) → WaiterTable → WaiterTable
unfolding erase_if
kept_entries gone [] = []
kept_entries gone ((key, ws) ∷ rest) =
    let kept = erase_if gone ws in
    let others = kept_entries gone rest in if is_empty kept then others else (key, kept) ∷ others

unfoldable pub kept_blocks :
    (ℕ → Bool) → WaiterTable → List (PieceKey × List Bool) → List (PieceKey × List Bool)
unfolding erase_if erase
kept_blocks gone [] blocks = blocks
kept_blocks gone ((key, ws) ∷ rest) blocks =
    kept_blocks gone rest (if is_empty (erase_if gone ws) then erase key blocks else blocks)

unfoldable pub erase_waiters : (ℕ → Bool) → Bridge → Bridge
unfolding kept_entries kept_blocks
erase_waiters gone s = record s {
  piece_waiters = kept_entries gone s.piece_waiters;
  partial_blocks = kept_blocks gone s.piece_waiters s.partial_blocks;
}

unfoldable pub prune_cancelled_waiters : Bridge → Bridge
unfolding erase_waiters
prune_cancelled_waiters s = erase_waiters (λ w. (s.waiters w).cancelled) s

unfoldable pub complete_mine : (ℕ → Bool) → Bytes → List ℕ → (ℕ → PieceWaiter) → ℕ → PieceWaiter
unfolding complete_waiter
complete_mine mine error [] waiters = waiters
complete_mine mine error (w ∷ ws) waiters =
    complete_mine mine error ws (if mine w then complete_waiter none error w waiters else waiters)

-- The loops over the table that complete the waiters `mine` of the entries `takes` with an error.
unfoldable pub complete_entries :
    (PieceKey → Bool) → (ℕ → Bool) → Bytes → WaiterTable → (ℕ → PieceWaiter) → ℕ → PieceWaiter
unfolding complete_mine
complete_entries takes mine error [] waiters = waiters
complete_entries takes mine error ((key, ws) ∷ rest) waiters =
    complete_entries takes mine error rest
      (if takes key then complete_mine mine error ws waiters else waiters)

-- The field `demand_id` of a waiter does not change.
unfoldable pub cancel_demand_waiters : ℕ → Bytes → Bridge → Bridge
unfolding erase_waiters complete_entries
cancel_demand_waiters demand_id error s =
    let mine : ℕ → Bool = λ w. (s.waiters w).demand_id == demand_id in
    erase_waiters mine
      (record s { waiters = complete_entries (λ key. true) mine error s.piece_waiters s.waiters })

-- The end of `remove_torrent`.
unfoldable pub drop_torrent_waiters : Bytes → Bytes → Bridge → Bridge
unfolding bytes_eq complete_entries erase_if
drop_torrent_waiters id error s =
    let takes : PieceKey → Bool = λ key. bytes_eq key.torrent_id id in
    record s {
      waiters = complete_entries takes (λ w. true) error s.piece_waiters s.waiters;
      piece_waiters = erase_if (λ entry. takes entry.0) s.piece_waiters;
    }

-- The start of `shutdown`.
unfoldable pub drop_all_waiters : Bytes → Bridge → Bridge
unfolding complete_entries
drop_all_waiters error s = record s {
  waiters = complete_entries (λ key. true) (λ w. true) error s.piece_waiters s.waiters;
  piece_waiters = [];
}

unfoldable pub publish_blocks : List Bool → ℕ → (ℕ → PieceWaiter) → ℕ → PieceWaiter
unfolding modify settled
publish_blocks blocks waiter waiters =
    modify waiter (λ w. if settled w then w else record w { finished_blocks = blocks }) waiters

unfoldable pub publish_all : List Bool → List ℕ → (ℕ → PieceWaiter) → ℕ → PieceWaiter
unfolding publish_blocks
publish_all blocks [] waiters = waiters
publish_all blocks (w ∷ ws) waiters = publish_all blocks ws (publish_blocks blocks w waiters)

unfoldable pub publish_partial : PieceKey → Bridge → Bridge
unfolding publish_all lookup
publish_partial key s = elim (lookup key s.partial_blocks) [
  | none ↦ s
  | some blocks ↦ elim (lookup key s.piece_waiters) [
    | none ↦ s
    | some ws ↦ record s { waiters = publish_all blocks ws s.waiters }
  ]
]
