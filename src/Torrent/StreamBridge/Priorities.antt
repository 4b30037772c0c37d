-- ===== src/Torrent/StreamBridge/Priorities.antt =====
-- src/torrent/libtorrent_stream_bridge.cpp: the piece priorities of `recompute_schedule`, given whole for
-- a new schedule and as the difference to the schedule before.
pub mod Difference
use nuvio_engine.Common.{
  ℕ, zero, suc, Bool, true, false, List, [], ◌∷◌, ◌++◌, Option, none, some, ◌==◌, if◌then◌else◌,
}
use nuvio_engine.Std.OrderedMap.{find}
use nuvio_engine.Scheduler.PieceSchedule.{PriorityClass, Priorities}
use nuvio_engine.Torrent.StreamBridge.{
  DownloadPriority, dont_download, top, default, low, level, download_priority_for,
}

-- The documented values of the library's priorities.
unfoldable pub priority_value : DownloadPriority → ℕ
priority_value dont_download = 0
priority_value low = 1
priority_value default = 4
priority_value top = 7
priority_value (level n) = n

-- What a schedule wants for a piece.
unfoldable pub wanted : Priorities → Bool → ℕ → DownloadPriority
unfolding find download_priority_for
wanted priorities cold piece = elim (find piece priorities) [
  | none ↦ dont_download
  | some priority ↦ download_priority_for priority cold
]

-- `priorities[piece] = …`, with no effect beyond the end.
unfoldable pub set_at : ℕ → DownloadPriority → List DownloadPriority → List DownloadPriority
set_at piece priority [] = []
set_at zero priority (x ∷ xs) = priority ∷ xs
set_at (suc piece) priority (x ∷ xs) = x ∷ set_at piece priority xs

unfoldable pub unscheduled : ℕ → List DownloadPriority
unscheduled zero = []
unscheduled (suc count) = dont_download ∷ unscheduled count

unfoldable pub set_all : Priorities → Bool → List DownloadPriority → List DownloadPriority
unfolding set_at download_priority_for
set_all [] cold priorities = priorities
set_all ((piece, priority) ∷ combined) cold priorities =
    set_all combined cold (set_at piece (download_priority_for priority cold) priorities)

-- The vector for all pieces of a torrent.
unfoldable pub full_priorities : Priorities → Bool → ℕ → List DownloadPriority
unfolding set_all unscheduled
full_priorities combined cold num_pieces = set_all combined cold (unscheduled num_pieces)

-- The pieces that the new schedule does not have.
unfoldable pub removed_updates : Priorities → Priorities → List (ℕ × DownloadPriority)
unfolding find
removed_updates [] combined = []
removed_updates ((piece, priority) ∷ previous) combined = elim (find piece combined) [
  | none ↦ (piece, dont_download) ∷ removed_updates previous combined
  | some kept ↦ removed_updates previous combined
]

unfoldable pub is_changed : Option PriorityClass → Bool → PriorityClass → Bool → Bool
unfolding priority_value download_priority_for
is_changed none was_cold priority cold = true
is_changed (some old) was_cold priority cold =
    if priority_value (download_priority_for old was_cold)
      == priority_value (download_priority_for priority cold)
    then false
    else true

-- The pieces that are new or have another priority.
unfoldable pub changed_updates : Priorities → Bool → Priorities → Bool → List (ℕ × DownloadPriority)
unfolding find is_changed download_priority_for
changed_updates previous was_cold [] cold = []
changed_updates previous was_cold ((piece, priority) ∷ combined) cold =
    let rest = changed_updates previous was_cold combined cold in
    if is_changed (find piece previous) was_cold priority cold
    then (piece, download_priority_for priority cold) ∷ rest
    else rest

unfoldable pub priority_updates :
    Priorities → Bool → Priorities → Bool → List (ℕ × DownloadPriority)
unfolding removed_updates changed_updates
priority_updates previous was_cold combined cold =
    removed_updates previous combined ++ changed_updates previous was_cold combined cold

-- A library that had these priorities before the updates.
unfoldable pub updated : List (ℕ × DownloadPriority) → (ℕ → DownloadPriority) → ℕ → DownloadPriority
updated [] had piece = had piece
updated ((other, priority) ∷ updates) had piece =
    updated updates (λ p. if other == p then priority else had p) piece
