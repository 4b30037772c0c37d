-- ===== src/Torrent/StreamBridge/Priorities/Difference.antt =====
-- src/torrent/libtorrent_stream_bridge.cpp: the difference of two schedules' priorities, applied by
-- the library, gives the new ones.
use nuvio_engine.Common.{
  ℕ, ◌≡◌, ◌≢◌, refl, sym, ap, ◌∙◌, subst, Bool, true, false, Bool-cases, inl, inr, List, [], ◌∷◌,
  ◌++◌, Option, none, some, arith, ◌==◌, if◌then◌else◌,
}
use nuvio_engine.Std.OrderedMap.{find, Ascending, KeysAbove, find-KeysAbove}
use nuvio_engine.Scheduler.PieceSchedule.{PriorityClass, Priorities}
use nuvio_engine.Torrent.StreamBridge.{DownloadPriority, dont_download, download_priority_for}
use nuvio_engine.Torrent.StreamBridge.Priorities.{
  priority_value, wanted, removed_updates, is_changed, changed_updates, priority_updates, updated,
}

updated-append :
    (us vs : List (ℕ × DownloadPriority)) (had : ℕ → DownloadPriority) (piece : ℕ)
    → updated (us ++ vs) had piece ≡ updated vs (updated us had) piece
unfolding updated
updated-append [] vs had piece = refl
updated-append ((other, priority) ∷ us) vs had piece =
    updated-append us vs (λ p. if other == p then priority else had p) piece

-- The library after the update for a piece of the schedule before, by what the new one has for it.
after_removal : Option PriorityClass → ℕ → (ℕ → DownloadPriority) → ℕ → DownloadPriority
after_removal none other had piece = if other == piece then dont_download else had piece
after_removal (some kept) other had piece = had piece

updated-after_removal :
    (found : Option PriorityClass) (other : ℕ) (rest : List (ℕ × DownloadPriority))
    (had : ℕ → DownloadPriority) (piece : ℕ)
    → updated (elim found [ none ↦ (other, dont_download) ∷ rest | some kept ↦ rest ]) had piece
      ≡ updated rest (after_removal found other had) piece
unfolding updated after_removal
updated-after_removal none other rest had piece = refl
updated-after_removal (some kept) other rest had piece = refl

kept-after_removal :
    (found : Option PriorityClass) (other : ℕ) (had : ℕ → DownloadPriority) (piece : ℕ)
    → (other ≡ piece → (v : PriorityClass) × (found ≡ some v))
    → after_removal found other had piece ≡ had piece
unfolding after_removal
kept-after_removal none other had piece h = elim (Bool-cases (other == piece)) [
  | inl hit ↦ absurd (cc (h (ground arith)).1)
  | inr miss ↦ ground arith
]
kept-after_removal (some kept) other had piece h = refl

gone-after_removal :
    (found : Option PriorityClass) (other : ℕ) (had : ℕ → DownloadPriority) (piece : ℕ)
    → (other ≡ piece → found ≡ none)
    → (other ≢ piece → priority_value (had piece) ≡ 0)
    → priority_value (after_removal found other had piece) ≡ 0
unfolding after_removal priority_value
gone-after_removal none other had piece n h = ground arith
gone-after_removal (some kept) other had piece n h = h (λ e. absurd (cc (n e)))

-- A piece that stays is not named.
removed_kept :
    (previous combined : Priorities) (had : ℕ → DownloadPriority) (piece : ℕ) (v : PriorityClass)
    → find piece combined ≡ some v
    → updated (removed_updates previous combined) had piece ≡ had piece
unfolding updated removed_updates
removed_kept [] combined had piece v e = refl
removed_kept ((other, priority) ∷ previous) combined had piece v e =
    updated-after_removal (find other combined) other (removed_updates previous combined) had piece
    ∙ removed_kept previous combined _ piece v e
    ∙ kept-after_removal (find other combined) other had piece
        (λ s. (v, ap (λ p. find p combined) s ∙ e))

-- A piece that goes is not wanted any more.
removed_gone :
    (previous combined : Priorities) (had : ℕ → DownloadPriority) (piece : ℕ)
    → find piece combined ≡ none
    → (find piece previous ≡ none → priority_value (had piece) ≡ 0)
    → priority_value (updated (removed_updates previous combined) had piece) ≡ 0
unfolding updated removed_updates find
removed_gone [] combined had piece e h = h refl
removed_gone ((other, priority) ∷ previous) combined had piece e h =
    ap priority_value (
      updated-after_removal (find other combined) other (removed_updates previous combined) had
        piece)
    ∙ removed_gone previous combined _ piece e (λ n.
      gone-after_removal (find other combined) other had piece
        (λ s. ap (λ p. find p combined) s ∙ e) (λ d. h (ground (arith, n, d))))

-- The library after the update for a piece of the new schedule.
updated-after_change :
    (changed : Bool) (other : ℕ) (value : DownloadPriority) (rest : List (ℕ × DownloadPriority))
    (had : ℕ → DownloadPriority) (piece : ℕ)
    → updated (if changed then (other, value) ∷ rest else rest) had piece
      ≡ updated rest (λ p. if changed then (if other == p then value else had p) else had p) piece
unfolding updated
updated-after_change true other value rest had piece = refl
updated-after_change false other value rest had piece = refl

-- A piece that the new schedule does not have is not named.
changed_absent :
    (previous : Priorities) (was_cold : Bool) (combined : Priorities) (cold : Bool)
    (had : ℕ → DownloadPriority) (piece : ℕ)
    → find piece combined ≡ none
    → updated (changed_updates previous was_cold combined cold) had piece ≡ had piece
unfolding updated changed_updates find
changed_absent previous was_cold [] cold had piece e = refl
changed_absent previous was_cold ((other, priority) ∷ combined) cold had piece e =
    updated-after_change (is_changed (find other previous) was_cold priority cold) other
      (download_priority_for priority cold) (changed_updates previous was_cold combined cold) had
      piece
    ∙ changed_absent previous was_cold combined cold _ piece (ground (arith, e))
    ∙ ground (arith, e)

unchanged-wanted :
    (found : Option PriorityClass) (was_cold : Bool) (priority : PriorityClass) (cold : Bool)
    → is_changed found was_cold priority cold ≡ false
    → priority_value
        (elim found [ none ↦ dont_download | some old ↦ download_priority_for old was_cold ])
      ≡ priority_value (download_priority_for priority cold)
unfolding is_changed
unchanged-wanted none was_cold priority cold e = cc
unchanged-wanted (some old) was_cold priority cold e = ground arith

change_hit :
    (changed hit : Bool) (value had : DownloadPriority)
    → hit ≡ true
    → (changed ≡ false → priority_value had ≡ priority_value value)
    → priority_value (if changed then (if hit then value else had) else had) ≡ priority_value value
change_hit true true value had e h = refl
change_hit true false value had e h = cc
change_hit false hit value had e h = h refl

change_miss :
    (changed hit : Bool) (value had : DownloadPriority)
    → hit ≡ false
    → (if changed then (if hit then value else had) else had) ≡ had
change_miss true true value had e = cc
change_miss true false value had e = refl
change_miss false hit value had e = refl

-- A piece that the new schedule has gets its priority.
changed_present :
    (previous : Priorities) (was_cold : Bool) (combined : Priorities) (cold : Bool)
    (had : ℕ → DownloadPriority) (piece : ℕ) (v : PriorityClass)
    → Ascending combined
    → find piece combined ≡ some v
    → priority_value (had piece) ≡ priority_value (wanted previous was_cold piece)
    → priority_value (updated (changed_updates previous was_cold combined cold) had piece)
      ≡ priority_value (download_priority_for v cold)
unfolding updated changed_updates find wanted
changed_present previous was_cold [] cold had piece v a e h = cc
changed_present previous was_cold ((other, priority) ∷ combined) cold had piece v a e h =
    ap priority_value (
      updated-after_change (is_changed (find other previous) was_cold priority cold) other
        (download_priority_for priority cold) (changed_updates previous was_cold combined cold) had
        piece)
    ∙ elim (Bool-cases (other == piece)) [
      | inl hit ↦
          let same : other ≡ piece = ground (arith, hit) in
          let first : priority ≡ v = ground (arith, e, hit) in
          ap priority_value (
            changed_absent previous was_cold combined cold _ piece
              (find-KeysAbove piece priority combined (subst (λ k. KeysAbove k combined) same a.0)))
          ∙ change_hit (is_changed (find other previous) was_cold priority cold) (other == piece)
              (download_priority_for priority cold) (had piece) hit
              (λ n.
                h
                ∙ ap (λ k. priority_value (wanted previous was_cold k)) (sym same)
                ∙ unchanged-wanted (find other previous) was_cold priority cold n)
          ∙ ap (λ c. priority_value (download_priority_for c cold)) first
      | inr miss ↦
          changed_present previous was_cold combined cold _ piece v a.1 (ground (arith, e, miss)) (
            ap priority_value (
              change_miss (is_changed (find other previous) was_cold priority cold) (other == piece)
                (download_priority_for priority cold) (had piece) miss)
            ∙ h)
    ]

unwanted :
    (priorities : Priorities) (cold : Bool) (piece : ℕ)
    → find piece priorities ≡ none
    → priority_value (wanted priorities cold piece) ≡ 0
unfolding wanted priority_value
unwanted priorities cold piece e = ground (arith, e)

-- The updates of a schedule give the library what a full list would: if it had, for a piece, the
-- value that the schedule before wants, with none for a piece that schedule does not have, then
-- after all updates it has the value that the new schedule wants, also where the file was cold
-- before and is not now, or the other way round. The new schedule is a map, with ascending keys.
pub priority_updates-wanted :
    (previous : Priorities) (was_cold : Bool) (combined : Priorities) (cold : Bool)
    (had : ℕ → DownloadPriority) (piece : ℕ)
    → Ascending combined
    → priority_value (had piece) ≡ priority_value (wanted previous was_cold piece)
    → priority_value (updated (priority_updates previous was_cold combined cold) had piece)
      ≡ priority_value (wanted combined cold piece)
unfolding priority_updates wanted
priority_updates-wanted previous was_cold combined cold had piece a h =
    ap priority_value (
      updated-append (removed_updates previous combined)
        (changed_updates previous was_cold combined cold) had piece)
    ∙ by_wanted (find piece combined) refl
  where
    removed : ℕ → DownloadPriority
    removed = updated (removed_updates previous combined) had

    by_wanted :
        (found : Option PriorityClass)
        → find piece combined ≡ found
        → priority_value (updated (changed_updates previous was_cold combined cold) removed piece)
          ≡ priority_value (elim found [
            | none ↦ dont_download
            | some priority ↦ download_priority_for priority cold
          ])
    by_wanted none e =
        ap priority_value (changed_absent previous was_cold combined cold removed piece e)
        ∙ removed_gone previous combined had piece e (λ n. h ∙ unwanted previous was_cold piece n)
    by_wanted (some v) e =
        changed_present previous was_cold combined cold removed piece v a e
          (ap priority_value (removed_kept previous combined had piece v e) ∙ h)
