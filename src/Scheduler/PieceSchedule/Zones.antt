-- ===== src/Scheduler/PieceSchedule/Zones.antt =====
-- The specification of a schedule by bytes: which bytes of the file belong to which class, and
-- which class a piece has for the bytes that it holds.
use native.Mathlib.Nat.{div-lt_iff_lt-mul, mul-div_cancel, le-div_iff_mul-le}
use nuvio_engine.Common.{
  ℕ, ◌+◌, ◌-◌, ◌*◌, ◌/◌, ◌<◌, ◌≤◌, ◌≡◌, ◌∙◌, ap, ◌↔◌, inl, inr, Bool, true, false, Option, none,
  some, min, arith, if◌then◌else◌, Bool-cases, ℕ_discrete,
}
use nuvio_engine.Scheduler.PieceSchedule.{
  PriorityClass, blocking, critical, playback, metadata_tail, readahead, rank, ScheduleRequest,
}
use nuvio_engine.Scheduler.PieceSchedule.Windows.{InBounds, covers, div_mono}

-- The demand is blocking; critical, playback and readahead bytes follow it in this order, each as
-- many as requested; the metadata tail is the end of the file.
abbrev pub InZone : ScheduleRequest → PriorityClass → ℕ → Type 0
InZone r blocking byte = (r.demand.start ≤ byte) × (byte ≤ r.demand.end) × (byte < r.file_size)
InZone r critical byte =
    (r.demand.end < byte) × (byte ≤ r.demand.end + r.critical_bytes) × (byte < r.file_size)
InZone r playback byte =
    (r.demand.end + r.critical_bytes < byte)
    × (byte ≤ r.demand.end + r.critical_bytes + r.playback_bytes)
    × (byte < r.file_size)
InZone r readahead byte =
    (r.demand.end + r.critical_bytes + r.playback_bytes < byte)
    × (byte ≤ r.demand.end + r.critical_bytes + r.playback_bytes + r.readahead_bytes)
    × (byte < r.file_size)
InZone r metadata_tail byte =
    (r.file_size ≤ byte + r.metadata_tail_bytes)
    × (0 < r.metadata_tail_bytes)
    × (byte < r.file_size)

-- Piece `p` holds a byte of the class.
abbrev pub Touches : ScheduleRequest → PriorityClass → ℕ → Type 0
Touches r c p = (byte : ℕ) × InZone r c byte × ((r.file_offset + byte) / r.piece_size ≡ p)

-- The most urgent class that has a byte in piece `p`.
pub record IsBest (r : ScheduleRequest) (p : ℕ) (c : PriorityClass) : Type 0 where
  pub touches : Touches r c p
  pub first : (d : PriorityClass) → rank d < rank c → ¬ Touches r d p

-- The zone of a class as the bytes from `lower` up to and without `upper`.
abbrev pub demand_end : ScheduleRequest → ℕ
demand_end r = min (r.demand.end + 1) r.file_size

abbrev pub critical_end : ScheduleRequest → ℕ
critical_end r = min (demand_end r + r.critical_bytes) r.file_size

abbrev pub playback_end : ScheduleRequest → ℕ
playback_end r = min (critical_end r + r.playback_bytes) r.file_size

abbrev pub readahead_end : ScheduleRequest → ℕ
readahead_end r = min (playback_end r + r.readahead_bytes) r.file_size

abbrev pub lower : ScheduleRequest → PriorityClass → ℕ
lower r blocking = r.demand.start
lower r critical = demand_end r
lower r playback = critical_end r
lower r readahead = playback_end r
lower r metadata_tail = r.file_size - r.metadata_tail_bytes

abbrev pub upper : ScheduleRequest → PriorityClass → ℕ
upper r blocking = demand_end r
upper r critical = critical_end r
upper r playback = playback_end r
upper r readahead = readahead_end r
upper r metadata_tail = r.file_size

abbrev pub reaches : ScheduleRequest → PriorityClass → ℕ → Bool
reaches r c p = covers r (lower r c) (upper r c) p

InZone-iff :
    (r : ScheduleRequest) (c : PriorityClass) (byte : ℕ)
    → InZone r c byte ↔ ((lower r c ≤ byte) × (byte < upper r c))
InZone-iff r blocking byte = (λ h. omega arith, λ h. omega arith)
InZone-iff r critical byte = (λ h. omega arith, λ h. omega arith)
InZone-iff r playback byte = (λ h. omega arith, λ h. omega arith)
InZone-iff r metadata_tail byte = (λ h. omega arith, λ h. omega arith)
InZone-iff r readahead byte = (λ h. omega arith, λ h. omega arith)

module _ (r : ScheduleRequest) (b : InBounds r) (from until p : ℕ) where
  abbrev Held : Type 0
  Held = (byte : ℕ) × ((from ≤ byte) × (byte < until)) × ((r.file_offset + byte) / r.piece_size ≡ p)

  covers_of_Held : Held → covers r from until p ≡ true
  unfolding covers
  covers_of_Held (byte, inside, e) =
      let lo =
        div_mono (r.file_offset + from) (r.file_offset + byte) r.piece_size b.piece_size_pos
          (omega arith) in
      let hi =
        div_mono (r.file_offset + byte) (r.file_offset + until - 1) r.piece_size b.piece_size_pos
          (omega arith) in
      ground (arith, lo, hi)

  Held_of_covers : covers r from until p ≡ true → Held
  unfolding covers
  Held_of_covers h = elim (ℕ_discrete ((r.file_offset + from) / r.piece_size) p) [
    | yes e ↦ (from, (ground arith, ground arith), e)
    | no ne ↦
        let below : r.file_offset + from < p * r.piece_size =
          (div-lt_iff_lt-mul b.piece_size_pos).0 (ground arith) in
        let within : p * r.piece_size ≤ r.file_offset + until - 1 =
          (le-div_iff_mul-le b.piece_size_pos).0 (ground arith) in
        let same : r.file_offset + (p * r.piece_size - r.file_offset) ≡ p * r.piece_size =
          omega arith in
        (
          p * r.piece_size - r.file_offset,
          (omega arith, omega (arith, b.piece_size_pos)),
          ap (λ x. x / r.piece_size) same ∙ mul-div_cancel p b.piece_size_pos,
        )
  ]

module _ (r : ScheduleRequest) (b : InBounds r) (p : ℕ) where
  -- The test of a zone against a piece, in terms of the bytes of the piece.
  pub reaches_of_Touches : (c : PriorityClass) → Touches r c p → reaches r c p ≡ true
  reaches_of_Touches c (byte, z, e) =
      covers_of_Held r b (lower r c) (upper r c) p (byte, (InZone-iff r c byte).0 z, e)

  pub Touches-of_reaches : (c : PriorityClass) → reaches r c p ≡ true → Touches r c p
  Touches-of_reaches c h =
      let (byte, z, e) = Held_of_covers r b (lower r c) (upper r c) p h in
      (byte, (InZone-iff r c byte).1 z, e)

  not_touched : (c : PriorityClass) → reaches r c p ≡ false → ¬ Touches r c p
  not_touched c h t = cc (h, reaches_of_Touches c t)

-- The first class, by rank, that passes a test.
unfoldable pub first_class : (PriorityClass → Bool) → Option PriorityClass
first_class f =
    if f blocking
    then some blocking
    else if f critical
    then some critical
    else if f playback
    then some playback
    else if f metadata_tail
    then some metadata_tail
    else if f readahead
    then some readahead
    else none

first_class_hit :
    (f : PriorityClass → Bool) (c : PriorityClass) → first_class f ≡ some c → f c ≡ true
unfolding first_class
first_class_hit f blocking h = ground arith
first_class_hit f _ h = ground arith

first_class_before :
    (f : PriorityClass → Bool) (c d : PriorityClass)
    → first_class f ≡ some c
    → rank d < rank c
    → f d ≡ false
unfolding first_class
first_class_before f blocking blocking h lt = ground arith
first_class_before f _ _ h lt = ground arith

first_class_of :
    (f : PriorityClass → Bool) (c : PriorityClass)
    → f c ≡ true
    → ((d : PriorityClass) → rank d < rank c → f d ≡ false)
    → first_class f ≡ some c
unfolding first_class
first_class_of f blocking h b = ground arith
first_class_of f critical h b = ground (arith, b blocking (omega arith))
first_class_of f playback h b = ground (arith, b blocking (omega arith), b critical (omega arith))
first_class_of f metadata_tail h b =
    ground (arith, b blocking (omega arith), b critical (omega arith), b playback (omega arith))
first_class_of f readahead h b = ground (
  arith,
  b blocking (omega arith),
  b critical (omega arith),
  b playback (omega arith),
  b metadata_tail (omega arith),
)

pub first_class-IsBest :
    (r : ScheduleRequest) (b : InBounds r) (p : ℕ) (c : PriorityClass)
    → (first_class (λ d. reaches r d p) ≡ some c) ↔ IsBest r p c
first_class-IsBest r b p c = (
  λ h. record {
    touches = Touches-of_reaches r b p c (first_class_hit _ c h);
    first = λ d lt. not_touched r b p d (first_class_before _ c d h lt);
  },
  λ best. first_class_of _ c (reaches_of_Touches r b p c best.touches) λ d lt.
      elim (Bool-cases (reaches r d p)) [
        | inl yes_it ↦ absurd (best.first d lt (Touches-of_reaches r b p d yes_it))
        | inr no_it ↦ no_it
      ],
)
