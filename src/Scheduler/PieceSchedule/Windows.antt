-- ===== src/Scheduler/PieceSchedule/Windows.antt =====
-- What each step of the schedule adds to the map, where no sum overflows.
use native.Mathlib.Nat.{le-div_iff_mul-le, div-mul-le_self, le_trans}
use nuvio_engine.Common.{
  ℕ, zero, suc, ◌+◌, ◌-◌, ◌/◌, ◌<◌, ◌≤◌, ◌≡◌, refl, ◌∙◌, ap, subst, Bool, true, false, ◌&&◌, ◌||◌,
  Option, none, some, min, u32_max, u64_max, arith, saturating_add, saturating_add-min, ltb, leb,
  ◌==◌, if◌then◌else◌, inl, inr, Bool-cases, ltb→lt,
}
use nuvio_engine.Std.Results.{ok}
use nuvio_engine.Std.OrderedMap.{find, find-assign, Ascending, assign-Ascending}
use nuvio_engine.Http.ByteRange.{ByteRange}
use nuvio_engine.Scheduler.PieceSchedule.{
  PriorityClass, metadata_tail, rank, ScheduleRequest, Priorities, extend_from, raise, raise_pieces,
  add_range, add_window, add_tail,
}

-- The more urgent of a class and the class that is there.
abbrev pub better : PriorityClass → Option PriorityClass → PriorityClass
better c none = c
better c (some q) = if ltb (rank c) (rank q) then c else q

pub find-raise :
    (p i : ℕ) (c : PriorityClass) (m : Priorities)
    → find p (raise m i c) ≡ (if i == p then some (better c (find p m)) else find p m)
unfolding raise
find-raise p i c m = ground (arith, find-assign i p c m)

pub raise-Ascending :
    (i : ℕ) (c : PriorityClass) (m : Priorities) → Ascending m → Ascending (raise m i c)
unfolding raise
raise-Ascending i c m h = ground (arith, assign-Ascending i c m h)

-- The range from the next piece on, at the first piece and elsewhere.
after_piece : (i p n : ℕ) → (i == p) ≡ true → (leb (suc i) p && ltb p (suc i + n)) ≡ false
after_piece i p n h = ground arith

from_piece : (i p n : ℕ) → (i == p) ≡ true → (leb i p && ltb p (i + suc n)) ≡ true
from_piece i p n h = ground arith

beyond_piece :
    (i p n : ℕ)
    → (i == p) ≡ false
    → (leb (suc i) p && ltb p (suc i + n)) ≡ (leb i p && ltb p (i + suc n))
beyond_piece i p n h = ground arith

find-raise_pieces :
    (p n i : ℕ) (c : PriorityClass) (m : Priorities)
    → find p (raise_pieces n i c m)
      ≡ (if leb i p && ltb p (i + n) then some (better c (find p m)) else find p m)
unfolding raise_pieces
find-raise_pieces p zero i c m = ground arith
find-raise_pieces p (suc n) i c m =
    find-raise_pieces p n (suc i) c (raise m i c) ∙ elim (Bool-cases (i == p)) [
      | inl here ↦ rw (after_piece i p n here, from_piece i p n here, find-raise p i c m, here) refl
      | inr other ↦ rw (beyond_piece i p n other, find-raise p i c m, other) refl
    ]

raise_pieces-Ascending :
    (n i : ℕ) (c : PriorityClass) (m : Priorities) → Ascending m → Ascending (raise_pieces n i c m)
unfolding raise_pieces
raise_pieces-Ascending zero i c m h = h
raise_pieces-Ascending (suc n) i c m h =
    raise_pieces-Ascending n (suc i) c (raise m i c) (raise-Ascending i c m h)

-- The demand meets the file, and no offset or piece index of the file overflows.
pub record InBounds (r : ScheduleRequest) : Type 0 where
  pub piece_size_pos : 0 < r.piece_size
  pub file_size_pos : 0 < r.file_size
  pub demand_ordered : r.demand.start ≤ r.demand.end
  pub demand_inside : r.demand.start < r.file_size
  pub demand_word : r.demand.end ≤ u64_max
  pub file_word : r.file_offset + r.file_size ≤ u64_max
  pub piece_word : (r.file_offset + r.file_size - 1) / r.piece_size ≤ u32_max

-- Whether piece `p` holds a byte of the file from `from` up to and without `until`.
unfoldable pub covers : ScheduleRequest → ℕ → ℕ → ℕ → Bool
covers r from until p =
    ltb from until
    && (leb ((r.file_offset + from) / r.piece_size) p
        && leb p ((r.file_offset + until - 1) / r.piece_size))

-- `n` is `m` with class `c` for the pieces of those bytes, where no better class stands.
pub record Added (r : ScheduleRequest) (m n : Priorities) (from until : ℕ) (c : PriorityClass)
    : Type 0 where
  pub looked_up :
      (p : ℕ) → find p n ≡ (if covers r from until p then some (better c (find p m)) else find p m)
  pub ordered : Ascending m → Ascending n

pub div_mono : (a b k : ℕ) → 0 < k → a ≤ b → a / k ≤ b / k
div_mono a b k pos h = (le-div_iff_mul-le pos).1 (le_trans (div-mul-le_self a k) h)

covered :
    (from until a l l' p : ℕ)
    → from < until
    → a ≤ l
    → l ≡ l'
    → (leb a p && ltb p (a + (suc l - a))) ≡ (ltb from until && (leb a p && leb p l'))
covered from until a l l' p lt h e = ground arith

module _ (r : ScheduleRequest) (b : InBounds r) where
  -- The index of the piece that holds a byte of the file.
  abbrev pub piece_of : ℕ → ℕ
  piece_of byte = (r.file_offset + byte) / r.piece_size

  raised-Added :
      (m : Priorities) (from until : ℕ) (c : PriorityClass)
      → from < until
      → Added r m
          (raise_pieces (suc (piece_of (until - 1)) - piece_of from) (piece_of from) c m)
          from
          until
          c
  unfolding covers
  raised-Added m from until c lt = record {
    looked_up = λ p.
        find-raise_pieces p _ (piece_of from) c m
        ∙ ap (λ t. if t then some (better c (find p m)) else find p m)
            (covered from until (piece_of from) (piece_of (until - 1)) _ p lt
              (div_mono _ _ r.piece_size b.piece_size_pos (omega arith))
              (ap (λ x. x / r.piece_size) (omega arith)));
    ordered = raise_pieces-Ascending _ _ c m;
  }

  piece_of-word : (byte : ℕ) → byte < r.file_size → piece_of byte ≤ u32_max
  piece_of-word byte lt =
      le_trans
        (div_mono (r.file_offset + byte) (r.file_offset + r.file_size - 1) r.piece_size
          b.piece_size_pos (omega arith))
        b.piece_word

  -- A sum of the file's offset and a position in the file does not saturate.
  absolute :
      (byte : ℕ) → byte < r.file_size → saturating_add r.file_offset byte ≡ r.file_offset + byte
  absolute byte lt = omega (arith, saturating_add-min r.file_offset byte (omega arith))

  pub add_range-Added :
      (m : Priorities) (range : ByteRange) (until : ℕ) (c : PriorityClass)
      → range.start ≤ range.end
      → range.start < r.file_size
      → until ≡ min (range.end + 1) r.file_size
      → (n : Priorities) × (add_range m r range c ≡ ok n) × Added r m n range.start until c
  unfolding add_range
  add_range-Added m range until c o s e =
      let meets : (r.file_size == 0 || leb r.file_size range.start) ≡ false = ground arith in
      let last : saturating_add r.file_offset (min range.end (r.file_size - 1))
          ≡ r.file_offset + (until - 1) =
        absolute (min range.end (r.file_size - 1)) (omega arith) ∙ omega arith in
      let small = piece_of-word (until - 1) (omega arith) in
      let fits : ltb u32_max (piece_of (until - 1)) ≡ false = ground (arith, small) in
      (
        raise_pieces (suc (piece_of (until - 1)) - piece_of range.start) (piece_of range.start) c m,
        rw (meets, last, absolute range.start s, fits) refl,
        raised-Added m range.start until c (omega arith),
      )

  -- A window of no bytes covers nothing.
  unchanged-Added :
      (m : Priorities) (from until : ℕ) (c : PriorityClass)
      → until ≤ from
      → Added r m m from until c
  unfolding covers
  unchanged-Added m from until c le = record { looked_up = λ p. ground arith; ordered = λ h. h }

  abbrev window : ℕ → ℕ → ByteRange
  window next bytes = record { start = next; end = min (next + bytes) r.file_size - 1 }

  extend_from_lem :
      (next bytes : ℕ)
      → next < r.file_size
      → 0 < bytes
      → extend_from next bytes r.file_size ≡ window next bytes
  unfolding extend_from
  extend_from_lem next bytes lt pos =
      ground (arith, saturating_add-min next bytes (omega (arith, b.file_word)))

  pub add_window-Added :
      (m : Priorities) (next bytes : ℕ) (c : PriorityClass)
      → next ≤ r.file_size
      → (n : Priorities) × (add_window m r next bytes c ≡ ok (n, min (next + bytes) r.file_size))
        × Added r m n next (min (next + bytes) r.file_size) c
  unfolding add_window
  add_window-Added m next bytes c le = elim (Bool-cases (ltb next r.file_size && ltb 0 bytes)) [
    | inr none_left ↦ (
      m,
      rw none_left (ap (λ x. ok (m, x)) (ground arith)),
      unchanged-Added m next _ c (ground arith),
    )
    | inl some_left ↦
        let lt : next < r.file_size = ground arith in
        let pos : 0 < bytes = ground arith in
        let (n, ran, added) =
          add_range-Added m (window next bytes) (min (next + bytes) r.file_size) c (omega arith) lt
            (omega arith) in
        let after : min (saturating_add (window next bytes).end 1) r.file_size
            ≡ min (next + bytes) r.file_size =
          omega (
            arith,
            saturating_add-min (min (next + bytes) r.file_size - 1) 1 (omega (arith, b.file_word)),
          ) in
        (
          n,
          rw (some_left, extend_from_lem next bytes lt pos, ran) (ap (λ x. ok (n, x)) after),
          added,
        )
  ]

  pub add_tail-Added :
      (m : Priorities)
      → (n : Priorities) × (add_tail m r ≡ ok n)
        × Added r m n (r.file_size - r.metadata_tail_bytes) r.file_size metadata_tail
  unfolding add_tail
  add_tail-Added m = elim (Bool-cases (ltb 0 r.metadata_tail_bytes)) [
    | inr no_tail ↦ (m, rw no_tail refl, unchanged-Added m _ _ metadata_tail (ground arith))
    | inl tail ↦
        let pos : 0 < r.metadata_tail_bytes = ltb→lt _ _ tail in
        let first = r.file_size - min r.metadata_tail_bytes r.file_size in
        let (n, ran, added) =
          add_range-Added m (record { start = first; end = r.file_size - 1 }) r.file_size
            metadata_tail (omega (arith, b.file_size_pos)) (ground (arith, b.file_size_pos))
            (omega (arith, b.file_size_pos)) in
        (
          n,
          rw tail ran,
          subst (λ from. Added r m n from r.file_size metadata_tail) (omega arith) added,
        )
  ]
