-- ===== src/Scheduler/PieceSchedule/Order.antt =====
-- The order of a schedule, and its entries as lookups in the collected map.
use nuvio_engine.Common.{
  ℕ, ◌<◌, ◌≤◌, ◌≡◌, ap, ◌↔◌, ◌⊎◌, inl, inr, List, [], ◌∷◌, map, some, arith, All, In, Bool-cases,
  ltb→lt, ltb-false,
}
use nuvio_engine.Std.OrderedMap.{find, Ascending, KeysAbove, In-find}
use nuvio_engine.Std.Sort.{insert, stable_sort, All-insert, All-stable_sort, In-stable_sort}
use nuvio_engine.Scheduler.PieceSchedule.{
  PriorityClass, rank, PiecePriority, Priorities, by_priority, entry, sorted_entries,
}

-- More urgent, or as urgent and a lower piece.
abbrev pub Before : PiecePriority → PiecePriority → Type 0
Before x y =
    (rank x.priority < rank y.priority)
    ⊎ ((rank x.priority ≡ rank y.priority) × (x.piece < y.piece))

-- Strictly in that order, so no piece and class stands twice.
abbrev pub IsOrdered : List PiecePriority → Type 0
IsOrdered [] = Unit
IsOrdered (x ∷ xs) = All (Before x) xs × IsOrdered xs

Before-rest :
    (x y : PiecePriority) (zs : List PiecePriority)
    → rank x.priority ≤ rank y.priority
    → All (Before y) zs
    → All (λ z. x.piece < z.piece) zs
    → All (Before x) zs
Before-rest x y [] le h k = tt
Before-rest x y (z ∷ zs) le h k = (ground (arith, h.0, k.0), Before-rest x y zs le h.1 k.1)

insert-IsOrdered :
    (x : PiecePriority) (ys : List PiecePriority)
    → All (λ y. x.piece < y.piece) ys
    → IsOrdered ys
    → IsOrdered (insert by_priority x ys)
unfolding insert
insert-IsOrdered x [] k h = (tt, tt)
insert-IsOrdered x (y ∷ ys) k h = elim (Bool-cases (by_priority y x)) [
  | inl first ↦ rw first (
    All-insert by_priority (Before y) x ys (inl (ltb→lt _ _ first)) h.0,
    insert-IsOrdered x ys k.1 h.1,
  )
  | inr later ↦
      let le : rank x.priority ≤ rank y.priority = ltb-false _ _ later in
      rw later ((ground (arith, k.0), Before-rest x y ys le h.0 k.1), (h.0, h.1))
]

pieces_above : (p : ℕ) (m : Priorities) → KeysAbove p m → All (λ y. p < y.piece) (map entry m)
pieces_above p [] h = tt
pieces_above p ((q, c) ∷ m) h = (h.0, pieces_above p m h.1)

pub sorted_entries-IsOrdered : (m : Priorities) → Ascending m → IsOrdered (sorted_entries m)
unfolding sorted_entries
sorted_entries-IsOrdered [] h = tt
sorted_entries-IsOrdered ((p, c) ∷ m) h =
    insert-IsOrdered (entry (p, c)) (stable_sort by_priority (map entry m))
      (All-stable_sort by_priority (λ y. p < y.piece) (map entry m) (pieces_above p m h.0))
      (sorted_entries-IsOrdered m h.1)

In-map-entry_to :
    (p : ℕ) (c : PriorityClass) (m : Priorities) → In (entry (p, c)) (map entry m) → In (p, c) m
In-map-entry_to p c [] i = i
In-map-entry_to p c ((q, d) ∷ m) (inl e) =
    inl (ground (arith, ap (λ x. x.piece) e, ap (λ x. x.priority) e))
In-map-entry_to p c ((q, d) ∷ m) (inr i) = inr (In-map-entry_to p c m i)

In-map-entry_from :
    (p : ℕ) (c : PriorityClass) (m : Priorities) → In (p, c) m → In (entry (p, c)) (map entry m)
In-map-entry_from p c [] i = i
In-map-entry_from p c (e ∷ m) (inl h) = inl (ap entry h)
In-map-entry_from p c (e ∷ m) (inr i) = inr (In-map-entry_from p c m i)

pub In-map-entry :
    (p : ℕ) (c : PriorityClass) (m : Priorities)
    → Ascending m
    → In (entry (p, c)) (map entry m) ↔ (find p m ≡ some c)
In-map-entry p c m h = (
  λ i. (In-find p c m h).0 (In-map-entry_to p c m i),
  λ e. In-map-entry_from p c m ((In-find p c m h).1 e),
)

pub In-sorted_entries :
    (p : ℕ) (c : PriorityClass) (m : Priorities)
    → Ascending m
    → In (entry (p, c)) (sorted_entries m) ↔ (find p m ≡ some c)
unfolding sorted_entries
In-sorted_entries p c m h = (
  λ i. (In-map-entry p c m h).0 ((In-stable_sort by_priority _ _).0 i),
  λ e. (In-stable_sort by_priority _ _).1 ((In-map-entry p c m h).1 e),
)
