-- ===== src/Scheduler/DemandPlan/Plan.antt =====
-- The plan for all demands of a torrent.
use mathlib.Core.List.{reverse-cons}
use nuvio_engine.Common.{
  ℕ, ◌-◌, ◌<◌, ◌≤◌, ◌≡◌, refl, ap, inl, inr, Bool, false, ◌&&◌, List, [], ◌∷◌, map, reverse, some,
  arith, In, All, All-append, ltb, leb, Bool-cases, ltb→lt,
}
use nuvio_engine.Std.Results.{ok}
use nuvio_engine.Std.OrderedMap.{find, Ascending}
use nuvio_engine.Std.Sort.{All-stable_sort}
use nuvio_engine.Scheduler.PieceSchedule.{
  PriorityClass, blocking, critical, rank, PiecePriority, Priorities, entry, sorted_entries,
}
use nuvio_engine.Scheduler.PieceSchedule.Windows.{InBounds}
use nuvio_engine.Scheduler.PieceSchedule.Order.{
  IsOrdered, sorted_entries-IsOrdered, In-sorted_entries, In-map-entry,
}
use nuvio_engine.Scheduler.PieceSchedule.Priorities.{build_piece_schedule_lem}
use nuvio_engine.Scheduler.DemandPlan.{
  StreamDemand, StreamWindow, StreamDemandPlan, merge_schedule, Deadlines, push_deadlines,
  no_deadlines, demoted, is_reader, focused_request, bare_request, index_bytes, head_bytes,
  as_playback, add_head, add_readers, plan_for, by_id, build_stream_demand_plan, contains, is_cold,
}
use nuvio_engine.Scheduler.DemandPlan.Marks.{
  AtLeast, Distinct, IsTracked, merge_schedule-Ascending, merge_schedule-AtLeast, merge_schedule-In,
  merge_schedule_blocking, push_deadlines-Pushed,
}

-- The demanded range meets its file, and no offset or piece index of the file overflows.
abbrev pub IsValid : StreamDemand → Type 0
IsValid demand = InBounds (bare_request demand demand.range)

record Marked (m : Priorities) (d : Deadlines) : Type 0 where
  ascending : Ascending m
  tracked : IsTracked d
  urgent : (p : ℕ) → In p d.deadline_order → AtLeast 1 p m
  blocked : (p : ℕ) → find p m ≡ some blocking → In p d.deadline_order

AtLeast-mono : (p : ℕ) (m : Priorities) → AtLeast 0 p m → AtLeast 1 p m
AtLeast-mono p m (c, e, le) = (c, e, omega arith)

merged-Marked :
    (m : Priorities) (d : Deadlines) (s : List PiecePriority)
    → Marked m d
    → Marked (merge_schedule m s) (push_deadlines blocking s d)
merged-Marked m d s h =
    let pushed = push_deadlines-Pushed blocking s d h.tracked in
    record {
      ascending = merge_schedule-Ascending m s h.ascending;
      tracked = pushed.tracked;
      urgent = λ p i. elim (pushed.sound p i) [
        | inl old ↦ merge_schedule-AtLeast 1 p m s (h.urgent p old)
        | inr new ↦
            AtLeast-mono p (merge_schedule m s) (merge_schedule-In m s (entry (p, blocking)) new)
      ];
      blocked = λ p e. elim (merge_schedule_blocking p m s e) [
        | inl old ↦ pushed.complete p (inl (h.blocked p old))
        | inr new ↦ pushed.complete p (inr new)
      ];
    }

empty-Marked : Marked [] no_deadlines
unfolding find contains
empty-Marked = record {
  ascending = tt;
  tracked = record {
    set_of_list = λ p i. absurd i;
    list_of_set = λ p e. absurd (cc);
    distinct = tt;
  };
  urgent = λ p i. absurd i;
  blocked = λ p e. absurd (cc);
}

-- The readers behind the focused demand.
add_readers-Marked :
    (rest : List StreamDemand) (m : Priorities) (d : Deadlines)
    → All IsValid rest
    → Marked m d
    → (n : Priorities) × (e : Deadlines) × (add_readers rest m d ≡ ok (n, e)) × Marked n e
unfolding add_readers
add_readers-Marked [] m d v h = (m, d, refl, h)
add_readers-Marked (demand ∷ rest) m d v h = elim (Bool-cases (is_reader demand.kind)) [
  | inr other ↦
      let (n, e, ran, k) = add_readers-Marked rest m d v.1 h in
      (n, e, rw (other, add_readers) ran, k)
  | inl reads ↦
      let (s, built, _, _) = build_piece_schedule_lem (bare_request demand demand.range) v.0 in
      let (n, e, ran, k) =
        add_readers-Marked rest (merge_schedule m s) (push_deadlines blocking s d) v.1
          (merged-Marked m d s h) in
      (n, e, rw (reads, built, add_readers) ran, k)
]

playback_only : (p : ℕ) (s : List PiecePriority) → ¬ In (entry (p, blocking)) (map as_playback s)
unfolding as_playback
playback_only p [] i = i
playback_only p (x ∷ s) (inl e) = cc (ap (λ y. y.priority) e)
playback_only p (x ∷ s) (inr i) = playback_only p s i

-- The head of the file neither blocks nor takes urgency away.
with_head-Marked :
    (m : Priorities) (d : Deadlines) (s : List PiecePriority)
    → Marked m d
    → Marked (merge_schedule m (map as_playback s)) d
with_head-Marked m d s h = record {
  ascending = merge_schedule-Ascending m _ h.ascending;
  tracked = h.tracked;
  urgent = λ p i. merge_schedule-AtLeast 1 p m (map as_playback s) (h.urgent p i);
  blocked = λ p e. elim (merge_schedule_blocking p m (map as_playback s) e) [
    | inl old ↦ h.blocked p old
    | inr new ↦ absurd (playback_only p s new)
  ];
}

head-InBounds :
    (demand : StreamDemand) (bytes : ℕ)
    → IsValid demand
    → 0 < bytes
    → bytes ≤ demand.file_size
    → InBounds (bare_request demand (record { start = 0; end = bytes - 1 }))
unfolding bare_request
head-InBounds demand bytes v pos le = record {
  piece_size_pos = v.piece_size_pos;
  file_size_pos = v.file_size_pos;
  demand_ordered = omega arith;
  demand_inside = v.file_size_pos;
  demand_word = omega (arith, v.file_word);
  file_word = v.file_word;
  piece_word = v.piece_word;
}

focused-InBounds :
    (demand : StreamDemand) (window : StreamWindow)
    → IsValid demand
    → InBounds (focused_request demand window)
unfolding bare_request focused_request
focused-InBounds demand window v = record {
  piece_size_pos = v.piece_size_pos;
  file_size_pos = v.file_size_pos;
  demand_ordered = v.demand_ordered;
  demand_inside = v.demand_inside;
  demand_word = v.demand_word;
  file_word = v.file_word;
  piece_word = v.piece_word;
}

head_bytes-le :
    (focused : StreamDemand) (window : StreamWindow) → head_bytes focused window ≤ focused.file_size
unfolding head_bytes
head_bytes-le focused window = omega arith

add_head-Marked :
    (m : Priorities) (d : Deadlines) (focused : StreamDemand) (window : StreamWindow)
    → IsValid focused
    → Marked m d
    → (n : Priorities) × (add_head m focused window ≡ ok n) × Marked n d
unfolding add_head
add_head-Marked m d focused window v h =
    elim (Bool-cases (
      ltb 0 window.tail_bytes
      && leb (focused.file_size - index_bytes focused window) focused.range.start)) [
        | inr away ↦ (m, rw away refl, h)
        | inl near ↦ elim (Bool-cases (ltb 0 (head_bytes focused window))) [
          | inr no_bytes ↦ (m, rw (near, no_bytes) refl, h)
          | inl some_bytes ↦
              let (s, built, _, _) = build_piece_schedule_lem _ (
                head-InBounds focused (head_bytes focused window) v (ltb→lt _ _ some_bytes)
                  (head_bytes-le focused window)) in
              (
                merge_schedule m (map as_playback s),
                rw (near, some_bytes, built) refl,
                with_head-Marked m d s h,
              )
        ]
      ]

-- What a caller may rely on: the pieces are strictly ordered by class and piece, and the deadlines
-- go, once each, to exactly the pieces that are blocking or critical.
pub record IsPlan (plan : StreamDemandPlan) : Type 0 where
  pub ordered : IsOrdered plan.pieces
  pub distinct : Distinct plan.deadline_order
  pub urgent :
      (p : ℕ)
      → In p plan.deadline_order
      → (c : PriorityClass) × In (entry (p, c)) plan.pieces × (rank c ≤ 1)
  pub complete :
      (p : ℕ) (c : PriorityClass)
      → In (entry (p, c)) plan.pieces
      → rank c ≤ 1
      → In p plan.deadline_order

-- The plan that the code returns from its map and its deadlines.
abbrev finished : ℕ → Bool → Priorities → Deadlines → StreamDemandPlan
finished id cold m d = record {
  focused_demand_id = id;
  pieces = sorted_entries m;
  deadline_order = (push_deadlines critical (map entry m) d).deadline_order;
  cold = cold;
}

finished-IsPlan :
    (id : ℕ) (cold : Bool) (m : Priorities) (d : Deadlines)
    → Marked m d
    → IsPlan (finished id cold m d)
finished-IsPlan id cold m d h =
    let pushed = push_deadlines-Pushed critical (map entry m) d h.tracked in
    record {
      ordered = sorted_entries-IsOrdered m h.ascending;
      distinct = pushed.tracked.distinct;
      urgent = λ p i. elim (pushed.sound p i) [
        | inl old ↦
            let (c, e, le) = h.urgent p old in (c, (In-sorted_entries p c m h.ascending).1 e, le)
        | inr new ↦ (
          critical,
          (In-sorted_entries p critical m h.ascending).1
              ((In-map-entry p critical m h.ascending).0 new),
          omega arith,
        )
      ];
      complete = λ p c i le. urgent_pushed p c ((In-sorted_entries p c m h.ascending).0 i) le;
    }
  where
    urgent_pushed :
        (p : ℕ) (c : PriorityClass)
        → find p m ≡ some c
        → rank c ≤ 1
        → In p (push_deadlines critical (map entry m) d).deadline_order
    urgent_pushed p blocking e le =
        (push_deadlines-Pushed critical (map entry m) d h.tracked).complete p (inl (h.blocked p e))
    urgent_pushed p critical e le =
        (push_deadlines-Pushed critical (map entry m) d h.tracked).complete p
          (inr ((In-map-entry p critical m h.ascending).1 e))
    urgent_pushed p _ e le = absurd (omega arith)

plan_for-IsPlan :
    (demands : List StreamDemand) (window : StreamWindow)
    → All IsValid demands
    → (plan : StreamDemandPlan) × (plan_for demands window ≡ ok plan) × IsPlan plan
unfolding plan_for
plan_for-IsPlan [] window v = (
  record { focused_demand_id = 0; pieces = []; deadline_order = []; cold = false },
  refl,
  record { ordered = tt; distinct = tt; urgent = λ p i. absurd i; complete = λ p c i le. absurd i },
)
plan_for-IsPlan (focused ∷ others) window v =
    let (built, ran, _, _) =
      build_piece_schedule_lem (focused_request focused window)
        (focused-InBounds focused window v.0) in
    let schedule = demoted focused.kind built in
    let start = merged-Marked [] no_deadlines schedule empty-Marked in
    let (m, ran_head, marked) =
      add_head-Marked (merge_schedule [] schedule) (push_deadlines blocking schedule no_deadlines)
        focused window v.0 start in
    let (n, e, ran_readers, final) =
      add_readers-Marked others m (push_deadlines blocking schedule no_deadlines) v.1 marked in
    (
      finished focused.id (is_cold focused) n e,
      rw (ran, ran_head, ran_readers) refl,
      finished-IsPlan focused.id (is_cold focused) n e final,
    )

All-reverse : (xs : List StreamDemand) → All IsValid xs → All IsValid (reverse xs)
All-reverse [] v = tt
All-reverse (x ∷ xs) v =
    rw (reverse-cons x xs) (All-append IsValid (reverse xs) (x ∷ []) (All-reverse xs v.1) (v.0, tt))

-- For demands that meet their files, with offsets and piece indices in range, a plan is built, and
-- its pieces and deadlines satisfy `IsPlan`.
pub build_stream_demand_plan-IsPlan :
    (demands : List StreamDemand) (window : StreamWindow)
    → All IsValid demands
    → (plan : StreamDemandPlan) × (build_stream_demand_plan demands window ≡ ok plan) × IsPlan plan
unfolding build_stream_demand_plan
build_stream_demand_plan-IsPlan demands window v =
    plan_for-IsPlan _ window (All-reverse _ (All-stable_sort by_id IsValid demands v))
