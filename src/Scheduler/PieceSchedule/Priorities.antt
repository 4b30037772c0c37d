-- ===== src/Scheduler/PieceSchedule/Priorities.antt =====
-- The schedule against its specification by bytes.
use nuvio_engine.Common.{
  ℕ, ◌≡◌, refl, ◌∙◌, sym, ◌↔◌, Bool, false, ◌||◌, List, [], Option, none, some, min, arith, In,
  saturating_add, saturating_add-min, ltb, leb, ◌==◌, if◌then◌else◌,
}
use nuvio_engine.Std.Results.{ok}
use nuvio_engine.Std.OrderedMap.{find, Ascending}
use nuvio_engine.Scheduler.PieceSchedule.{
  PriorityClass, blocking, critical, playback, metadata_tail, readahead, PiecePriority,
  ScheduleRequest, Priorities, add_range, add_window, add_tail, collect, sorted_entries, entry,
  build_piece_schedule,
}
use nuvio_engine.Scheduler.PieceSchedule.Windows.{
  InBounds, better, add_range-Added, add_window-Added, add_tail-Added,
}
use nuvio_engine.Scheduler.PieceSchedule.Zones.{
  IsBest, reaches, first_class, first_class-IsBest, demand_end, critical_end, playback_end,
}
use nuvio_engine.Scheduler.PieceSchedule.Order.{
  IsOrdered, sorted_entries-IsOrdered, In-sorted_entries,
}

-- Five additions in the order of the code leave the first class by rank.
additions :
    (a b c d e : Bool)
    → (let m1 : Option PriorityClass = if a then some blocking else none in
        let m2 : Option PriorityClass = if b then some (better critical m1) else m1 in
        let m3 : Option PriorityClass = if c then some (better playback m2) else m2 in
        let m4 : Option PriorityClass = if d then some (better readahead m3) else m3 in
        if e then some (better metadata_tail m4) else m4)
      ≡ (if a
          then some blocking
          else if b
          then some critical
          else if c
          then some playback
          else if e
          then some metadata_tail
          else if d
          then some readahead
          else none)
additions a b c d e = ground arith

-- The chain of steps, each with its result.
collect_steps :
    (r : ScheduleRequest) (m1 m2 m3 m4 m5 : Priorities) (n1 n2 n3 n4 : ℕ)
    → add_range [] r r.demand blocking ≡ ok m1
    → min (saturating_add r.demand.end 1) r.file_size ≡ n1
    → add_window m1 r n1 r.critical_bytes critical ≡ ok (m2, n2)
    → add_window m2 r n2 r.playback_bytes playback ≡ ok (m3, n3)
    → add_window m3 r n3 r.readahead_bytes readahead ≡ ok (m4, n4)
    → add_tail m4 r ≡ ok m5
    → collect r ≡ ok m5
unfolding collect
collect_steps r m1 m2 m3 m4 m5 n1 n2 n3 n4 e1 e e2 e3 e4 e5 = rw (e1, e, e2, e3, e4) e5

module _ (r : ScheduleRequest) (b : InBounds r) where
  collect-first_class :
      (m : Priorities) × (collect r ≡ ok m)
      × ((p : ℕ) → find p m ≡ first_class (λ c. reaches r c p))
      × Ascending m
  unfolding first_class find
  collect-first_class =
      let (m1, ran1, add1) =
        add_range-Added r b [] r.demand (demand_end r) blocking b.demand_ordered b.demand_inside
          refl in
      let next : min (saturating_add r.demand.end 1) r.file_size ≡ demand_end r =
        omega (arith, saturating_add-min r.demand.end 1 b.demand_word, b.file_word) in
      let (m2, ran2, add2) =
        add_window-Added r b m1 (demand_end r) r.critical_bytes critical (omega arith) in
      let (m3, ran3, add3) =
        add_window-Added r b m2 (critical_end r) r.playback_bytes playback (omega arith) in
      let (m4, ran4, add4) =
        add_window-Added r b m3 (playback_end r) r.readahead_bytes readahead (omega arith) in
      let (m5, ran5, add5) = add_tail-Added r b m4 in
      (
        m5,
        collect_steps r m1 m2 m3 m4 m5 _ _ _ _ ran1 next ran2 ran3 ran4 ran5,
        λ p.
            rw
              (
                add5.looked_up p,
                add4.looked_up p,
                add3.looked_up p,
                add2.looked_up p,
                add1.looked_up p,
              )
              (additions (reaches r blocking p) (reaches r critical p) (reaches r playback p)
                (reaches r readahead p) (reaches r metadata_tail p)),
        add5.ordered (add4.ordered (add3.ordered (add2.ordered (add1.ordered tt)))),
      )

-- For a demand that meets its file, with offsets and piece indices in range, a schedule is built;
-- it lists a piece under a class exactly if that is the most urgent class with a byte in the piece;
-- and it is strictly ordered by class and, within a class, by piece.
pub build_piece_schedule_lem :
    (r : ScheduleRequest)
    → InBounds r
    → (s : List PiecePriority) × (build_piece_schedule r ≡ ok s)
      × ((p : ℕ) (c : PriorityClass) → In (entry (p, c)) s ↔ IsBest r p c)
      × IsOrdered s
unfolding build_piece_schedule
build_piece_schedule_lem r b =
    let (m, ran, found, asc) = collect-first_class r b in
    let some_pieces : (r.piece_size == 0) ≡ false = ground (arith, b.piece_size_pos) in
    let some_bytes : (r.file_size == 0) ≡ false = ground (arith, b.file_size_pos) in
    let meets : (ltb r.demand.end r.demand.start || leb r.file_size r.demand.start) ≡ false =
      ground (arith, b.demand_ordered, b.demand_inside) in
    (
      sorted_entries m,
      rw (some_pieces, some_bytes, meets, ran) refl,
      λ p c. (
        λ i. (first_class-IsBest r b p c).0 (sym (found p) ∙ (In-sorted_entries p c m asc).0 i),
        λ best. (In-sorted_entries p c m asc).1 (found p ∙ (first_class-IsBest r b p c).1 best),
      ),
      sorted_entries-IsOrdered m asc,
    )
