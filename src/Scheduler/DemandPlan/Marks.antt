-- ===== src/Scheduler/DemandPlan/Marks.antt =====
-- The invariant of the loops that merge schedules and collect deadlines.
use nuvio_engine.Common.{
  ℕ, ◌≤◌, ◌≡◌, refl, sym, ap, ◌∙◌, subst, ◌⊎◌, inl, inr, true, false, List, [], ◌∷◌, ◌++◌, Option,
  none, some, arith, In, ◌==◌, if◌then◌else◌, Bool-cases,
}
use nuvio_engine.Std.OrderedMap.{find, Ascending}
use nuvio_engine.Scheduler.PieceSchedule.{
  PriorityClass, blocking, critical, playback, metadata_tail, readahead, rank, PiecePriority,
  Priorities, raise, entry,
}
use nuvio_engine.Scheduler.PieceSchedule.Windows.{better, find-raise, raise-Ascending}
use nuvio_engine.Scheduler.DemandPlan.{
  merge_schedule, contains, Deadlines, push_deadline, push_deadlines,
}

-- The map gives piece `p` a class of at least the urgency of `k`.
abbrev pub AtLeast : ℕ → ℕ → Priorities → Type 0
AtLeast k p m = (c : PriorityClass) × (find p m ≡ some c) × (rank c ≤ k)

pub merge_schedule-Ascending :
    (m : Priorities) (xs : List PiecePriority) → Ascending m → Ascending (merge_schedule m xs)
unfolding merge_schedule
merge_schedule-Ascending m [] h = h
merge_schedule-Ascending m (x ∷ xs) h =
    merge_schedule-Ascending (raise m x.piece x.priority) xs
      (raise-Ascending x.piece x.priority m h)

raise-AtLeast :
    (k p i : ℕ) (c : PriorityClass) (m : Priorities) → AtLeast k p m → AtLeast k p (raise m i c)
raise-AtLeast k p i c m (d, e, le) = elim (Bool-cases (i == p)) [
  | inl here ↦ (better c (some d), find-raise p i c m ∙ rw (here, e) refl, ground arith)
  | inr other ↦ (d, find-raise p i c m ∙ rw (other, e) refl, le)
]

==_refl : (p : ℕ) → (p == p) ≡ true
==_refl p = ground arith

better_le : (c : PriorityClass) (o : Option PriorityClass) → rank (better c o) ≤ rank c
better_le c none = omega arith
better_le c (some d) = ground arith

raise-AtLeast_self : (p : ℕ) (c : PriorityClass) (m : Priorities) → AtLeast (rank c) p (raise m p c)
raise-AtLeast_self p c m =
    (better c (find p m), find-raise p p c m ∙ rw (==_refl p) refl, better_le c (find p m))

pub merge_schedule-AtLeast :
    (k p : ℕ) (m : Priorities) (xs : List PiecePriority)
    → AtLeast k p m
    → AtLeast k p (merge_schedule m xs)
unfolding merge_schedule
merge_schedule-AtLeast k p m [] h = h
merge_schedule-AtLeast k p m (x ∷ xs) h =
    merge_schedule-AtLeast k p (raise m x.piece x.priority) xs
      (raise-AtLeast k p x.piece x.priority m h)

pub merge_schedule-In :
    (m : Priorities) (xs : List PiecePriority) (x : PiecePriority)
    → In x xs
    → AtLeast (rank x.priority) x.piece (merge_schedule m xs)
unfolding merge_schedule
merge_schedule-In m [] x i = absurd i
merge_schedule-In m (y ∷ xs) x (inl e) =
    merge_schedule-AtLeast (rank x.priority) x.piece (raise m y.piece y.priority) xs (
      subst (λ z. AtLeast (rank x.priority) x.piece (raise m z.piece z.priority)) e
        (raise-AtLeast_self x.piece x.priority m))
merge_schedule-In m (y ∷ xs) x (inr i) = merge_schedule-In (raise m y.piece y.priority) xs x i

better_blocking :
    (p i : ℕ) (c : PriorityClass) (o : Option PriorityClass)
    → (if i == p then some (better c o) else o) ≡ some blocking
    → (o ≡ some blocking) ⊎ ((i ≡ p) × (c ≡ blocking))
better_blocking p i c none h = ground arith
better_blocking p i c (some d) h = ground arith

raise_blocking :
    (p i : ℕ) (c : PriorityClass) (m : Priorities)
    → find p (raise m i c) ≡ some blocking
    → (find p m ≡ some blocking) ⊎ ((i ≡ p) × (c ≡ blocking))
raise_blocking p i c m h = better_blocking p i c (find p m) (sym (find-raise p i c m) ∙ h)

-- A blocking piece of the merged map was blocking before, or in the schedule.
pub merge_schedule_blocking :
    (p : ℕ) (m : Priorities) (xs : List PiecePriority)
    → find p (merge_schedule m xs) ≡ some blocking
    → (find p m ≡ some blocking) ⊎ In (entry (p, blocking)) xs
unfolding merge_schedule
merge_schedule_blocking p m [] h = inl h
merge_schedule_blocking p m (x ∷ xs) h =
    elim (merge_schedule_blocking p (raise m x.piece x.priority) xs h) [
      | inr i ↦ inr (inr i)
      | inl e ↦ elim (raise_blocking p x.piece x.priority m e) [
        | inl old ↦ inl old
        | inr (here, c) ↦ inr (inl (λ i. record { piece = sym here i; priority = sym c i }))
      ]
    ]

-- No piece stands twice.
abbrev pub Distinct : List ℕ → Type 0
Distinct [] = Unit
Distinct (x ∷ xs) = (¬ In x xs) × Distinct xs

In-append_to : (a y : ℕ) (xs : List ℕ) → In a xs ⊎ (a ≡ y) → In a (xs ++ y ∷ [])
In-append_to a y [] (inl i) = absurd i
In-append_to a y [] (inr e) = inl e
In-append_to a y (x ∷ xs) (inl (inl e)) = inl e
In-append_to a y (x ∷ xs) (inl (inr i)) = inr (In-append_to a y xs (inl i))
In-append_to a y (x ∷ xs) (inr e) = inr (In-append_to a y xs (inr e))

In-append_from : (a y : ℕ) (xs : List ℕ) → In a (xs ++ y ∷ []) → In a xs ⊎ (a ≡ y)
In-append_from a y [] (inl e) = inr e
In-append_from a y [] (inr i) = absurd i
In-append_from a y (x ∷ xs) (inl e) = inl (inl e)
In-append_from a y (x ∷ xs) (inr i) = elim (In-append_from a y xs i) [
  | inl j ↦ inl (inr j)
  | inr e ↦ inr e
]

Distinct-append : (y : ℕ) (xs : List ℕ) → ¬ In y xs → Distinct xs → Distinct (xs ++ y ∷ [])
Distinct-append y [] h d = (λ i. i, tt)
Distinct-append y (x ∷ xs) h d = (
  λ i. elim (In-append_from x y xs i) [ inl j ↦ d.0 j | inr e ↦ h (inl (sym e)) ],
  Distinct-append y xs (λ i. h (inr i)) d.1,
)

-- The set and the list agree, and the list has no duplicates.
pub record IsTracked (d : Deadlines) : Type 0 where
  pub set_of_list : (p : ℕ) → In p d.deadline_order → contains p d.ordered ≡ true
  pub list_of_set : (p : ℕ) → contains p d.ordered ≡ true → In p d.deadline_order
  pub distinct : Distinct d.deadline_order

-- What a push adds to the list.
pub record Pushed (d e : Deadlines) (P : ℕ → Type 0) : Type 0 where
  pub tracked : IsTracked e
  pub sound : (p : ℕ) → In p e.deadline_order → In p d.deadline_order ⊎ P p
  pub complete : (p : ℕ) → In p d.deadline_order ⊎ P p → In p e.deadline_order

push_new :
    (q : ℕ) (d : Deadlines)
    → IsTracked d
    → contains q d.ordered ≡ false
    → Pushed d
        (record { ordered = q ∷ d.ordered; deadline_order = d.deadline_order ++ q ∷ [] })
        (λ p. p ≡ q)
unfolding contains
push_new q d t new = record {
  tracked = record {
    set_of_list = λ p i. elim (In-append_from p q d.deadline_order i) [
      | inl j ↦ ground (arith, t.set_of_list p j)
      | inr e ↦ ground arith
    ];
    list_of_set = λ p h. In-append_to p q d.deadline_order (elim (Bool-cases (q == p)) [
      | inl e ↦ inr (ground arith)
      | inr ne ↦ inl (t.list_of_set p (ground arith))
    ]);
    distinct =
        Distinct-append q d.deadline_order (λ i. absurd (cc (new, t.set_of_list q i))) t.distinct;
  };
  sound = λ p. In-append_from p q d.deadline_order;
  complete = λ p. In-append_to p q d.deadline_order;
}

push_deadline-Pushed :
    (q : ℕ) (d : Deadlines) → IsTracked d → Pushed d (push_deadline q d) (λ p. p ≡ q)
unfolding push_deadline
push_deadline-Pushed q d t = elim (Bool-cases (contains q d.ordered)) [
  | inr new ↦ rw new (push_new q d t new)
  | inl old ↦ rw old (record {
    tracked = t;
    sound = λ p i. inl i;
    complete = λ p h. elim h [
      | inl i ↦ i
      | inr e ↦ subst (λ x. In x d.deadline_order) (sym e) (t.list_of_set q old)
    ];
  })
]

Pushed-trans :
    (d e f : Deadlines) (P Q R : ℕ → Type 0)
    → Pushed d e P
    → Pushed e f Q
    → ((p : ℕ) → P p ⊎ Q p → R p)
    → ((p : ℕ) → R p → P p ⊎ Q p)
    → Pushed d f R
Pushed-trans d e f P Q R a b to from = record {
  tracked = b.tracked;
  sound = λ p i. elim (b.sound p i) [
    | inr q ↦ inr (to p (inr q))
    | inl j ↦ elim (a.sound p j) [ inl k ↦ inl k | inr x ↦ inr (to p (inl x)) ]
  ];
  complete = λ p h. elim h [
    | inl i ↦ b.complete p (inl (a.complete p (inl i)))
    | inr r ↦ elim (from p r) [
      | inl x ↦ b.complete p (inl (a.complete p (inr x)))
      | inr q ↦ b.complete p (inr q)
    ]
  ];
}

Pushed-id : (d : Deadlines) → IsTracked d → Pushed d d (λ p. ⊥)
Pushed-id d t = record {
  tracked = t;
  sound = λ p i. inl i;
  complete = λ p h. elim h [ inl i ↦ i | inr x ↦ absurd x ];
}

rank_injective : (c d : PriorityClass) → rank c ≡ rank d → c ≡ d
rank_injective blocking blocking e = refl
rank_injective critical critical e = refl
rank_injective playback playback e = refl
rank_injective metadata_tail metadata_tail e = refl
rank_injective readahead readahead e = refl
rank_injective _ _ e = absurd (omega arith)

-- The pieces of the class, in a schedule.
pub push_deadlines-Pushed :
    (c : PriorityClass) (xs : List PiecePriority) (d : Deadlines)
    → IsTracked d
    → Pushed d (push_deadlines c xs d) (λ p. In (entry (p, c)) xs)
unfolding push_deadlines
push_deadlines-Pushed c [] d t = Pushed-id d t
push_deadlines-Pushed c (x ∷ xs) d t = elim (Bool-cases (rank x.priority == rank c)) [
  | inl same ↦
      let first = push_deadline-Pushed x.piece d t in
      let class : x.priority ≡ c = rank_injective x.priority c (ground arith) in
      rw same (
        Pushed-trans d (push_deadline x.piece d) _ (λ p. p ≡ x.piece) (λ p. In (entry (p, c)) xs) _
          first (push_deadlines-Pushed c xs (push_deadline x.piece d) first.tracked)
          (λ p h. elim h [
            | inl e ↦ inl (λ i. record { piece = e i; priority = sym class i })
            | inr i ↦ inr i
          ])
          (λ p h. elim h [ inl e ↦ inl (ap (λ y. y.piece) e) | inr i ↦ inr i ]))
  | inr other ↦ rw other (
      Pushed-trans d d _ (λ p. ⊥) (λ p. In (entry (p, c)) xs) _ (Pushed-id d t)
        (push_deadlines-Pushed c xs d t) (λ p h. elim h [ inl x ↦ absurd x | inr i ↦ inr i ])
        (λ p h. elim h [
          | inl e ↦ absurd (cc (other, ==_refl (rank c), ap (λ y. y.priority) e))
          | inr i ↦ inr i
        ]))
]
