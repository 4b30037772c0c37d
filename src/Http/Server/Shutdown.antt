-- ===== src/Http/Server/Shutdown.antt =====
-- `stop` of the server: what holds in the turns after it began, and that they can come to an end.
use nuvio_engine.Common.{
  ℕ, ◌≤◌, ◌<◌, ◌≡◌, refl, ◌∙◌, Bool-cases, inl, inr, true, List, [], ◌∷◌, arith, ◌==◌,
}
use nuvio_engine.Http.Server.Connections.{
  Connections, count, places, remove, take_connection, accept_client, close_connection,
  finish_connection, request_stop, drain, Step, accepts, takes, closes, finishes, destroys, stops,
  drains, Reach, here, next, IsServed, Reach-IsServed, count-remove, count-close, count-close_all,
}

-- A turn of a stopping server gives no worker a connection, and loses none.
record Winds (s t : Connections) : Type 0 where
  stopping : t.stopping ≡ true
  active : (k : ℕ) → count k t.active ≤ count k s.active
  kept : (k : ℕ) → 0 < places k s → 0 < places k t

Step-Winds : {s t : Connections} → s.stopping ≡ true → IsServed s → Step s t → Winds s t
unfolding accept_client take_connection close_connection finish_connection request_stop drain
Step-Winds {s} h v (accepts configured connection fresh) = record {
  stopping = ground (arith, h);
  active = λ k. ground (arith, h);
  kept = λ k p. ground (arith, h, p, fresh, count-close k connection s.closed);
}
Step-Winds {s} h v takes = record {
  stopping = ground (arith, h);
  active = λ k. ground (arith, h);
  kept = λ k p. ground (arith, h, p);
}
Step-Winds {s} h v (closes connection held) = record {
  stopping = h;
  active = λ k. omega arith;
  kept = λ k p. ground (arith, p, count-close k connection s.closed);
}
Step-Winds {s} h v (finishes connection held closed) = record {
  stopping = h;
  active = λ k. ground (arith, count-remove k connection s.active held);
  kept = λ k p. elim (Bool-cases (connection == k)) [
    | inl hit ↦ let same : connection ≡ k = ground (arith, hit) in ground (arith, closed, same)
    | inr miss ↦ ground (arith, p, miss, count-remove k connection s.active held)
  ];
}
Step-Winds {s} h v (destroys connection held) = record {
  stopping = h;
  active = λ k. omega arith;
  kept = λ k p. ground (arith, p, count-close k connection s.closed);
}
Step-Winds {s} h v stops = record { stopping = refl; active = λ k. omega arith; kept = λ k p. p }
Step-Winds {s} h v (drains stopping first) = record {
  stopping = h;
  active = λ k. omega arith;
  kept = λ k p. omega (arith, p, count-close_all k s.queue s.closed (v.once k));
}

Reach-Winds : {s t : Connections} → s.stopping ≡ true → IsServed s → Reach s t → Winds s t
Reach-Winds h v here = record { stopping = h; active = λ k. omega arith; kept = λ k p. p }
Reach-Winds h v (next r step) =
    let w = Reach-Winds h v r in
    let u = Step-Winds w.stopping (Reach-IsServed v r) step in
    record {
      stopping = u.stopping;
      active = λ k. omega (arith, w.active k, u.active k);
      kept = λ k p. u.kept k (w.kept k p);
    }

-- A connection with a worker is closed, and then taken out of the active ones.
finish_one :
    (connection : ℕ) (rest : List ℕ) (s : Connections)
    → s.active ≡ connection ∷ rest
    → (t : Connections) × Reach s t × (t.active ≡ rest) × (t.drained ≡ s.drained)
unfolding close_connection finish_connection remove
finish_one connection rest s e =
    let shut = close_connection connection s in
    let held : 0 < count connection s.active = rw e (ground arith) in
    let closed : 0 < count connection shut.closed =
      ground (arith, count-close connection connection s.closed) in
    (
      finish_connection connection shut,
      next (next here (closes connection held)) (finishes connection held closed),
      rw e (ground arith),
      refl,
    )

Reach-trans : {s u t : Connections} → Reach s u → Reach u t → Reach s t
Reach-trans r here = r
Reach-trans r (next last step) = next (Reach-trans r last) step

finish_all :
    (active : List ℕ) (s : Connections)
    → s.active ≡ active
    → (t : Connections) × Reach s t × (t.active ≡ []) × (t.drained ≡ s.drained)
finish_all [] s e = (s, here, e, refl)
finish_all (connection ∷ rest) s e =
    let (u, first, left, same) = finish_one connection rest s e in
    let (t, r, done, drained) = finish_all rest u left in
    (t, Reach-trans first r, done, drained ∙ same)

-- The queue is drained, in this turn or before.
drained_at :
    (s : Connections) → s.stopping ≡ true → (t : Connections) × Reach s t × (t.drained ≡ true)
unfolding drain
drained_at s stopping = elim (Bool-cases s.drained) [
  | inl done ↦ (s, here, done)
  | inr first ↦ (drain s, next here (drains stopping first), refl)
]

-- The end: the queue was drained, and no worker has a connection.
pub record IsOver (t : Connections) : Type 0 where
  pub drained : t.drained ≡ true
  pub idle : t.active ≡ []

-- What holds in every run from the state, and that a run comes to the end.
pub record ComesToEnd (s : Connections) : Type 0 where
  pub no_more : (t : Connections) → Reach s t → (k : ℕ) → count k t.active ≤ count k s.active
  pub kept : (t : Connections) → Reach s t → (k : ℕ) → 0 < places k s → 0 < places k t
  pub unqueued : (t : Connections) → Reach s t → IsOver t → t.queue ≡ []
  pub closed :
      (t : Connections) → Reach s t → IsOver t → (k : ℕ) → 0 < places k t → count k t.closed ≡ 1
  pub course : (t : Connections) × Reach s t × IsOver t

-- In every run of a stopping server, no worker gets another connection, none is lost, and at the end,
-- when the queue was drained and no worker has a connection, nothing is queued, and every connection
-- that the server had in its hands or took in since is closed exactly once. There is a run to the end.
pub stopping_ends : (s : Connections) → s.stopping ≡ true → IsServed s → ComesToEnd s
stopping_ends s stopping v = record {
  no_more = λ t r. (Reach-Winds stopping v r).active;
  kept = λ t r. (Reach-Winds stopping v r).kept;
  unqueued = λ t r over. ((Reach-IsServed v r).stopped over.drained).1;
  closed = λ t r over k p.
      let u = Reach-IsServed v r in
      let queued : count k t.queue ≡ 0 = rw ((u.stopped over.drained).1) refl in
      let held : count k t.active ≡ 0 = rw (over.idle) refl in
      omega (arith, p, u.once k, queued, held);
  course =
      let (u, first, done) = drained_at s stopping in
      let (t, r, idle, same) = finish_all u.active u refl in
      (t, Reach-trans first r, record { drained = same ∙ done; idle = idle });
}
