-- ===== src/Http/Server/Connections.antt =====
-- The connections of `LoopbackServer::Impl`: the accepting thread, the workers and `stop` take turns
-- at the queue under its mutex. A connection is known by a number.
use nuvio_engine.Common.{
  ℕ, ◌+◌, ◌≤◌, ◌<◌, ◌≡◌, refl, sym, subst, max, ltb, Bool, Bool-cases, inl, inr, true, false, ◌&&◌,
  ◌||◌, not, List, [], ◌∷◌, ◌++◌, Option, none, some, arith, length, leb, ◌==◌, if◌then◌else◌,
  length-append,
}

-- `closed` are the connections whose sockets are closed, and `shut` those that `stop` shut down
-- while a worker has them. The thread that calls `stop` first sets `stopping`, and later, once, it
-- drains the queue; `drained` says whether it has.
pub record Connections : Type 0 where
  pub capacity : ℕ
  pub stopping : Bool
  pub drained : Bool
  pub queue : List ℕ
  pub active : List ℕ
  pub closed : List ℕ
  pub shut : List ℕ

abbrev pub count : ℕ → List ℕ → ℕ
count k [] = 0
count k (x ∷ xs) = (if x == k then 1 else 0) + count k xs

-- The bounds that the constructor demands.
unfoldable pub valid_bounds : ℕ → ℕ → Bool
valid_bounds worker_count connection_capacity =
    not (worker_count == 0)
    && leb worker_count 32
    && not (connection_capacity == 0)
    && leb connection_capacity 1024

unfoldable pub init : ℕ → Connections
init connection_capacity = record {
  capacity = connection_capacity;
  stopping = false;
  drained = false;
  queue = [];
  active = [];
  closed = [];
  shut = [];
}

-- `SharedSocket::close`: the exchange leaves no socket behind, and a second call finds none.
unfoldable pub close : ℕ → List ℕ → List ℕ
close connection closed = if ltb 0 (count connection closed) then closed else connection ∷ closed

unfoldable pub close_all : List ℕ → List ℕ → List ℕ
unfolding close
close_all [] closed = closed
close_all (connection ∷ rest) closed = close_all rest (close connection closed)

-- `accept_loop` with a client: it is closed at once if its socket cannot be configured, the server
-- stops or the queue is full.
unfoldable pub accept_client : Bool → ℕ → Connections → Connections
unfolding close
accept_client configured connection s =
    if not configured || s.stopping || leb s.capacity (length s.queue)
    then record s { closed = close connection s.closed }
    else record s { queue = s.queue ++ connection ∷ [] }

-- A worker's turn at the queue; `none` where it waits or ends.
unfoldable pub take_connection : Connections → Connections × Option ℕ
take_connection s = if s.stopping then (s, none) else elim s.queue [
  | [] ↦ (s, none)
  | connection ∷ rest ↦ (record s { queue = rest; active = connection ∷ s.active }, some connection)
]

-- `active_connections.erase(connection)`.
unfoldable pub remove : ℕ → List ℕ → List ℕ
remove connection [] = []
remove connection (other ∷ rest) =
    if other == connection then rest else other ∷ remove connection rest

-- `connection->close()` of a worker, which does not hold the mutex, and of the last owner.
unfoldable pub close_connection : ℕ → Connections → Connections
unfolding close
close_connection connection s = record s { closed = close connection s.closed }

-- A worker's second turn under the mutex, after it closed its connection.
unfoldable pub finish_connection : ℕ → Connections → Connections
unfolding remove
finish_connection connection s = record s { active = remove connection s.active }

-- `stop` up to the mutex. The exchange says whether another call was first; then there is nothing to do.
unfoldable pub request_stop : Connections → Connections × Bool
request_stop s = (record s { stopping = true }, s.stopping)

-- `stop` under the mutex: the queue is closed and emptied, the active connections are shut down.
unfoldable pub drain : Connections → Connections
unfolding close_all
drain s = record s {
  drained = true;
  queue = [];
  closed = close_all s.queue s.closed;
  shut = s.active ++ s.shut;
}

-- How often a connection is in the server's hands, and how often its socket has been closed.
abbrev pub places : ℕ → Connections → ℕ
places k s = count k s.queue + count k s.active + count k s.closed

-- The turns of the threads. A client that is accepted is a new connection. A worker closes a
-- connection that it took, and takes it out of the active ones after that; the destructor of a
-- connection closes it again. The first call of `stop` drains the queue, once.
pub data Step (s : Connections) : Connections → Type 0 where
  accepts :
      (configured : Bool) (connection : ℕ)
      → places connection s ≡ 0
      → Step s (accept_client configured connection s)
  takes : Step s (take_connection s).0
  closes : (connection : ℕ) → 0 < count connection s.active → Step s (close_connection connection s)
  finishes :
      (connection : ℕ)
      → 0 < count connection s.active
      → 0 < count connection s.closed
      → Step s (finish_connection connection s)
  destroys :
      (connection : ℕ) → 0 < count connection s.closed → Step s (close_connection connection s)
  stops : Step s (request_stop s).0
  drains : s.stopping ≡ true → s.drained ≡ false → Step s (drain s)

pub data Reach (s : Connections) : Connections → Type 0 where
  here : Reach s s
  next : {t u : Connections} → Reach s t → Step t u → Reach s u

pub count-append : (k : ℕ) (xs ys : List ℕ) → count k (xs ++ ys) ≡ count k xs + count k ys
count-append k [] ys = omega arith
count-append k (x ∷ xs) ys = omega (arith, count-append k xs ys)

pub count-remove :
    (k connection : ℕ) (xs : List ℕ)
    → 0 < count connection xs
    → count k (remove connection xs) + (if connection == k then 1 else 0) ≡ count k xs
unfolding remove
count-remove k connection [] h = absurd (omega arith)
count-remove k connection (x ∷ xs) h = ground (arith, count-remove k connection xs)

-- A socket that is closed is closed once.
pub count-close :
    (k connection : ℕ) (closed : List ℕ)
    → count k (close connection closed)
      ≡ (if connection == k then max (count k closed) 1 else count k closed)
unfolding close
count-close k connection closed = elim (Bool-cases (connection == k)) [
  | inl hit ↦
      let same : connection ≡ k = ground (arith, hit) in
      subst
        (λ c.
          count k (close c closed) ≡ (if c == k then max (count k closed) 1 else count k closed))
        (sym same) (ground arith)
  | inr miss ↦ ground (arith, miss)
]

pub count-close_all :
    (k : ℕ) (queue closed : List ℕ)
    → count k queue + count k closed ≤ 1
    → count k (close_all queue closed) ≡ count k queue + count k closed
unfolding close_all
count-close_all k [] closed h = omega arith
count-close_all k (x ∷ queue) closed h =
    ground (arith, count-close k x closed, count-close_all k queue (close x closed))

-- The queue is within its capacity; a connection is queued or with one worker, a queued one is not
-- closed, and none is closed twice. Once the queue is drained it stays empty.
pub record IsServed (s : Connections) : Type 0 where
  pub bounded : length s.queue ≤ s.capacity
  pub owned : (k : ℕ) → count k s.queue + count k s.active ≤ 1
  pub once : (k : ℕ) → count k s.queue + count k s.closed ≤ 1
  pub stopped : s.drained ≡ true → (s.stopping ≡ true) × (s.queue ≡ [])

Step-owned :
    {s t : Connections} (k : ℕ)
    → Step s t
    → count k s.queue + count k s.active ≤ 1
    → count k t.queue + count k t.active ≤ 1
unfolding accept_client take_connection close_connection finish_connection request_stop drain
Step-owned {s} k (accepts configured connection fresh) h =
    ground (arith, fresh, count-append k s.queue (connection ∷ []))
Step-owned {s} k takes h = ground arith
Step-owned {s} k (closes connection held) h = h
Step-owned {s} k (finishes connection held closed) h =
    ground (arith, count-remove k connection s.active held)
Step-owned {s} k (destroys connection held) h = h
Step-owned {s} k stops h = h
Step-owned {s} k (drains stopping first) h = omega arith

Step-once :
    {s t : Connections} (k : ℕ)
    → Step s t
    → count k s.queue + count k s.active ≤ 1
    → count k s.queue + count k s.closed ≤ 1
    → count k t.queue + count k t.closed ≤ 1
unfolding accept_client take_connection close_connection finish_connection request_stop drain
Step-once {s} k (accepts configured connection fresh) o h =
    ground
      (arith, fresh, count-close k connection s.closed, count-append k s.queue (connection ∷ []))
Step-once {s} k takes o h = ground arith
Step-once {s} k (closes connection held) o h =
    ground (arith, held, count-close k connection s.closed)
Step-once {s} k (finishes connection held closed) o h = h
Step-once {s} k (destroys connection held) o h =
    ground (arith, held, count-close k connection s.closed)
Step-once {s} k stops o h = h
Step-once {s} k (drains stopping first) o h = omega (arith, count-close_all k s.queue s.closed h)

Step-bounded :
    {s t : Connections} → Step s t → length s.queue ≤ s.capacity → length t.queue ≤ t.capacity
unfolding accept_client take_connection close_connection finish_connection request_stop drain
Step-bounded {s} (accepts configured connection fresh) h =
    ground (arith, length-append s.queue (connection ∷ []))
Step-bounded {s} takes h = ground arith
Step-bounded {s} (closes connection held) h = h
Step-bounded {s} (finishes connection held closed) h = h
Step-bounded {s} (destroys connection held) h = h
Step-bounded {s} stops h = h
Step-bounded {s} (drains stopping first) h = omega arith

-- The queue is drained.
abbrev IsStopped : Connections → Type 0
IsStopped s = s.drained ≡ true → (s.stopping ≡ true) × (s.queue ≡ [])

Step-IsStopped : {s t : Connections} → Step s t → IsStopped s → IsStopped t
unfolding accept_client take_connection close_connection finish_connection request_stop drain
Step-IsStopped {s} (accepts configured connection fresh) h = ground arith
Step-IsStopped {s} takes h = ground arith
Step-IsStopped {s} (closes connection held) h = h
Step-IsStopped {s} (finishes connection held closed) h = h
Step-IsStopped {s} (destroys connection held) h = h
Step-IsStopped {s} stops h = λ e. (refl, (h e).1)
Step-IsStopped {s} (drains stopping first) h = λ e. (stopping, refl)

-- However the threads take turns, the queue stays within its capacity; a connection is queued or with
-- a worker, with one at most; a queued one is open, and a socket is closed once at most; and from the
-- turn in which `stop` drains the queue on, the server is stopping and the queue stays empty.
pub Reach-IsServed : {s t : Connections} → IsServed s → Reach s t → IsServed t
Reach-IsServed v here = v
Reach-IsServed v (next r step) =
    let w = Reach-IsServed v r in
    record {
      bounded = Step-bounded step w.bounded;
      owned = λ k. Step-owned k step (w.owned k);
      once = λ k. Step-once k step (w.owned k) (w.once k);
      stopped = Step-IsStopped step w.stopped;
    }
