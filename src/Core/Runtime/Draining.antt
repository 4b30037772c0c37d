-- ===== src/Core/Runtime/Draining.antt =====
-- src/core/engine_runtime.cpp: the worker of a stopping runtime carries out every queued command.
use nuvio_engine.Common.{
  ℕ, ◌+◌, ◌<◌, ◌≡◌, refl, ◌∙◌, sym, Bool, true, false, List, [], ◌∷◌, ltb, ◌&&◌, none, some, arith,
  length, Bytes, Bool-cases, inl, inr, subst,
}
use nuvio_engine.Core.Runtime.Stats.{BackendStats}
use nuvio_engine.Core.Runtime.Types.{
  Command, BackendEvent, Attempt, returned, failed, unknown, Backend,
}
use nuvio_engine.Core.Runtime.{Runtime, push_event}
use nuvio_engine.Core.Runtime.Worker.{
  report, push_events, is_empty_list, collect_popped, dispatch, process_command, run, publish,
  publish_events, collect_backend_events, collect_now, run_once,
}
use nuvio_engine.Core.Runtime.Course.{Course, ended, pops, measures, dispatch-Course}

-- What the worker leaves alone while it handles one command.
record Keeps {B : Type 0} (r s : Runtime B) : Type 0 where
  commands : s.commands ≡ r.commands
  next_request_id : s.next_request_id ≡ r.next_request_id
  command_capacity : s.command_capacity ≡ r.command_capacity
  stopping : s.stopping ≡ r.stopping
  backend : s.backend ≡ r.backend
  save_path : s.save_path ≡ r.save_path

module _ {B : Type 0} where
  push_event-Keeps : (e : BackendEvent) (r : Runtime B) → Keeps r (push_event e r)
  unfolding push_event
  push_event-Keeps e r = record {
    commands = refl;
    next_request_id = refl;
    command_capacity = refl;
    stopping = refl;
    backend = refl;
    save_path = refl;
  }

  Keeps-trans : (r s t : Runtime B) → Keeps r s → Keeps s t → Keeps r t
  Keeps-trans r s t a b = record {
    commands = b.commands ∙ a.commands;
    next_request_id = b.next_request_id ∙ a.next_request_id;
    command_capacity = b.command_capacity ∙ a.command_capacity;
    stopping = b.stopping ∙ a.stopping;
    backend = b.backend ∙ a.backend;
    save_path = b.save_path ∙ a.save_path;
  }

  Keeps-id : (r : Runtime B) → Keeps r r
  Keeps-id r = record {
    commands = refl;
    next_request_id = refl;
    command_capacity = refl;
    stopping = refl;
    backend = refl;
    save_path = refl;
  }

  push_events-Keeps : (es : List BackendEvent) (r : Runtime B) → Keeps r (push_events es r)
  unfolding push_events
  push_events-Keeps [] r = Keeps-id r
  push_events-Keeps (e ∷ es) r =
      Keeps-trans r (push_event e r) _ (push_event-Keeps e r)
        (push_events-Keeps es (push_event e r))

  report-Keeps :
      {A : Type 0} (id : ℕ) (text : Bytes) (a : Attempt A) (r : Runtime B)
      → Keeps r (report id text a r)
  unfolding report
  report-Keeps id text (returned a) r = Keeps-id r
  report-Keeps id text (failed m) r = push_event-Keeps _ r
  report-Keeps id text unknown r = push_event-Keeps _ r

-- The state after a round: the backend is in a state that was reached, and the queue is as given.
record Ready {B : Type 0} (R : B → Type 0) (path : Bytes) (cs : List Command) (next capacity : ℕ)
    (stop : Bool) (r : Runtime B) : Type 0 where
  state : B
  reached : R state
  backend : r.backend ≡ some state
  commands : r.commands ≡ cs
  next_request_id : r.next_request_id ≡ next
  command_capacity : r.command_capacity ≡ capacity
  stopping : r.stopping ≡ stop
  save_path : r.save_path ≡ path

Ready-Keeps :
    {B : Type 0} (R : B → Type 0) (path : Bytes) (cs : List Command) (n k : ℕ) (b : Bool)
    (r s : Runtime B)
    → Ready R path cs n k b r
    → Keeps r s
    → Ready R path cs n k b s
Ready-Keeps R path cs n k b r s h a = record {
  state = h.state;
  reached = h.reached;
  backend = a.backend ∙ h.backend;
  commands = a.commands ∙ h.commands;
  next_request_id = a.next_request_id ∙ h.next_request_id;
  command_capacity = a.command_capacity ∙ h.command_capacity;
  stopping = a.stopping ∙ h.stopping;
  save_path = a.save_path ∙ h.save_path;
}

module _ (K : Backend) where
  open K use {State}

  module _ (R : State → Type 0) (pop : (s : State) → R s → R (K.pop_events s).0)
      (measure : (s : State) → R s → R (K.statistics s).0) (path : Bytes) (cs : List Command)
      (n k : ℕ) (b : Bool) where
    -- A step that sets the backend's state and leaves the queue.
    with_state :
        (s : State) (r : Runtime State)
        → R s
        → Ready R path cs n k b r
        → Ready R path cs n k b (record r { backend = some s })
    with_state s r x h = record {
      state = s;
      reached = x;
      backend = refl;
      commands = h.commands;
      next_request_id = h.next_request_id;
      command_capacity = h.command_capacity;
      stopping = h.stopping;
      save_path = h.save_path;
    }

    publish-Ready :
        (stats : BackendStats) (r : Runtime State)
        → Ready R path cs n k b r
        → Ready R path cs n k b (publish K stats r)
    unfolding publish
    publish-Ready stats r h = record {
      state = h.state;
      reached = h.reached;
      backend = h.backend;
      commands = h.commands;
      next_request_id = h.next_request_id;
      command_capacity = h.command_capacity;
      stopping = h.stopping;
      save_path = h.save_path;
    }

    publish_events-Ready :
        (es : List BackendEvent) (a : Attempt BackendStats) (r : Runtime State)
        → Ready R path cs n k b r
        → Ready R path cs n k b (publish_events K es a r)
    unfolding publish_events
    publish_events-Ready es (returned stats) r h =
        Ready-Keeps R path cs n k b (publish K stats r) _ (publish-Ready stats r h)
          (push_events-Keeps es (publish K stats r))
    publish_events-Ready es (failed m) r h =
        Ready-Keeps R path cs n k b r _ h (report-Keeps _ _ (failed m) r)
    publish_events-Ready es unknown r h =
        Ready-Keeps R path cs n k b r _ h (report-Keeps _ _ unknown r)

    collect_popped-Ready :
        (now : ℕ) (s : State) (a : Attempt (List BackendEvent)) (r : Runtime State)
        → R s
        → Ready R path cs n k b r
        → Ready R path cs n k b (collect_popped K now s a r)
    unfolding collect_popped
    collect_popped-Ready now s (returned es) r x h =
        elim (Bool-cases (is_empty_list es && ltb now r.next_stats_refresh)) [
          | inl idle ↦ rw idle (with_state s r x h)
          | inr busy ↦ rw busy (
              publish_events-Ready es _ _ (
                with_state (K.statistics s).0 (record r { next_stats_refresh = now + 50 })
                  (measure s x)
                  (record {
                    state = h.state;
                    reached = h.reached;
                    backend = h.backend;
                    commands = h.commands;
                    next_request_id = h.next_request_id;
                    command_capacity = h.command_capacity;
                    stopping = h.stopping;
                    save_path = h.save_path;
                  })))
        ]
    collect_popped-Ready now s (failed m) r x h =
        Ready-Keeps R path cs n k b _ _ (with_state s r x h) (report-Keeps _ _ (failed m) _)
    collect_popped-Ready now s unknown r x h =
        Ready-Keeps R path cs n k b _ _ (with_state s r x h) (report-Keeps _ _ unknown _)

    collect_now-Ready :
        (now : ℕ) (r : Runtime State)
        → Ready R path cs n k b r
        → Ready R path cs n k b (collect_now K now r)
    unfolding collect_now collect_backend_events
    collect_now-Ready now r h =
        subst
          (λ o.
            Ready R path cs n k b (elim o [ none ↦ r | some s ↦ collect_backend_events K now s r ]))
          (sym h.backend) (collect_popped-Ready now _ _ r (pop h.state h.reached) h)

  -- The states that calls of `pop_events` and `statistics` lead to from a state.
  abbrev Polled : Bytes → State → State → Type 0
  Polled path s u = (cs : List Command) (t : State) → Course K path cs u t → Course K path cs s t

  process_command-Ready :
      (command : Command) (path : Bytes) (cs : List Command) (n k : ℕ) (b : Bool) (s : State)
      (R : State → Type 0) (r : Runtime State)
      → Ready R path cs n k b r
      → Ready
          (Polled path (dispatch K command path s).0)
          path
          cs
          n
          k
          b
          (process_command K command s r)
  unfolding process_command
  process_command-Ready command path cs n k b s R r h =
      let reached = Polled path (dispatch K command path s).0 in
      Ready-Keeps reached path cs n k b _ _
        (record {
          state = (dispatch K command r.save_path s).0;
          reached = subst (λ p. reached (dispatch K command p s).0) (sym h.save_path) (λ cs t c. c);
          backend = refl;
          commands = h.commands;
          next_request_id = h.next_request_id;
          command_capacity = h.command_capacity;
          stopping = h.stopping;
          save_path = h.save_path;
        })
        (report-Keeps _ _ _ _)

  -- A round takes the first command from the queue, if there is one.
  after_command : Command → List Command → ℕ → State → Runtime State → Runtime State
  after_command command rest now s r =
      collect_now K now
        (process_command K command s (record r { wake_pending = false; commands = rest }))

  run_once_command :
      (command : Command) (rest : List Command) (now : ℕ) (s : State) (r : Runtime State)
      → r.commands ≡ command ∷ rest
      → run_once K now s r ≡ (after_command command rest now s r, true)
  unfolding run_once after_command
  run_once_command command rest now s r e = ground arith

  after_command-Ready :
      (command : Command) (path : Bytes) (cs : List Command) (n k : ℕ) (b : Bool) (now : ℕ)
      (s : State) (R : State → Type 0) (r : Runtime State)
      → Ready R path (command ∷ cs) n k b r
      → Ready
          (Polled path (dispatch K command path s).0)
          path
          cs
          n
          k
          b
          (after_command command cs now s r)
  unfolding after_command
  after_command-Ready command path cs n k b now s R r h =
      let first = (dispatch K command path s).0 in
      collect_now-Ready (Polled path first) (λ u p cs t c. p cs t (pops u c))
        (λ u p cs t c. p cs t (measures u c)) path cs n k b now _
        (process_command-Ready command path cs n k b s R _ (record {
          state = h.state;
          reached = h.reached;
          backend = h.backend;
          commands = refl;
          next_request_id = h.next_request_id;
          command_capacity = h.command_capacity;
          stopping = h.stopping;
          save_path = h.save_path;
        }))

  run_once_idle :
      (now : ℕ) (s : State) (r : Runtime State)
      → r.commands ≡ []
      → r.stopping ≡ true
      → run_once K now s r
        ≡ (record r { wake_pending = false; backend = some (K.shutdown s) }, false)
  unfolding run_once
  run_once_idle now s r e f = ground arith

  run_step :
      (now : ℕ) (times : List ℕ) (s : State) (r : Runtime State)
      → r.backend ≡ some s
      → run K (now ∷ times) r ≡ elim (run_once K now s r).1 [
        | true ↦ run K times (run_once K now s r).0
        | false ↦ ((run_once K now s r).0, true)
      ]
  unfolding run
  run_step now times s r e = ground arith

  run_drains :
      (cs : List Command) (times : List ℕ) (path : Bytes) (n k : ℕ) (R : State → Type 0)
      (r : Runtime State) (h : Ready R path cs n k true r)
      → length cs < length times
      → (s : State) × Course K path cs h.state s
        × ((run K times r).1 ≡ true)
        × ((run K times r).0.commands ≡ [])
        × ((run K times r).0.backend ≡ some (K.shutdown s))
  run_drains cs [] path n k R r h lt = absurd (omega arith)
  run_drains [] (now ∷ times) path n k R r h lt =
      let idle = run_once_idle now h.state r h.commands h.stopping in
      let ran = run_step now times h.state r h.backend in
      (
        h.state,
        ended h.state,
        rw (ran, idle) refl,
        rw (ran, idle) (rw idle h.commands),
        rw (ran, idle) (rw idle refl),
      )
  run_drains (command ∷ cs) (now ∷ times) path n k R r h lt =
      let ran = run_step now times h.state r h.backend in
      let round = run_once_command command cs now h.state r h.commands in
      let first = (dispatch K command path h.state).0 in
      let ready = after_command-Ready command path cs n k true now h.state R r h in
      let (s, course, done, empty, down) =
        run_drains cs times path n k (Polled path first) (after_command command cs now h.state r)
          ready (omega arith) in
      (
        s,
        dispatch-Course K path command cs h.state s (ready.reached cs s course),
        rw (ran, round) (rw round done),
        rw (ran, round) (rw round empty),
        rw (ran, round) (rw round down),
      )

  -- Once the runtime is stopping, the worker handles every queued command, one a round, then shuts
  -- the backend down and ends, the queue empty: a round more than there are commands is enough. The
  -- backend that is shut down has had the call of each command in the order of the queue, with its
  -- request id and arguments, and no other call than `pop_events` and `statistics`.
  pub run-terminates :
      (r : Runtime State) (s : State) (times : List ℕ)
      → r.backend ≡ some s
      → r.stopping ≡ true
      → length r.commands < length times
      → (t : State) × Course K r.save_path r.commands s t
        × ((run K times r).1 ≡ true)
        × ((run K times r).0.commands ≡ [])
        × ((run K times r).0.backend ≡ some (K.shutdown t))
  run-terminates r s times e f lt =
      run_drains r.commands times r.save_path r.next_request_id r.command_capacity (λ u. Unit) r
        (record {
          state = s;
          reached = tt;
          backend = e;
          commands = refl;
          next_request_id = refl;
          command_capacity = refl;
          stopping = f;
          save_path = refl;
        })
        lt
