-- ===== src/Core/Runtime/Queue.antt =====
-- The command queue of src/core/engine_runtime.cpp: its bound, its request ids, and what a request does to it.
use nuvio_engine.Common.{
  ℕ, ◌+◌, ◌<◌, ◌≤◌, ◌≡◌, refl, true, false, List, [], ◌∷◌, ◌++◌, ◌≢◌, ◌⊎◌, none, arith, All,
  All-append, u64_max, length, length-append, subst,
}
use nuvio_engine.Core.Runtime.Types.{Status, Request, Command}
use nuvio_engine.Core.Runtime.{Runtime, answer, accept, enqueue}

-- The ids ascend and are below the next one.
abbrev pub Numbered : ℕ → List Command → Type 0
Numbered next [] = Unit
Numbered next (c ∷ cs) =
    (c.request_id < next) × All (λ d. c.request_id < d.request_id) cs × Numbered next cs

pub record IsQueued {B : Type 0} (r : Runtime B) : Type 0 where
  pub bounded : length r.commands ≤ r.command_capacity
  pub numbered : Numbered r.next_request_id r.commands

Numbered-below : (n : ℕ) (cs : List Command) → Numbered n cs → All (λ d. d.request_id < n) cs
Numbered-below n [] h = tt
Numbered-below n (c ∷ cs) h = (h.0, Numbered-below n cs h.2)

Numbered-append :
    (n : ℕ) (cs : List Command) (c : Command)
    → Numbered n cs
    → c.request_id ≡ n
    → Numbered (n + 1) (cs ++ c ∷ [])
Numbered-append n [] c h e = (omega arith, tt, tt)
Numbered-append n (d ∷ cs) c h e = (
  omega (arith, h.0),
  All-append _ cs (c ∷ []) h.1 (omega (arith, h.0), tt),
  Numbered-append n cs c h.2 e,
)

module _ {B : Type 0} (request : Request) (r : Runtime B) where
  accept-IsQueued :
      r.next_request_id < u64_max
      → length r.commands < r.command_capacity
      → IsQueued r
      → IsQueued (accept request r)
  unfolding accept
  accept-IsQueued words room h = record {
    bounded = omega (
      arith,
      length-append r.commands (record { request_id = r.next_request_id; request = request } ∷ []),
    );
    numbered =
        subst
          (λ n.
            Numbered n
              (r.commands ++ record { request_id = r.next_request_id; request = request } ∷ []))
          (omega arith) (Numbered-append r.next_request_id r.commands _ h.numbered refl);
  }

  -- While request ids are left, a request keeps the queue in its bound and its ids ascending.
  pub enqueue-IsQueued : r.next_request_id < u64_max → IsQueued r → IsQueued (enqueue request r).0
  unfolding enqueue
  enqueue-IsQueued words h = ground (arith, accept-IsQueued words)

  -- Either there is a backend, the runtime is not stopping and the queue has room: then the caller
  -- gets the next id, and the command stands last in the queue under it. Or one of these fails,
  -- the status says so, and nothing changes.
  pub enqueue_accepts :
      ((r.backend ≢ none)
        × (r.stopping ≡ false)
        × (length r.commands < r.command_capacity)
        × ((enqueue request r).1 ≡ answer r.next_request_id)
        × ((enqueue request r).0.commands
            ≡ r.commands ++ record { request_id = r.next_request_id; request = request } ∷ []))
      ⊎ (((r.backend ≡ none) ⊎ ((r.stopping ≡ true) ⊎ (r.command_capacity ≤ length r.commands)))
          × ((enqueue request r).0 ≡ r)
          × ((enqueue request r).1.status ≢ Status.ok))
  unfolding enqueue accept
  enqueue_accepts = ground arith
