-- ===== src/Cache/DiskCache/Evictions.antt =====
-- src/cache/disk_cache_manager.cpp: the loop of `enforce` over the candidates.
use nuvio_engine.Common.{
  ℕ, zero, suc, ◌+◌, ◌-◌, ◌≤◌, ◌<◌, ◌≡◌, ◌∙◌, ap, refl, sym, ◌⊎◌, inl, inr, Bool, true, false, List,
  [], ◌∷◌, ◌++◌, append_assoc, append-nil, map, Option, none, some, In, Bytes, arith, leb,
}
use nuvio_engine.Std.Results.{Exception, Result, ok, throws}
use nuvio_engine.Cache.DiskCache.{Candidate}
use nuvio_engine.Cache.DiskCache.Enforce.{Eviction, try_candidate, take_out, evict}

-- The bytes that a removal frees: none when it fails or finds nothing.
unfoldable pub freed_by : Result ℕ → ℕ → ℕ
freed_by (throws e) size = 0
freed_by (ok zero) size = 0
freed_by (ok (suc n)) size = size

unfoldable pub freed : List Candidate → ℕ
unfolding freed_by
freed [] = 0
freed (candidate ∷ rest) = freed_by candidate.removal candidate.size + freed rest

abbrev pub ids : List Candidate → List Bytes
ids candidates = map (λ c. c.torrent_id) candidates

-- The exception is that of one of the removals.
abbrev pub Failed : List Candidate → Option Exception → Type 0
Failed tried error =
    (c : Candidate) × (x : Exception) × In c tried × (c.removal ≡ throws x) × (error ≡ some x)

-- The loop took the candidates of `tried` and left those of `rest`: it frees what the removals of
-- the first free, and unless one failed it ends within the target or without candidates.
pub record Evicts (target : ℕ) (candidates : List Candidate) (before after : Eviction)
    : Type 0 where
  pub tried : List Candidate
  pub rest : List Candidate
  pub split : candidates ≡ tried ++ rest
  pub trace : after.tried ≡ before.tried ++ ids tried
  pub freed_bytes : after.used ≡ before.used - freed tried
  pub frugal : before.used ≤ target → tried ≡ []
  pub enough : after.error ≡ none → (after.used ≤ target) ⊎ (rest ≡ [])
  pub capacity : after.manager.stats.capacity_bytes ≡ before.manager.stats.capacity_bytes
  pub error : (after.error ≡ before.error) ⊎ Failed tried after.error

evict-stop :
    (target : ℕ) (candidates : List Candidate) (e : Eviction)
    → (e.used ≤ target) ⊎ (candidates ≡ [])
    → Evicts target candidates e e
unfolding freed
evict-stop target candidates e h = record {
  tried = [];
  rest = candidates;
  split = refl;
  trace = sym (append-nil e.tried);
  freed_bytes = omega arith;
  frugal = λ within. refl;
  enough = λ fine. h;
  capacity = refl;
  error = inl refl;
}

evict-next :
    (target : ℕ) (candidate : Candidate) (rest : List Candidate) (e next after : Eviction)
    → target < e.used
    → next.tried ≡ e.tried ++ candidate.torrent_id ∷ []
    → next.used ≡ e.used - freed_by candidate.removal candidate.size
    → next.manager.stats.capacity_bytes ≡ e.manager.stats.capacity_bytes
    → next.error ≡ e.error
    → Evicts target rest next after
    → Evicts target (candidate ∷ rest) e after
unfolding freed
evict-next target candidate rest e next after over t u c f h = record {
  tried = candidate ∷ h.tried;
  rest = h.rest;
  split = ap (λ (list : List Candidate). candidate ∷ list) h.split;
  trace =
      h.trace
      ∙ ap (λ (list : List Bytes). list ++ ids h.tried) t
      ∙ append_assoc e.tried (candidate.torrent_id ∷ []) (ids h.tried);
  freed_bytes = omega (arith, h.freed_bytes, u);
  frugal = λ within. ground arith;
  enough = h.enough;
  capacity = h.capacity ∙ c;
  error = elim h.error [
    | inl same ↦ inl (same ∙ f)
    | inr failed ↦ let (d, x, i, r, thrown) = failed in inr (d, x, inr i, r, thrown)
  ];
}

take_out-used :
    (candidate : Candidate) (e : Eviction) → (take_out candidate e).used ≡ e.used - candidate.size
unfolding take_out
take_out-used candidate e = ground arith

-- What the loop does to a candidate, by the result of its removal.
evict_removal-Evicts :
    (target : ℕ) (candidate : Candidate) (rest : List Candidate) (e : Eviction) (removal : Result ℕ)
    → candidate.removal ≡ removal
    → target < e.used
    → ((next : Eviction) → Evicts target rest next (evict target rest next))
    → Evicts target (candidate ∷ rest) e (elim removal [
      | throws x ↦ record (try_candidate candidate e) { error = some x }
      | ok zero ↦ evict target rest (try_candidate candidate e)
      | ok (suc n) ↦ evict target rest (take_out candidate (try_candidate candidate e))
    ])
unfolding try_candidate freed_by take_out freed
evict_removal-Evicts target candidate rest e (throws x) r over h = record {
  tried = candidate ∷ [];
  rest = rest;
  split = refl;
  trace = refl;
  freed_bytes = rw r (omega arith);
  frugal = λ within. ground arith;
  enough = λ fine. cc;
  capacity = refl;
  error = inr (candidate, x, inl refl, r, refl);
}
evict_removal-Evicts target candidate rest e (ok zero) r over h =
    evict-next target candidate rest e (try_candidate candidate e)
      (evict target rest (try_candidate candidate e)) over refl (rw r (omega arith)) refl refl
      (h (try_candidate candidate e))
evict_removal-Evicts target candidate rest e (ok (suc n)) r over h =
    let next = take_out candidate (try_candidate candidate e) in
    evict-next target candidate rest e next (evict target rest next) over refl
      (take_out-used candidate (try_candidate candidate e)
        ∙ ap (λ (removal : Result ℕ). e.used - freed_by removal candidate.size) (sym r))
      refl refl (h next)

evict_within-Evicts :
    (target : ℕ) (candidate : Candidate) (rest : List Candidate) (e : Eviction) (within : Bool)
    → leb e.used target ≡ within
    → ((next : Eviction) → Evicts target rest next (evict target rest next))
    → Evicts target (candidate ∷ rest) e (elim within [
      | true ↦ e
      | false ↦ elim candidate.removal [
        | throws x ↦ record (try_candidate candidate e) { error = some x }
        | ok zero ↦ evict target rest (try_candidate candidate e)
        | ok (suc n) ↦ evict target rest (take_out candidate (try_candidate candidate e))
      ]
    ])
evict_within-Evicts target candidate rest e true w h =
    evict-stop target (candidate ∷ rest) e (inl (ground arith))
evict_within-Evicts target candidate rest e false w h =
    evict_removal-Evicts target candidate rest e candidate.removal refl (ground arith) h

pub evict-Evicts :
    (target : ℕ) (candidates : List Candidate) (e : Eviction)
    → Evicts target candidates e (evict target candidates e)
unfolding evict
evict-Evicts target [] e = evict-stop target [] e (inr refl)
evict-Evicts target (candidate ∷ rest) e =
    evict_within-Evicts target candidate rest e (leb e.used target) refl
      (λ next. evict-Evicts target rest next)
