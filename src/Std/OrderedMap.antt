-- ===== src/Std/OrderedMap.antt =====
-- `std::map` with unsigned keys, as the list of its entries in the order of iteration.
use nuvio_engine.Common.{
  ℕ, ◌<◌, ◌≡◌, refl, ◌↔◌, List, [], ◌∷◌, Option, none, some, arith, ltb, ◌==◌, if◌then◌else◌, All,
  Bool-cases, inl, inr, In, ap, All-In,
}

module _ {ℓ} {V : Type ℓ} where
  unfoldable pub find : ℕ → List (ℕ × V) → Option V
  find k [] = none
  find k ((j, v) ∷ m) = if j == k then some v else find k m

  -- `m[k] = v`.
  unfoldable pub assign : ℕ → V → List (ℕ × V) → List (ℕ × V)
  assign k v [] = (k, v) ∷ []
  assign k v ((j, w) ∷ m) =
      if ltb k j then (k, v) ∷ (j, w) ∷ m else if k == j then (k, v) ∷ m else (j, w) ∷ assign k v m

  pub find-assign :
      (k j : ℕ) (v : V) (m : List (ℕ × V))
      → find j (assign k v m) ≡ (if k == j then some v else find j m)
  unfolding find assign
  find-assign k j v [] = refl
  find-assign k j v ((i, w) ∷ m) = ground (arith, find-assign k j v m)

  abbrev pub KeysAbove : ℕ → List (ℕ × V) → Type 0
  KeysAbove k = All (λ e. k < e.0)

  -- The keys ascend.
  abbrev pub Ascending : List (ℕ × V) → Type 0
  Ascending [] = Unit
  Ascending ((k, v) ∷ m) = KeysAbove k m × Ascending m

  KeysAbove-mono : (a b : ℕ) (m : List (ℕ × V)) → a < b → KeysAbove b m → KeysAbove a m
  KeysAbove-mono a b [] lt h = tt
  KeysAbove-mono a b (e ∷ m) lt h = (omega arith, KeysAbove-mono a b m lt h.1)

  KeysAbove-assign :
      (a k : ℕ) (v : V) (m : List (ℕ × V)) → a < k → KeysAbove a m → KeysAbove a (assign k v m)
  unfolding assign
  KeysAbove-assign a k v [] lt h = (lt, tt)
  KeysAbove-assign a k v ((j, w) ∷ m) lt h = ground (arith, KeysAbove-assign a k v m lt h.1)

  pub assign-Ascending : (k : ℕ) (v : V) (m : List (ℕ × V)) → Ascending m → Ascending (assign k v m)
  unfolding assign
  assign-Ascending k v [] h = (tt, tt)
  assign-Ascending k v ((j, w) ∷ m) h =
      ground (arith, KeysAbove-mono k j m, KeysAbove-assign j k v m, assign-Ascending k v m h.1)

  pub find-KeysAbove : (k : ℕ) (v : V) (m : List (ℕ × V)) → KeysAbove k m → find k m ≡ none
  unfolding find
  find-KeysAbove k v [] h = refl
  find-KeysAbove k v ((j, w) ∷ m) h = ground (arith, find-KeysAbove k v m h.1)

module _ {V : Type 0} where
  find_of_In : (k : ℕ) (v : V) (m : List (ℕ × V)) → Ascending m → In (k, v) m → find k m ≡ some v
  unfolding find
  find_of_In k v [] h i = absurd i
  find_of_In k v ((j, w) ∷ m) h (inl e) = ground (arith, ap (λ p. p.0) e, ap (λ p. p.1) e)
  find_of_In k v ((j, w) ∷ m) h (inr i) =
      let above : j < k = All-In (λ e. j < e.0) (k, v) m h.0 i in
      ground (arith, find_of_In k v m h.1 i)

  In-of_find : (k : ℕ) (v : V) (m : List (ℕ × V)) → find k m ≡ some v → In (k, v) m
  unfolding find
  In-of_find k v [] e = cc
  In-of_find k v ((j, w) ∷ m) e = elim (Bool-cases (j == k)) [
    | inl hit ↦ inl (ground arith)
    | inr miss ↦ inr (In-of_find k v m (ground arith))
  ]

  -- The entries are what a lookup finds.
  pub In-find : (k : ℕ) (v : V) (m : List (ℕ × V)) → Ascending m → In (k, v) m ↔ (find k m ≡ some v)
  In-find k v m h = (find_of_In k v m h, In-of_find k v m)
