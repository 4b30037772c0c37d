-- ===== src/Std/UnorderedMap.antt =====
-- `std::unordered_map` as an association list without an order that the code relies on.
use nuvio_engine.Common.{
  ◌≡◌, refl, List, [], ◌∷◌, Option, none, some, arith, Eq, ap, ◌∙◌, Bool-cases, inl, inr, Bool,
  true, false, ◌||◌, if◌then◌else◌,
}

module _ {ℓ} {V : Type ℓ} {K : Type 0} ⦃e : Eq K⦄ where
  unfoldable pub lookup : K → List (K × V) → Option V
  lookup k [] = none
  lookup k ((j, v) ∷ m) = if e.beq j k then some v else lookup k m

  unfoldable pub insert_or_assign : K → V → List (K × V) → List (K × V)
  insert_or_assign k v [] = (k, v) ∷ []
  insert_or_assign k v ((j, w) ∷ m) =
      if e.beq j k then (k, v) ∷ m else (j, w) ∷ insert_or_assign k v m

  -- `contains(key)`.
  unfoldable pub has_key : K → List (K × V) → Bool
  unfolding lookup
  has_key k m = elim (lookup k m) [ none ↦ false | some v ↦ true ]

  unfoldable pub try_emplace : K → V → List (K × V) → List (K × V)
  unfolding has_key insert_or_assign
  try_emplace k v m = if has_key k m then m else insert_or_assign k v m

  -- `erase(key)`.
  unfoldable pub erase : K → List (K × V) → List (K × V)
  erase k [] = []
  erase k ((j, w) ∷ m) = if e.beq j k then erase k m else (j, w) ∷ erase k m

  pub lookup-insert_or_assign :
      (k j : K) (v : V) (m : List (K × V))
      → lookup j (insert_or_assign k v m) ≡ (if e.beq k j then some v else lookup j m)
  unfolding lookup insert_or_assign
  lookup-insert_or_assign k j v [] = refl
  lookup-insert_or_assign k j v ((i, w) ∷ m) =
      ground (arith, e.beq_iff k j, e.beq_iff i k, e.beq_iff i j, lookup-insert_or_assign k j v m)

  pub lookup-erase :
      (k j : K) (m : List (K × V)) → lookup j (erase k m) ≡ (if e.beq k j then none else lookup j m)
  unfolding lookup erase
  lookup-erase k j [] = ground arith
  lookup-erase k j ((i, w) ∷ m) =
      ground (arith, e.beq_iff k j, e.beq_iff i k, e.beq_iff i j, lookup-erase k j m)

module _ {ℓ} {A : Type ℓ} where
  -- `std::erase_if`.
  unfoldable pub erase_if : (A → Bool) → List A → List A
  erase_if p [] = []
  erase_if p (x ∷ xs) = if p x then erase_if p xs else x ∷ erase_if p xs

module _ {ℓ} {V : Type ℓ} {K : Type 0} ⦃e : Eq K⦄ where
  -- A key that the test does not take is found as before.
  pub lookup-erase_if :
      (p : K → Bool) (k : K) (m : List (K × V))
      → p k ≡ false
      → lookup k (erase_if (λ entry. p entry.0) m) ≡ lookup k m
  unfolding lookup erase_if
  lookup-erase_if p k [] n = refl
  lookup-erase_if p k ((j, v) ∷ m) n = elim (Bool-cases (e.beq j k)) [
    | inl hit ↦
        let same : j ≡ k = (e.beq_iff j k).0 hit in
        let stays : p j ≡ false = ap p same ∙ n in ground (arith, stays, hit)
    | inr miss ↦ ground (arith, miss, lookup-erase_if p k m n)
  ]

-- `insert(key)` of a set.
module _ {ℓ} {K : Type ℓ} ⦃e : Eq K⦄ where
  unfoldable pub member : K → List K → Bool
  member k [] = false
  member k (j ∷ m) = e.beq j k || member k m

  unfoldable pub insert : K → List K → List K
  unfolding member
  insert k m = if member k m then m else k ∷ m
