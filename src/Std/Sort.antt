-- ===== src/Std/Sort.antt =====
-- `std::ranges::stable_sort` and `std::ranges::sort` by a strict comparison, as insertion from the
-- back. (`sort` may order equivalent elements as it likes; the code sorts by keys that differ.)
use nuvio_engine.Common.{
  suc, ◌≡◌, refl, ◌↔◌, Bool, List, [], ◌∷◌, arith, if◌then◌else◌, All, In, Bool-cases, inl, inr,
  length,
}

module _ {ℓ} {A : Type ℓ} (less : A → A → Bool) where
  unfoldable pub insert : A → List A → List A
  insert x [] = x ∷ []
  insert x (y ∷ ys) = if less y x then y ∷ insert x ys else x ∷ y ∷ ys

  unfoldable pub stable_sort : List A → List A
  unfolding insert
  stable_sort [] = []
  stable_sort (x ∷ xs) = insert x (stable_sort xs)

  pub All-insert {κ} : (P : A → Type κ) (x : A) (ys : List A) → P x → All P ys → All P (insert x ys)
  unfolding insert
  All-insert P x [] hx h = (hx, tt)
  All-insert P x (y ∷ ys) hx h = elim (Bool-cases (less y x)) [
    | inl e ↦ rw e (h.0, All-insert P x ys hx h.1)
    | inr e ↦ rw e (hx, h)
  ]

  pub All-stable_sort {κ} : (P : A → Type κ) (xs : List A) → All P xs → All P (stable_sort xs)
  unfolding stable_sort
  All-stable_sort P [] h = tt
  All-stable_sort P (x ∷ xs) h = All-insert P x (stable_sort xs) h.0 (All-stable_sort P xs h.1)

  pub length-insert : (x : A) (ys : List A) → length (insert x ys) ≡ suc (length ys)
  unfolding insert
  length-insert x [] = refl
  length-insert x (y ∷ ys) = ground (arith, length-insert x ys)

  pub length-stable_sort : (xs : List A) → length (stable_sort xs) ≡ length xs
  unfolding stable_sort
  length-stable_sort [] = refl
  length-stable_sort (x ∷ xs) =
      ground (arith, length-insert x (stable_sort xs), length-stable_sort xs)

module _ {A : Type 0} (less : A → A → Bool) where
  In-insert : (a x : A) (ys : List A) → In a (insert less x ys) ↔ In a (x ∷ ys)
  unfolding insert
  In-insert a x [] = (λ h. h, λ h. h)
  In-insert a x (y ∷ ys) = elim (Bool-cases (less y x)) [
    | inl e ↦ rw e (ground (arith, In-insert a x ys))
    | inr e ↦ rw e (λ h. h, λ h. h)
  ]

  -- Sorting keeps the elements.
  pub In-stable_sort : (a : A) (xs : List A) → In a (stable_sort less xs) ↔ In a xs
  unfolding stable_sort
  In-stable_sort a [] = (λ h. h, λ h. h)
  In-stable_sort a (x ∷ xs) =
      ground (arith, In-insert a x (stable_sort less xs), In-stable_sort a xs)
