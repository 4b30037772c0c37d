-- ===== src/Std/Shared.antt =====
-- Objects behind a `std::shared_ptr`: a pointer is a number, the objects a function on the numbers.
use nuvio_engine.Common.{ℕ, ◌≡◌, ◌≢◌, arith, ◌==◌, if◌then◌else◌}

module _ {ℓ} {A : Type ℓ} where
  -- A call of a method that changes one object.
  unfoldable pub modify : ℕ → (A → A) → (ℕ → A) → ℕ → A
  modify pointer f objects other = if other == pointer then f (objects other) else objects other

  pub modify_same :
      (pointer : ℕ) (f : A → A) (objects : ℕ → A)
      → modify pointer f objects pointer ≡ f (objects pointer)
  unfolding modify
  modify_same pointer f objects = ground arith

  pub modify_other :
      (pointer other : ℕ) (f : A → A) (objects : ℕ → A)
      → other ≢ pointer
      → modify pointer f objects other ≡ objects other
  unfolding modify
  modify_other pointer other f objects h = ground arith
