-- ===== src/Std/Results.antt =====
-- A call that returns a value or leaves by an exception.
use nuvio_engine.Common.{ℕ}

pub data Exception : Type 0 where
  invalid_argument overflow_error runtime_error : Exception
  system_error : ℕ → Exception

pub data Result {ℓ} (A : Type ℓ) : Type ℓ where
  ok : A → Result A
  throws : Exception → Result A

infixl 5 ◌>>=◌
abbrev pub ◌>>=◌ {ℓ κ} : {A : Type ℓ} {B : Type κ} → Result A → (A → Result B) → Result B
ok a >>= f = f a
throws e >>= f = throws e
