-- ===== src/Text/Laws.antt =====
-- Laws of the text operations on texts whose bytes satisfy a condition.
use nuvio_engine.Common.{
  ℕ, ◌≡◌, refl, true, false, [], ◌∷◌, ◌++◌, none, some, arith, Bytes, All, All-imply, ◌==◌, length,
  ◌<◌,
}
use nuvio_engine.Text.{
  is_blank, trim_front, trim_back, trim, find_byte, split_at_byte, strip_prefix, is_empty,
}
use nuvio_engine.Text.Decimal.{is_digit, AreDigits}

-- No byte is a space or a tab.
abbrev pub Unblanked : Bytes → Type 0
Unblanked = All (λ c. is_blank c ≡ false)

-- No byte is `b`.
abbrev pub Without : ℕ → Bytes → Type 0
Without b = All (λ c. (c == b) ≡ false)

trim_front-Unblanked : (cs : Bytes) → Unblanked cs → trim_front cs ≡ cs
unfolding trim_front
trim_front-Unblanked [] h = refl
trim_front-Unblanked (c ∷ cs) h = ground arith

trim_back-Unblanked : (cs : Bytes) → Unblanked cs → trim_back cs ≡ cs
unfolding trim_back
trim_back-Unblanked [] h = refl
trim_back-Unblanked (c ∷ []) h = ground arith
trim_back-Unblanked (c ∷ d ∷ cs) h = ground (arith, trim_back-Unblanked (d ∷ cs) h.1)

pub trim-Unblanked : (cs : Bytes) → Unblanked cs → trim cs ≡ cs
unfolding trim
trim-Unblanked cs h = rw (trim_front-Unblanked cs h) (trim_back-Unblanked cs h)

pub find_byte-Without : (b : ℕ) (cs : Bytes) → Without b cs → find_byte b cs ≡ none
unfolding find_byte
find_byte-Without b [] h = refl
find_byte-Without b (c ∷ cs) h = ground (arith, find_byte-Without b cs h.1)

pub split_at_byte-append :
    (b : ℕ) (xs ys : Bytes) → Without b xs → split_at_byte b (xs ++ b ∷ ys) ≡ some (xs, ys)
unfolding split_at_byte
split_at_byte-append b [] ys h = ground arith
split_at_byte-append b (x ∷ xs) ys h = ground (arith, split_at_byte-append b xs ys h.1)

pub strip_prefix-append : (ps cs : Bytes) → strip_prefix ps (ps ++ cs) ≡ some cs
unfolding strip_prefix
strip_prefix-append [] cs = refl
strip_prefix-append (p ∷ ps) cs = ground (arith, strip_prefix-append ps cs)

pub is_empty-length : (cs : Bytes) → 0 < length cs → is_empty cs ≡ false
unfolding is_empty
is_empty-length [] h = absurd (omega arith)
is_empty-length (c ∷ cs) h = refl

digit_unblanked : (c : ℕ) → is_digit c ≡ true → is_blank c ≡ false
unfolding is_digit is_blank
digit_unblanked c h = ground arith

pub AreDigits-Unblanked : (cs : Bytes) → AreDigits cs → Unblanked cs
AreDigits-Unblanked = All-imply digit_unblanked

digit_ne : (b c : ℕ) → is_digit b ≡ false → is_digit c ≡ true → (c == b) ≡ false
unfolding is_digit
digit_ne b c k h = ground arith

pub AreDigits-Without : (b : ℕ) (cs : Bytes) → is_digit b ≡ false → AreDigits cs → Without b cs
AreDigits-Without b cs k = All-imply (λ c. digit_ne b c k) cs
