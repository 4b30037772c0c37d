-- ===== src/Text/Decimal.antt =====
-- `std::from_chars` and `std::to_string` on `std::uint64_t`, as the parsers and the response
-- builder use them, and `parse_unsigned` of http/byte_range.cpp.
use native.Mathlib.Nat.{pow-suc}
use nuvio_engine.Common.{
  ℕ, zero, suc, ◌+◌, ◌-◌, ◌*◌, ◌/◌, ◌%◌, ◌^◌, ◌<◌, ◌≤◌, ◌≡◌, refl, ◌∙◌, Bool, true, false, ◌&&◌, [],
  length, ◌∷◌, Option, none, some, arith, Bytes, ltb, leb, if◌then◌else◌, u64_max, All, inl, inr,
  Bool-cases,
}
use nuvio_engine.Text.{is_empty}

unfoldable pub is_digit : ℕ → Bool
is_digit c = leb b'0' c && leb c b'9'

-- The value of the longest run of digits, most significant first, and the text behind it.
unfoldable pub scan_digits : ℕ → Bytes → ℕ × Bytes
scan_digits acc [] = (acc, [])
scan_digits acc (c ∷ cs) = elim (is_digit c) [
  | true ↦ scan_digits (acc * 10 + (c - b'0')) cs
  | false ↦ (acc, c ∷ cs)
]

pub data Errc : Type 0 where
  success invalid_argument result_out_of_range : Errc

-- `ptr` is the text from the returned pointer to the end.
pub record FromChars : Type 0 where
  pub ec : Errc
  pub ptr : Bytes
  pub parsed : ℕ

in_range : ℕ × Bytes → FromChars
in_range (value, rest) =
    if leb value u64_max
    then record { ec = success; ptr = rest; parsed = value }
    else record { ec = result_out_of_range; ptr = rest; parsed = 0 }

unfoldable pub from_chars : Bytes → FromChars
unfolding in_range is_digit
from_chars [] = record { ec = invalid_argument; ptr = []; parsed = 0 }
from_chars (c ∷ cs) =
    if is_digit c
    then in_range (scan_digits 0 (c ∷ cs))
    else record { ec = invalid_argument; ptr = c ∷ cs; parsed = 0 }

-- `result.ec != std::errc{} || result.ptr != end`.
whole : FromChars → Option ℕ
whole r = elim r.ec [
  | success ↦ if is_empty r.ptr then some r.parsed else none
  | invalid_argument ↦ none
  | result_out_of_range ↦ none
]

unfoldable pub parse_unsigned : Bytes → Option ℕ
unfolding whole from_chars is_empty
parse_unsigned value = if is_empty value then none else whole (from_chars value)

-- The digits of a number below 10 ^ fuel, before the text `acc`.
digits : ℕ → ℕ → Bytes → Bytes
digits zero n acc = acc
digits (suc fuel) n acc =
    let more = digits fuel (n / 10) ((b'0' + n % 10) ∷ acc) in
    if ltb n 10 then (b'0' + n) ∷ acc else more

-- A `std::uint64_t` has at most twenty digits.
unfoldable pub to_string : ℕ → Bytes
unfolding digits
to_string n = digits 20 n []

is_digit-digit : (d : ℕ) → d < 10 → is_digit (b'0' + d) ≡ true
unfolding is_digit
is_digit-digit d h = ground arith

scan_digit :
    (acc d m : ℕ) (cs : Bytes)
    → d < 10
    → m ≡ acc * 10 + d
    → scan_digits acc ((b'0' + d) ∷ cs) ≡ scan_digits m cs
unfolding scan_digits
scan_digit acc d m cs h e =
    let same : acc * 10 + ((b'0' + d) - b'0') ≡ m = omega arith in
    rw (is_digit-digit d h, scan_digits) (rw same refl)

scan_digits-digits :
    (fuel n : ℕ) (acc : Bytes)
    → n < 10 ^ fuel
    → scan_digits 0 (digits fuel n acc) ≡ scan_digits n acc
unfolding digits
scan_digits-digits zero n acc h = let e : n ≡ 0 = omega (arith, h) in rw e refl
scan_digits-digits (suc fuel) n acc h =
    let bound : n < 10 ^ fuel * 10 = rw (← pow-suc 10 fuel) h in
    elim (Bool-cases (ltb n 10)) [
      | inl small ↦ rw small (scan_digit 0 n n acc (ground arith) (omega arith))
      | inr large ↦ rw large (
          scan_digits-digits fuel (n / 10) ((b'0' + n % 10) ∷ acc) (omega arith)
          ∙ scan_digit (n / 10) (n % 10) n acc (omega arith) (omega arith))
    ]

-- Every byte is a digit.
abbrev pub AreDigits : Bytes → Type 0
AreDigits = All (λ c. is_digit c ≡ true)

digits-AreDigits : (fuel n : ℕ) (acc : Bytes) → AreDigits acc → AreDigits (digits fuel n acc)
unfolding digits
digits-AreDigits zero n acc h = h
digits-AreDigits (suc fuel) n acc h = elim (Bool-cases (ltb n 10)) [
  | inl small ↦ rw small (is_digit-digit n (ground arith), h)
  | inr large ↦
      rw large (digits-AreDigits fuel (n / 10) _ (is_digit-digit (n % 10) (omega arith), h))
]

pub to_string-AreDigits : (n : ℕ) → AreDigits (to_string n)
unfolding to_string
to_string-AreDigits n = digits-AreDigits 20 n [] tt

digits_grow : (fuel n : ℕ) (acc : Bytes) → length acc ≤ length (digits fuel n acc)
unfolding digits
digits_grow zero n acc = omega arith
digits_grow (suc fuel) n acc = ground (arith, digits_grow fuel (n / 10) ((b'0' + n % 10) ∷ acc))

pub to_string_nonempty : (n : ℕ) → 0 < length (to_string n)
unfolding to_string
to_string_nonempty n = ground (arith, digits_grow 19 (n / 10) ((b'0' + n % 10) ∷ []))

parse_unsigned-scan :
    (cs : Bytes) (n : ℕ)
    → 0 < length cs
    → AreDigits cs
    → scan_digits 0 cs ≡ (n, [])
    → n ≤ u64_max
    → parse_unsigned cs ≡ some n
unfolding parse_unsigned
parse_unsigned-scan [] n l h s b = absurd (omega arith)
parse_unsigned-scan (c ∷ ds) n l h s b = ground arith

-- Parsing what `std::to_string` printed gives the number back.
pub parse_unsigned-to_string : (n : ℕ) → n ≤ u64_max → parse_unsigned (to_string n) ≡ some n
unfolding scan_digits
parse_unsigned-to_string n b =
    parse_unsigned-scan (to_string n) n (to_string_nonempty n) (to_string-AreDigits n)
      (unfold to_string in scan_digits-digits 20 n [] (omega arith)) b

-- A number that parses is a `std::uint64_t`.
pub parse_unsigned_bound : (cs : Bytes) (n : ℕ) → parse_unsigned cs ≡ some n → n ≤ u64_max
unfolding parse_unsigned
parse_unsigned_bound [] n h = cc
parse_unsigned_bound (c ∷ cs) n h = ground arith
