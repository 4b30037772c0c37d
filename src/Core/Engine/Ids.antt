-- ===== src/Core/Engine/Ids.antt =====
-- src/core/engine.cpp: the ids of torrents and streams that the interface admits.
use nuvio_engine.Common.{
  ℕ, ◌+◌, ◌≤◌, ◌≡◌, ◌⊎◌, ◌↔◌, refl, ap, Bool, true, false, ◌&&◌, not, [], ◌∷◌, Option, none, some,
  Bytes, all_of, arith, length, length-take, take, ◌==◌, if◌then◌else◌,
}
use nuvio_engine.Text.{to_lower, is_xdigit}
use nuvio_engine.Cache.DiskCache.{canonical_torrent_id}
use mathlib.Core.Option as O
use nuvio_engine.Core.Engine.{
  count_text, bounded_string_length, normalize_digits, normalize_torrent_id, normalize_stream_id,
}

-- A digit of a canonical id.
unfoldable pub is_digit : ℕ → Bool
unfolding is_xdigit to_lower
is_digit c = is_xdigit c && (c == to_lower c)

lowered_digit : (c : ℕ) → is_xdigit c ≡ true → is_digit (to_lower c) ≡ true
unfolding is_digit is_xdigit to_lower
lowered_digit c h = ground arith

-- Digits in lower case, as many as in front of the normalization.
unfoldable IsLowered : Bytes → Option Bytes → Type 0
IsLowered cs none = Unit
IsLowered cs (some id) = (all_of is_digit id ≡ true) × (length id ≡ length cs)

IsLowered-cons :
    (c : ℕ) (cs : Bytes) (digit : Bool) (rest : Option Bytes)
    → is_xdigit c ≡ digit
    → IsLowered cs rest
    → IsLowered (c ∷ cs) (if digit then O.map (λ (rest : Bytes). to_lower c ∷ rest) rest else none)
unfolding IsLowered
IsLowered-cons c cs false rest x h = tt
IsLowered-cons c cs true none x h = tt
IsLowered-cons c cs true (some id) x h = ground (arith, lowered_digit c, h)

normalize_digits-IsLowered : (cs : Bytes) → IsLowered cs (normalize_digits cs)
unfolding normalize_digits IsLowered
normalize_digits-IsLowered [] = (refl, refl)
normalize_digits-IsLowered (c ∷ cs) =
    IsLowered-cons c cs (is_xdigit c) (normalize_digits cs) refl (normalize_digits-IsLowered cs)

digits_normalize : (cs : Bytes) → all_of is_digit cs ≡ true → normalize_digits cs ≡ some cs
unfolding normalize_digits is_digit
digits_normalize [] h = refl
digits_normalize (c ∷ cs) h = ground (arith, digits_normalize cs)

pub count_le : (cs : Bytes) (maximum n : ℕ) → count_text cs maximum n ≤ n + length cs
unfolding count_text
count_le [] maximum n = ground arith
count_le (c ∷ cs) maximum n = ground (arith, count_le cs maximum (n + 1))

count_digits :
    (cs : Bytes) (maximum n : ℕ)
    → all_of is_digit cs ≡ true
    → n + length cs ≤ maximum
    → count_text cs maximum n ≡ n + length cs
unfolding count_text is_digit is_xdigit
count_digits [] maximum n h m = ground arith
count_digits (c ∷ cs) maximum n h m = ground (arith, count_digits cs maximum (n + 1))

-- Hexadecimal digits in lower case, 40 or 64 of them.
pub record IsId (id : Bytes) : Type 0 where
  pub digits : all_of is_digit id ≡ true
  pub size : (length id ≡ 40) ⊎ (length id ≡ 64)

-- The disk cache takes the same texts for ids.
pub canonical_torrent_id-IsId : (id : Bytes) → (canonical_torrent_id id ≡ true) ↔ IsId id
unfolding canonical_torrent_id is_digit
canonical_torrent_id-IsId id = (
  λ h. record { digits = ground arith; size = ground arith },
  λ h. ground (arith, h.digits, h.size),
)

take_all : (cs : Bytes) → take (length cs) cs ≡ cs
take_all [] = refl
take_all (c ∷ cs) = ap (λ (rest : Bytes). c ∷ rest) (take_all cs)

-- A normalized id is an id.
unfoldable pub IsNormalized : Option Bytes → Type 0
IsNormalized none = Unit
IsNormalized (some id) = IsId id

module _ (cs : Bytes) where
  counted_text : length (take (bounded_string_length cs 64) cs) ≡ bounded_string_length cs 64
  unfolding bounded_string_length
  counted_text = omega (arith, length-take (count_text cs 64 0) cs, count_le cs 64 0)

  lowered-IsNormalized :
      (id : Option Bytes)
      → (bounded_string_length cs 64 ≡ 40) ⊎ (bounded_string_length cs 64 ≡ 64)
      → IsLowered (take (bounded_string_length cs 64) cs) id
      → IsNormalized id
  unfolding IsLowered IsNormalized
  lowered-IsNormalized none size h = tt
  lowered-IsNormalized (some id) size h = record {
    digits = h.0;
    size = ground (arith, h.1, counted_text, size);
  }

  sized-IsNormalized :
      (refused : Bool)
      → (refused ≡ false → (bounded_string_length cs 64 ≡ 40) ⊎ (bounded_string_length cs 64 ≡ 64))
      → IsNormalized
          (if refused then none else normalize_digits (take (bounded_string_length cs 64) cs))
  unfolding IsNormalized
  sized-IsNormalized true size = tt
  sized-IsNormalized false size =
      lowered-IsNormalized (normalize_digits (take (bounded_string_length cs 64) cs)) (size refl)
        (normalize_digits-IsLowered (take (bounded_string_length cs 64) cs))

  counted_id : IsId cs → bounded_string_length cs 64 ≡ length cs
  unfolding bounded_string_length
  counted_id h = omega (arith, count_digits cs 64 0 h.digits (ground (arith, h.size)))

-- What `normalize_torrent_id` returns is an id, and of an id it returns the id itself.
pub normalize_torrent_id-IsNormalized :
    (text : Option Bytes)
    → IsNormalized (normalize_torrent_id text)
      × ((cs : Bytes) → IsId cs → normalize_torrent_id (some cs) ≡ some cs)
unfolding normalize_torrent_id IsNormalized
normalize_torrent_id-IsNormalized text = (normalized text, fixed)
  where
    normalized : (text : Option Bytes) → IsNormalized (normalize_torrent_id text)
    normalized none = tt
    normalized (some cs) =
        sized-IsNormalized cs
          (not (bounded_string_length cs 64 == 40) && not (bounded_string_length cs 64 == 64))
          (λ h. ground arith)

    fixed : (cs : Bytes) → IsId cs → normalize_torrent_id (some cs) ≡ some cs
    fixed cs h =
        rw (counted_id cs h, take_all cs) (ground (arith, digits_normalize cs h.digits, h.size))

-- What `normalize_stream_id` returns is an id.
pub normalize_stream_id-IsNormalized :
    (text : Option Bytes) → IsNormalized (normalize_stream_id text)
unfolding normalize_stream_id IsNormalized
normalize_stream_id-IsNormalized none = tt
normalize_stream_id-IsNormalized (some cs) =
    sized-IsNormalized cs (not (bounded_string_length cs 64 == 64)) (λ h. ground arith)
