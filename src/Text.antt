-- ===== src/Text.antt =====
-- What the parsers use of `std::string_view`: trimming, searching, cutting and comparing bytes,
-- with the decimal conversions of the standard library in the children.
pub mod Decimal
pub mod Laws
use Prim.Native.Char.{code}
use Prim.Native.String.{String}
use nuvio_engine.Common.{
  ℕ, suc, ◌+◌, ◌-◌, Bool, true, false, ◌&&◌, ◌||◌, [], ◌∷◌, map, Option, none, some, Bytes,
  bytes_eq, length, drop, ltb, leb, ◌==◌, if◌then◌else◌,
}
use mathlib.Core.Option as O

-- The bytes of an ASCII literal.
abbrev pub codes : String → Bytes
codes String.[] = []
codes (String.◌∷◌ c s) = code c ∷ codes s

unfoldable pub is_blank : ℕ → Bool
is_blank c = (c == b' ') || (c == 9)

-- `while (!empty && blank(front)) remove_prefix(1)`.
unfoldable pub trim_front : Bytes → Bytes
trim_front [] = []
trim_front (c ∷ cs) = elim (is_blank c) [ true ↦ trim_front cs | false ↦ c ∷ cs ]

-- `while (!empty && blank(back)) remove_suffix(1)`.
unfoldable pub trim_back : Bytes → Bytes
trim_back [] = []
trim_back (c ∷ cs) = elim (trim_back cs) [
  | [] ↦ if is_blank c then [] else c ∷ []
  | d ∷ ds ↦ c ∷ d ∷ ds
]

unfoldable pub trim : Bytes → Bytes
unfolding trim_front trim_back is_blank
trim value = trim_back (trim_front value)

-- `find(character)`: the position of the first occurrence.
unfoldable pub find_byte : ℕ → Bytes → Option ℕ
find_byte b [] = none
find_byte b (c ∷ cs) = if c == b then some 0 else O.map suc (find_byte b cs)

-- The text before the first occurrence and the text behind it: `substr(0, find(b))` and
-- `substr(find(b) + 1)`.
unfoldable pub split_at_byte : ℕ → Bytes → Option (Bytes × Bytes)
split_at_byte b [] = none
split_at_byte b (c ∷ cs) =
    if c == b then some ([], cs) else O.map (λ p. (c ∷ p.0, p.1)) (split_at_byte b cs)

-- `starts_with(prefix)`, with the text behind the prefix.
unfoldable pub strip_prefix : Bytes → Bytes → Option Bytes
strip_prefix [] cs = some cs
strip_prefix (p ∷ ps) [] = none
strip_prefix (p ∷ ps) (c ∷ cs) = if p == c then strip_prefix ps cs else none

unfoldable pub starts_with : Bytes → Bytes → Bool
starts_with [] cs = true
starts_with (p ∷ ps) [] = false
starts_with (p ∷ ps) (c ∷ cs) = (p == c) && starts_with ps cs

-- `ends_with(suffix)`.
unfoldable pub ends_with : Bytes → Bytes → Bool
unfolding bytes_eq
ends_with suffix cs =
    if ltb (length cs) (length suffix)
    then false
    else bytes_eq (drop (length cs - length suffix) cs) suffix

-- `std::tolower` in the C locale.
unfoldable pub to_lower : ℕ → ℕ
to_lower c = if leb b'A' c && leb c b'Z' then c + 32 else c

-- `std::isxdigit` in the C locale.
unfoldable pub is_xdigit : ℕ → Bool
is_xdigit c = (leb b'0' c && leb c b'9') || (leb b'A' c && leb c b'F') || (leb b'a' c && leb c b'f')

unfoldable pub lowercase : Bytes → Bytes
unfolding to_lower
lowercase = map to_lower

unfoldable pub is_empty : Bytes → Bool
is_empty [] = true
is_empty (c ∷ cs) = false
