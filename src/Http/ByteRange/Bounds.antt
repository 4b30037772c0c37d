-- ===== src/Http/ByteRange/Bounds.antt =====
-- What every parsed range satisfies, for any header text.
use nuvio_engine.Common.{ℕ, ◌+◌, ◌≤◌, ◌<◌, ◌≡◌, ◌⊎◌, true, false, none, some, Bytes, arith, u64_max}
use nuvio_engine.Http.ByteRange.{
  ByteRange, length, full, RangeResult, is_success, parse_range_header,
}

-- A range of bytes that the resource has.
pub record Fits (size : ℕ) (r : ByteRange) : Type 0 where
  pub ordered : r.start ≤ r.end
  pub inside : r.end < size

-- A result with a range is a success and its range lies within the resource; a result without one
-- is a failure, or the full range of an empty resource.
unfoldable pub IsSound : ℕ → RangeResult → Type 0
IsSound size r = elim r.range [
  | some range ↦ Fits size range × (is_success r ≡ true)
  | none ↦ (is_success r ≡ false) ⊎ (r.status ≡ full) × (size ≡ 0)
]

-- Every result of the parser is sound: a range that it returns lies within the resource and comes
-- with a success status, and a success without a range is the full range of an empty resource.
pub parse_range_header-IsSound :
    (header : Bytes) (size : ℕ) → IsSound size (parse_range_header header size)
unfolding parse_range_header is_success IsSound
parse_range_header-IsSound header size = ground arith

-- On such a range the 64-bit length is exact, at least one and at most the resource's size.
pub length-Fits :
    (size : ℕ) (r : ByteRange)
    → size ≤ u64_max
    → Fits size r
    → (length r + r.start ≡ r.end + 1) × (0 < length r) × (length r ≤ size)
unfolding length
length-Fits size r h f = (omega arith, omega arith, omega arith)
