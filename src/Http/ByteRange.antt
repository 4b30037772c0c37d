-- ===== src/Http/ByteRange.antt =====
-- src/http/byte_range.cpp and include/nuvio_engine/byte_range.hpp: the `Range` header.
-- Texts are lists of bytes; a `std::uint64_t` is a number that the theorems bound by `u64_max`.
pub mod Bounds
pub mod Print
use nuvio_engine.Common.{
  ℕ, ◌+◌, ◌-◌, ◌%◌, Bool, true, false, ◌||◌, Option, none, some, Bytes, u64_mod, ltb, leb, ◌==◌,
  if◌then◌else◌,
}
use nuvio_engine.Text.{codes, trim, is_empty, find_byte, split_at_byte, strip_prefix}
use nuvio_engine.Text.Decimal.{parse_unsigned}

pub record ByteRange : Type 0 where
  pub start : ℕ
  pub end : ℕ

-- `end - start + 1` in 64 bits.
unfoldable pub length : ByteRange → ℕ
length r = (r.end + u64_mod - r.start + 1) % u64_mod

pub data RangeStatus : Type 0 where
  full partial malformed unsatisfiable multiple_ranges_unsupported : RangeStatus

pub record RangeResult : Type 0 where
  pub status : RangeStatus
  pub range : Option ByteRange

unfoldable pub is_success : RangeResult → Bool
is_success r = elim r.status [
  | full ↦ true
  | partial ↦ true
  | malformed ↦ false
  | unsatisfiable ↦ false
  | multiple_ranges_unsupported ↦ false
]

abbrev pub failed : RangeStatus → RangeResult
failed status = record { status = status; range = none }

abbrev pub served : RangeStatus → ℕ → ℕ → RangeResult
served status start end = record {
  status = status;
  range = some (record { start = start; end = end });
}

-- The last `suffix_length` bytes of the resource.
suffix_range : ℕ → ℕ → RangeResult
suffix_range suffix_length resource_size =
    if suffix_length == 0 || resource_size == 0
    then failed unsatisfiable
    else (let length = if ltb suffix_length resource_size then suffix_length else resource_size in
        served partial (resource_size - length) (resource_size - 1))

unfoldable pub parse_suffix : Bytes → ℕ → RangeResult
unfolding suffix_range
parse_suffix suffix_text resource_size = elim (parse_unsigned (trim suffix_text)) [
  | none ↦ failed malformed
  | some suffix_length ↦ suffix_range suffix_length resource_size
]

-- From the parsed start; `last` is the parsed end, or `none` if the end is left out.
bounded_range : ℕ → Option ℕ → ℕ → RangeResult
bounded_range start last resource_size =
    if resource_size == 0 || leb resource_size start then failed unsatisfiable else elim last [
      | none ↦ served partial start (resource_size - 1)
      | some end ↦
          if ltb end start
          then failed unsatisfiable
          else served partial start (if leb resource_size end then resource_size - 1 else end)
    ]

-- `start_text` is not empty.
parse_bounded : Bytes → Bytes → ℕ → RangeResult
unfolding bounded_range
parse_bounded start_text end_text resource_size = elim (parse_unsigned start_text) [
  | none ↦ failed malformed
  | some start ↦
      if is_empty end_text
      then bounded_range start none resource_size
      else elim (parse_unsigned end_text) [
        | none ↦ failed malformed
        | some end ↦ bounded_range start (some end) resource_size
      ]
]

-- What stands behind `bytes=`, trimmed and not empty.
parse_specification : Bytes → ℕ → RangeResult
unfolding parse_suffix parse_bounded
parse_specification specification resource_size = elim (find_byte b',' specification) [
  | some comma ↦ failed multiple_ranges_unsupported
  | none ↦ elim (split_at_byte b'-' specification) [
    | none ↦ failed malformed
    | some (before, behind) ↦ elim (find_byte b'-' behind) [
      | some again ↦ failed malformed
      | none ↦
          if is_empty (trim before)
          then parse_suffix (trim behind) resource_size
          else parse_bounded (trim before) (trim behind) resource_size
    ]
  ]
]

whole_resource : ℕ → RangeResult
whole_resource resource_size =
    if resource_size == 0 then failed full else served full 0 (resource_size - 1)

unfoldable pub parse_range_header : Bytes → ℕ → RangeResult
unfolding whole_resource parse_specification is_empty
parse_range_header header resource_size =
    if is_empty (trim header)
    then whole_resource resource_size
    else elim (strip_prefix (codes "bytes=") (trim header)) [
      | none ↦ failed malformed
      | some rest ↦
          if is_empty (trim rest)
          then failed malformed
          else parse_specification (trim rest) resource_size
    ]
