-- ===== src/Http/ByteRange/Print.antt =====
-- The three forms of a single byte range, printed and parsed again.
use nuvio_engine.Common.{
  ℕ, ◌-◌, ◌≤◌, ◌≡◌, refl, [], ◌∷◌, ◌++◌, some, Bytes, arith, u64_max, min, All, All-append,
  length-append, false, ◌==◌, if◌then◌else◌, leb, ltb, ◌||◌,
}
use nuvio_engine.Text.{codes, is_empty, is_blank, split_at_byte}
use nuvio_engine.Text.Decimal.{
  is_digit, to_string, AreDigits, to_string-AreDigits, to_string_nonempty, parse_unsigned-to_string,
}
use nuvio_engine.Text.Laws.{
  Unblanked, Without, trim-Unblanked, find_byte-Without, split_at_byte-append, strip_prefix-append,
  is_empty-length, AreDigits-Unblanked, AreDigits-Without,
}
use nuvio_engine.Http.ByteRange.{
  partial, unsatisfiable, served, failed, parse_specification, parse_range_header, parse_bounded,
  parse_suffix,
}

-- `first-last`, each of them digits or empty.
dashed : Bytes → Bytes → Bytes
dashed first last = first ++ b'-' ∷ last

dashed-All :
    (P : ℕ → Type 0) (first last : Bytes)
    → P b'-'
    → All P first
    → All P last
    → All P (dashed first last)
unfolding dashed
dashed-All P first last d f l = All-append P first (b'-' ∷ last) f (d, l)

is_empty-dashed : (first last : Bytes) → is_empty (dashed first last) ≡ false
unfolding dashed
is_empty-dashed first last =
    is_empty-length (first ++ b'-' ∷ last) (omega (arith, length-append first (b'-' ∷ last)))

digits_blank-free :
    (first last : Bytes) → AreDigits first → AreDigits last → Unblanked (dashed first last)
unfolding is_blank
digits_blank-free first last f l =
    dashed-All _ first last refl (AreDigits-Unblanked first f) (AreDigits-Unblanked last l)

digits_comma-free :
    (first last : Bytes) → AreDigits first → AreDigits last → Without b',' (dashed first last)
unfolding is_digit
digits_comma-free first last f l =
    dashed-All _ first last refl (AreDigits-Without b',' first refl f)
      (AreDigits-Without b',' last refl l)

split_dashed :
    (first last : Bytes)
    → AreDigits first
    → split_at_byte b'-' (dashed first last) ≡ some (first, last)
unfolding dashed is_digit
split_dashed first last f =
    split_at_byte-append b'-' first last (AreDigits-Without b'-' first refl f)

prefixed_blank-free :
    (first last : Bytes)
    → AreDigits first
    → AreDigits last
    → Unblanked (codes "bytes=" ++ dashed first last)
unfolding is_blank
prefixed_blank-free first last f l =
    All-append _ (codes "bytes=") (dashed first last)
      (refl, (refl, (refl, (refl, (refl, (refl, tt)))))) (digits_blank-free first last f l)

module _ (first last : Bytes) (f : AreDigits first) (l : AreDigits last) (size : ℕ) where
  specification_dashed :
      parse_specification (dashed first last) size
      ≡ (if is_empty first then parse_suffix last size else parse_bounded first last size)
  unfolding parse_specification is_digit
  specification_dashed = ground (
    arith,
    find_byte-Without b',' (dashed first last) (digits_comma-free first last f l),
    split_dashed first last f,
    find_byte-Without b'-' last (AreDigits-Without b'-' last refl l),
    trim-Unblanked first (AreDigits-Unblanked first f),
    trim-Unblanked last (AreDigits-Unblanked last l),
  )

  parse_dashed :
      parse_range_header (codes "bytes=" ++ dashed first last) size
      ≡ (if is_empty first then parse_suffix last size else parse_bounded first last size)
  unfolding parse_range_header
  parse_dashed = ground (
    arith,
    trim-Unblanked (codes "bytes=" ++ dashed first last) (prefixed_blank-free first last f l),
    strip_prefix-append (codes "bytes=") (dashed first last),
    trim-Unblanked (dashed first last) (digits_blank-free first last f l),
    is_empty-dashed first last,
    specification_dashed,
  )

-- `bytes=a-b` asks for the bytes from `a` to `b`, cut off at the end of the resource; it cannot be
-- satisfied exactly if `a` is past the end of the resource or past `b`.
parse_range_header-closed :
    (a b size : ℕ)
    → a ≤ u64_max
    → b ≤ u64_max
    → parse_range_header (codes "bytes=" ++ (to_string a ++ b'-' ∷ to_string b)) size ≡ (
        if leb size a || ltb b a then failed unsatisfiable else served partial a (min b (size - 1)))
unfolding dashed parse_bounded
parse_range_header-closed a b size ha hb = ground (
  arith,
  parse_dashed (to_string a) (to_string b) (to_string-AreDigits a) (to_string-AreDigits b) size,
  is_empty-length (to_string a) (to_string_nonempty a),
  is_empty-length (to_string b) (to_string_nonempty b),
  parse_unsigned-to_string a ha,
  parse_unsigned-to_string b hb,
)

-- `bytes=a-` asks for everything from `a` on; it cannot be satisfied exactly if `a` is past the end.
parse_range_header-open :
    (a size : ℕ)
    → a ≤ u64_max
    → parse_range_header (codes "bytes=" ++ (to_string a ++ b'-' ∷ [])) size
      ≡ (if leb size a then failed unsatisfiable else served partial a (size - 1))
unfolding dashed parse_bounded is_empty
parse_range_header-open a size ha = ground (
  arith,
  parse_dashed (to_string a) [] (to_string-AreDigits a) tt size,
  is_empty-length (to_string a) (to_string_nonempty a),
  parse_unsigned-to_string a ha,
)

-- `bytes=-n` asks for the last `n` bytes, or for all if there are fewer; it cannot be satisfied
-- exactly if `n` or the resource's size is zero.
parse_range_header-suffix :
    (n size : ℕ)
    → n ≤ u64_max
    → parse_range_header (codes "bytes=" ++ (b'-' ∷ to_string n)) size
      ≡ (if n == 0 || size == 0 then failed unsatisfiable else served partial (size - n) (size - 1))
unfolding dashed parse_suffix is_empty
parse_range_header-suffix n size hn = ground (
  arith,
  parse_dashed [] (to_string n) tt (to_string-AreDigits n) size,
  trim-Unblanked (to_string n) (AreDigits-Unblanked (to_string n) (to_string-AreDigits n)),
  parse_unsigned-to_string n hn,
)

-- A printed range is read back. `bytes=a-b` gives the bytes from `a` to `b`, cut off at the end of
-- the resource, and cannot be satisfied exactly if `a` is past that end or past `b`; `bytes=a-` gives all
-- from `a` on, and cannot be satisfied exactly if `a` is past the end; `bytes=-b` gives the last `b` bytes, or
-- all if there are fewer, and cannot be satisfied exactly if `b` or the size is zero. The numbers have 64 bits.
pub parse_range_header-printed :
    (a b size : ℕ)
    → a ≤ u64_max
    → b ≤ u64_max
    → (parse_range_header (codes "bytes=" ++ (to_string a ++ b'-' ∷ to_string b)) size ≡ (
        if leb size a || ltb b a
        then failed unsatisfiable
        else served partial a (min b (size - 1))))
      × (parse_range_header (codes "bytes=" ++ (to_string a ++ b'-' ∷ [])) size
          ≡ (if leb size a then failed unsatisfiable else served partial a (size - 1)))
      × (parse_range_header (codes "bytes=" ++ (b'-' ∷ to_string b)) size ≡ (
          if b == 0 || size == 0
          then failed unsatisfiable
          else served partial (size - b) (size - 1)))
parse_range_header-printed a b size ha hb = (
  parse_range_header-closed a b size ha hb,
  parse_range_header-open a size ha,
  parse_range_header-suffix b size hb,
)
