-- ===== src/Scheduler/DemandWindow.antt =====
-- `blocking_demand_range` of src/scheduler/piece_scheduler.cpp and demand_window.hpp.
use native.Mathlib.Nat.{div-eq_of_lt-le, div-add-mod', mod-lt, add-mod}
use nuvio_engine.Common.{
  ℕ, ◌+◌, ◌-◌, ◌*◌, ◌/◌, ◌%◌, ◌<◌, ◌≤◌, ◌≡◌, refl, ◌∙◌, sym, ap, ◌⊎◌, inl, inr, ◌||◌, arith, min,
  u64_max, saturating_add, saturating_add-min, ltb, ◌==◌, if◌then◌else◌, false, dec_lt,
}
use nuvio_engine.Std.Results.{Result, ok, throws, invalid_argument}
use nuvio_engine.Http.ByteRange.{ByteRange}

unfoldable pub blocking_demand_range : ByteRange → ℕ → ℕ → ℕ → Result ByteRange
blocking_demand_range response_range position file_offset piece_size =
    if piece_size == 0
    then throws invalid_argument
    else if ltb response_range.end response_range.start
        || (ltb position response_range.start || ltb response_range.end position)
    then throws invalid_argument
    else (let offset_in_piece = (file_offset % piece_size + position % piece_size) % piece_size in
        let remaining_in_piece = piece_size - offset_in_piece in
        ok (record {
          start = position;
          end = min (saturating_add position (remaining_in_piece - 1)) response_range.end;
        }))

-- The range starts at the position, stays in the response and in the position's piece, and ends
-- only with the response or at the piece's last byte.
pub record IsDemand (response : ByteRange) (position file_offset piece_size : ℕ) (r : ByteRange)
    : Type 0 where
  pub starts : r.start ≡ position
  pub ordered : position ≤ r.end
  pub inside : r.end ≤ response.end
  pub one_piece : (file_offset + r.end) / piece_size ≡ (file_offset + position) / piece_size
  pub longest :
      (r.end ≡ response.end)
      ⊎ ((file_offset + r.end + 1) / piece_size ≡ (file_offset + position) / piece_size + 1)

-- Inside a piece that begins at `q` pieces.
same_piece : (q x k : ℕ) → q * k ≤ x → x < q * k + k → x / k ≡ q
same_piece q x k lo hi = div-eq_of_lt-le k lo (grind arith)

-- From the offset `o` in the position's piece `q`, in the file as a whole.
IsDemand-at :
    (response : ByteRange) (position file_offset k q o : ℕ)
    → o < k
    → q * k + o ≡ file_offset + position
    → position ≤ response.end
    → IsDemand response position file_offset k
        (record { start = position; end = min (position + (k - o - 1)) response.end })
IsDemand-at response position file_offset k q o small split hi =
    let here : (file_offset + position) / k ≡ q = same_piece q _ k (omega arith) (omega arith) in
    record {
      starts = refl;
      ordered = omega arith;
      inside = omega arith;
      one_piece = same_piece q _ k (omega arith) (omega arith) ∙ sym here;
      longest = elim (dec_lt (position + (k - o - 1)) response.end) [
        | yes lt ↦
            inr (same_piece (q + 1) _ k (grind arith) (grind arith) ∙ ap (λ x. x + 1) (sym here))
        | no ge ↦ inl (omega arith)
      ];
    }

-- For a position in the response, the blocking part of the response is found.
pub blocking_demand_range-IsDemand :
    (response : ByteRange) (position file_offset piece_size : ℕ)
    → 0 < piece_size
    → response.start ≤ position
    → position ≤ response.end
    → response.end ≤ u64_max
    → (r : ByteRange) × (blocking_demand_range response position file_offset piece_size ≡ ok r)
      × IsDemand response position file_offset piece_size r
unfolding blocking_demand_range
blocking_demand_range-IsDemand response position file_offset piece_size pos lo hi word =
    let o = (file_offset + position) % piece_size in
    let same : (file_offset % piece_size + position % piece_size) % piece_size ≡ o =
      sym (add-mod file_offset position piece_size) in
    let sum = saturating_add-min position (piece_size - o - 1) (omega arith) in
    let cut : min (saturating_add position (piece_size - o - 1)) response.end
        ≡ min (position + (piece_size - o - 1)) response.end =
      omega (arith, sum) in
    let some_size : (piece_size == 0) ≡ false = ground arith in
    let meets : (ltb response.end response.start
          || (ltb position response.start || ltb response.end position))
        ≡ false =
      ground arith in
    (
      record { start = position; end = min (position + (piece_size - o - 1)) response.end },
      rw (some_size, meets, same, cut) refl,
      IsDemand-at response position file_offset piece_size ((file_offset + position) / piece_size) o
          (mod-lt _ pos) (div-add-mod' _ piece_size) hi,
    )
