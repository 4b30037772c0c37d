-- ===== src/Common/Words.antt =====
-- Machine words: the largest values, the saturating sum and counter of the source.
use Prim.Native.Nat.{ℕ, ◌+◌, ◌-◌, ◌≤◌, min}
use mathlib.Core.Path.{◌≡◌}
use native.Mathlib.Omega.{arith}
use nuvio_engine.Common.Tests.{ltb, if◌then◌else◌}

abbrev pub u32_max : ℕ
u32_max = 0xffffffff

abbrev pub u64_max : ℕ
u64_max = 0xffffffffffffffff

abbrev pub u64_mod : ℕ
u64_mod = 0x10000000000000000

unfoldable pub saturating_add : ℕ → ℕ → ℕ
saturating_add left right = if ltb (u64_max - left) right then u64_max else left + right

unfoldable pub increment : ℕ → ℕ
increment counter = if ltb counter u64_max then counter + 1 else counter

pub saturating_add-min :
    (left right : ℕ) → left ≤ u64_max → saturating_add left right ≡ min (left + right) u64_max
unfolding saturating_add
saturating_add-min left right h = ground arith

pub increment_le : (counter : ℕ) → counter ≤ u64_max → increment counter ≤ u64_max
unfolding increment
increment_le counter h = ground arith
