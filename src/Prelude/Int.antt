-- ===== src/Prelude/Int.antt =====
-- Signed integers, and the casts `as i16`, `as i32` and `as i64` of an unsigned number.
use Prim.Native.Nat.{ℕ, suc, ◌+◌, ◌-◌, ◌*◌, ◌%◌, ◌^◌, ◌<◌}
use mathlib.Core.Path.{◌≡◌}
use mathlib.Core.Bool.{Bool}
use native.Mathlib.Omega.{arith}
use simply_kaspa_indexer.Prelude.Tests.{ltb, if◌then◌else◌}

-- `negsuc n` is -(n + 1).
pub data ℤ : Type 0 where
  pos : ℕ → ℤ
  negsuc : ℕ → ℤ

abbrev pub pos_part : ℤ → ℕ
pos_part (pos n) = n
pos_part (negsuc n) = 0

abbrev pub neg_part : ℤ → ℕ
neg_part (pos n) = 0
neg_part (negsuc n) = suc n

abbrev pub ltb_ℤ : ℤ → ℤ → Bool
ltb_ℤ a b = ltb (pos_part a + neg_part b) (pos_part b + neg_part a)

-- The two's complement reading of `n` below `2 * half`.
unfoldable pub signed : ℕ → ℕ → ℤ
signed half n = if ltb n half then pos n else negsuc (2 * half - 1 - n)

abbrev pub as_i16 : ℕ → ℤ
as_i16 n = signed (2 ^ 15) (n % 2 ^ 16)

abbrev pub as_i32 : ℕ → ℤ
as_i32 n = signed (2 ^ 31) (n % 2 ^ 32)

abbrev pub as_i64 : ℕ → ℤ
as_i64 n = signed (2 ^ 63) (n % 2 ^ 64)

pub as_i64-pos : (n : ℕ) → n < 2 ^ 63 → as_i64 n ≡ pos n
unfolding signed
as_i64-pos n h = ground arith

pub as_i16-pos : (n : ℕ) → n < 2 ^ 15 → as_i16 n ≡ pos n
unfolding signed
as_i16-pos n h = ground arith
