-- ===== src/Common/Int.antt =====
-- Signed integers over the native numbers, and Go's int64 arithmetic on them.
use Prim.Native.Nat.{ℕ, suc, ◌+◌, ◌-◌, min}
use mathlib.Core.Bool.{Bool}
use kube_freeze_operator.Common.Tests.{ltb, leb, if◌then◌else◌}

-- `negsuc n` is -(n + 1).
pub data ℤ : Type 0 where
  pos : ℕ → ℤ
  negsuc : ℕ → ℤ

-- a - b, as an integer.
abbrev pub sub_ℕ : ℕ → ℕ → ℤ
sub_ℕ a b = if leb b a then pos (a - b) else negsuc (b - a - 1)

abbrev pub pos_part : ℤ → ℕ
pos_part (pos n) = n
pos_part (negsuc n) = 0

abbrev pub neg_part : ℤ → ℕ
neg_part (pos n) = 0
neg_part (negsuc n) = suc n

abbrev pub ltb_ℤ : ℤ → ℤ → Bool
ltb_ℤ a b = ltb (pos_part a + neg_part b) (pos_part b + neg_part a)

abbrev pub leb_ℤ : ℤ → ℤ → Bool
leb_ℤ a b = leb (pos_part a + neg_part b) (pos_part b + neg_part a)

-- 2^63 - 1, the largest int64; the smallest is `negsuc max_int64`.
abbrev pub max_int64 : ℕ
max_int64 = 9223372036854775807

abbrev pub two_64 : ℕ
two_64 = 18446744073709551616

-- A value cut off at the ends of int64.
abbrev pub saturate : ℤ → ℤ
saturate (pos n) = pos (min n max_int64)
saturate (negsuc n) = negsuc (min n max_int64)

-- A sum of two int64 values, wrapped round once.
abbrev pub wrap : ℤ → ℤ
wrap (pos n) = if leb n max_int64 then pos n else sub_ℕ n two_64
wrap (negsuc n) = if leb n max_int64 then negsuc n else sub_ℕ two_64 (suc n)

abbrev pub add_int64 : ℤ → ℤ → ℤ
add_int64 a b = wrap (sub_ℕ (pos_part a + pos_part b) (neg_part a + neg_part b))
