-- ===== src/Common/Int.antt =====
-- The signed integers that C++ `int` arguments hold.
use Prim.Native.Nat.{ℕ, zero, suc, ◌+◌, ◌-◌, ◌%◌, ◌^◌}
use micro_xrce_dds_agent.Common.Tests.{leb, if◌then◌else◌}

-- `negsuc n` is -(n + 1).
pub data ℤ : Type 0 where
  pos : ℕ → ℤ
  negsuc : ℕ → ℤ

-- `uint16_t(k)`: the residue modulo 2^16.
abbrev pub to_uint16 : ℤ → ℕ
to_uint16 (pos n) = n % 2 ^ 16
to_uint16 (negsuc n) = (2 ^ 16 - 1) - n % 2 ^ 16

abbrev pub neg : ℕ → ℤ
neg zero = pos zero
neg (suc n) = negsuc n

abbrev pub difference : ℕ → ℕ → ℤ
difference m n = if leb n m then pos (m - n) else neg (n - m)

infixl 45 ◌-ℤ◌
abbrev pub ◌-ℤ◌ : ℤ → ℤ → ℤ
pos m -ℤ pos n = difference m n
pos m -ℤ negsuc n = pos (m + suc n)
negsuc m -ℤ pos n = neg (suc m + n)
negsuc m -ℤ negsuc n = difference n m
