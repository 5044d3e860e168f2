-- ===== src/Common/Bits.antt =====
-- Setting bits of an octet, by a table.
use Prim.Native.Nat.{bit_or}
use micro_xrce_dds_agent.Common.Tests.{◌==◌, ==_iff, if◌then◌else◌}
use Prim.Native.Nat.{ℕ, zero, suc, ◌+◌, ◌^◌, ◌<◌, ◌*◌}
use mathlib.Core.Path.{◌≡◌, refl}
use mathlib.Core.Bool.{Bool, true, false}
use native.Mathlib.Omega.{arith}
use native.Mathlib.Numerals.{towards_suc}

-- `test` at every number under a bound.
unfoldable pub holds_under : (ℕ → Bool) → ℕ → Bool
holds_under test zero = true
holds_under test (suc bound) = if test bound then holds_under test bound else false

pub holds_under-at :
    (test : ℕ → Bool) (bound i : ℕ) → i < bound → holds_under test bound ≡ true → test i ≡ true
unfolding holds_under
holds_under-at test zero i inside all = absurd (omega arith)
holds_under-at test (suc bound) i inside all = ground (arith, holds_under-at test bound i)

bit_or_table : holds_under (λ i. holds_under (λ x. bit_or x (2 ^ i) == x + 2 ^ i) (2 ^ i)) 8 ≡ true
unfolding holds_under
bit_or_table = refl

-- Setting a bit above all the bits set adds it.
pub bit_or_above : (i x : ℕ) → i < 8 → x < 2 ^ i → bit_or x (2 ^ i) ≡ x + 2 ^ i
bit_or_above i x hi hx =
    (==_iff _ _).0 (holds_under-at _ (2 ^ i) x hx (holds_under-at _ 8 i hi bit_or_table))

-- The number whose bit `j`, for `j` below `n`, says whether `f j` holds.
abbrev pub bitmap : (ℕ → Bool) → ℕ → ℕ
bitmap f zero = 0
bitmap f (suc n) = bitmap f n + (if f n then 2 ^ n else 0)

pub bitmap_lt : (f : ℕ → Bool) (n : ℕ) → bitmap f n < 2 ^ n
bitmap_lt f zero = omega arith
bitmap_lt f (suc n) = ground (arith, bitmap_lt f n, two_pow n)
  where
    two_pow : (n : ℕ) → 2 ^ suc n ≡ 2 * 2 ^ n
    two_pow n = omega arith

-- Bitmaps of what is the same below the bound are the same.
pub bitmap_each : (f g : ℕ → Bool) (n : ℕ) → ((j : ℕ) → j < n → f j ≡ g j) → bitmap f n ≡ bitmap g n
bitmap_each f g zero same = refl
bitmap_each f g (suc n) same =
    rw (bitmap_each f g n (λ j small. same j (omega arith)), same n (omega arith)) refl

two_pow_more : (n : ℕ) → 2 ^ (n + 8) ≡ 256 * 2 ^ n
two_pow_more n = simp towards_suc (omega arith)

-- The bits from 8 on make up the second octet.
pub bitmap_split :
    (f : ℕ → Bool) (n : ℕ) → bitmap f (n + 8) ≡ bitmap f 8 + 256 * bitmap (λ j. f (j + 8)) n
bitmap_split f zero = omega arith
bitmap_split f (suc n) =
    let e : suc n + 8 ≡ suc (n + 8) = omega arith in
    rw e (ground (arith, bitmap_split f n, two_pow_more n))
