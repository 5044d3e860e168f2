-- ===== src/SeqNum/Order.antt =====
-- The circular order of SeqNum.hpp, by the distance from one number forward to another.
use micro_xrce_dds_agent.Common.{
  not, ℕ, ◌+◌, ◌-◌, ◌%◌, not, ◌^◌, ◌<◌, ◌≡◌, ◌↔◌, ◌⊎◌, ◌≢◌, true, false, arith, if◌then◌else◌, leb,
}
use micro_xrce_dds_agent.Common.Int.{pos}
use micro_xrce_dds_agent.SeqNum.{IsSeqNum, lt, gt, le, ge, add_int, add, increment, sub, sub_int}

-- How many increments lead from `a` to `b`.
abbrev pub distance : ℕ → ℕ → ℕ
distance a b = (b + 2 ^ 16 - a) % 2 ^ 16

-- `a < b` exactly when `b` lies 1 to 32767 increments ahead of `a`.
pub lt_iff :
    (a b : ℕ)
    → IsSeqNum a
    → IsSeqNum b
    → (lt a b ≡ true) ↔ ((0 < distance a b) × (distance a b < 2 ^ 15))
unfolding lt
lt_iff a b ha hb = ground arith

-- Two different numbers are ordered in exactly one way, unless they lie exactly half the range apart, where neither is below the other.
lt_trichotomy :
    (a b : ℕ)
    → IsSeqNum a
    → IsSeqNum b
    → ((a ≢ b) × (distance a b ≢ 2 ^ 15) × (lt a b ≡ not (lt b a)))
      ⊎ ((a ≡ b) ⊎ (distance a b ≡ 2 ^ 15)) × (lt a b ≡ false) × (lt b a ≡ false)
unfolding lt
lt_trichotomy a b ha hb = ground arith

-- The order is transitive as long as the two gaps together stay below half the range.
pub lt_trans :
    (a b c : ℕ)
    → IsSeqNum a
    → IsSeqNum b
    → IsSeqNum c
    → lt a b ≡ true
    → lt b c ≡ true
    → distance a b + distance b c < 2 ^ 15
    → lt a c ≡ true
lt_trans a b c ha hb hc p q h =
    let (p1, p2) = (lt_iff a b ha hb).0 p in
    let (q1, q2) = (lt_iff b c hb hc).0 q in (lt_iff a c ha hc).1 (omega arith)

-- `+=` on two sequence numbers adds modulo 2^16 when the second is at most 32767, and otherwise does nothing.
pub add_lem :
    (a b : ℕ)
    → IsSeqNum a
    → IsSeqNum b
    → add a b ≡ (if leb b (2 ^ 15 - 1) then (a + b) % 2 ^ 16 else a)
unfolding add ge le lt gt
add_lem a b ha hb = ground arith

-- Adding 1 to 32767 moves a number forward in the order, by that distance, and subtracting the same amount moves it back.
pub add_forward :
    (a k : ℕ)
    → IsSeqNum a
    → 0 < k
    → k < 2 ^ 15
    → IsSeqNum (add a k)
      × (lt a (add a k) ≡ true)
      × (distance a (add a k) ≡ k)
      × (sub (add a k) k ≡ a)
unfolding lt sub
add_forward a k ha lo hi = rw (add_lem a k ha (omega arith)) (ground arith)

pub add_int_lem : (a k : ℕ) → k < 2 ^ 15 → add_int a (pos k) ≡ (a + k) % 2 ^ 16
unfolding add_int
add_int_lem a k h = ground arith

-- `++` agrees with adding the integer 1, and `- 1` undoes both.
pub increment_lem :
    (a : ℕ) → IsSeqNum a → (increment a ≡ add_int a (pos 1)) × (sub_int (increment a) (pos 1) ≡ a)
unfolding increment add_int sub_int sub
increment_lem a ha = ground arith

-- Subtraction gives the distance from the number subtracted.
pub sub-distance : (a b : ℕ) → IsSeqNum a → IsSeqNum b → sub a b ≡ distance b a
unfolding sub
sub-distance a b ha hb = ground arith
