-- ===== src/SeqNum.antt =====
-- include/uxr/agent/utils/SeqNum.hpp: 16-bit sequence numbers with a circular order.
pub mod Order
use micro_xrce_dds_agent.Common.{
  ℕ, ◌+◌, ◌-◌, ◌%◌, ◌^◌, ◌<◌, Bool, not, ◌&&◌, ◌||◌, ltb, leb, ◌==◌, if◌then◌else◌,
}
use micro_xrce_dds_agent.Common.Int.{ℤ, pos, negsuc, to_uint16}

-- A sequence number is the value of `seq_num_`.
abbrev pub IsSeqNum : ℕ → Type 0
IsSeqNum s = s < 2 ^ 16

-- `MAX` and `ADD_RANGE`.
abbrev pub max : ℕ
max = 2 ^ 16

abbrev pub add_range_low : ℕ
add_range_low = 0

abbrev pub add_range_high : ℕ
add_range_high = 2 ^ 15 - 1

-- `SeqNum(int)`.
abbrev pub of_int : ℤ → ℕ
of_int k = to_uint16 k

-- `operator<`. The differences are taken as `int`, and each is read only where it is positive.
unfoldable pub lt : ℕ → ℕ → Bool
lt a b =
    not (a == b)
    && ((ltb a b && ltb (b - a) (add_range_high + 1))
        || (ltb b a && ltb (add_range_high + 1) (a - b)))

unfoldable pub gt : ℕ → ℕ → Bool
unfolding lt
gt a b = lt b a

unfoldable pub le : ℕ → ℕ → Bool
unfolding gt
le a b = not (gt a b)

unfoldable pub ge : ℕ → ℕ → Bool
unfolding lt
ge a b = not (lt a b)

-- `operator+=(int)` and `operator+(SeqNum, int)`.
unfoldable pub add_int : ℕ → ℤ → ℕ
add_int a (pos n) = if leb n add_range_high then (a + n % 2 ^ 16) % max else a
add_int a (negsuc n) = a

-- `operator+=(SeqNum)` and `operator+(SeqNum, SeqNum)`.
unfoldable pub add : ℕ → ℕ → ℕ
unfolding ge le
add a b = if ge b add_range_low && le b add_range_high then (a + b) % max else a

-- `operator++`.
unfoldable pub increment : ℕ → ℕ
increment a = if a == 2 ^ 16 - 1 then 0 else a + 1

-- `operator-=(SeqNum)`; the sum of the first branch wraps in `uint16_t`.
unfoldable pub sub : ℕ → ℕ → ℕ
sub a b = if ltb a b then (a + max - b) % 2 ^ 16 else a - b

-- `operator-=(int)` and `operator-(SeqNum, int)`.
unfoldable pub sub_int : ℕ → ℤ → ℕ
unfolding sub
sub_int a k = sub a (to_uint16 k)
