-- ===== src/TokenBucket.antt =====
-- The tokens of a reader (include/uxr/agent/utils/TokenBucket.hpp). Times are ticks of the steady
-- clock, of which a millisecond has a given number; `sleep_until` is left out.
pub mod Bounds
pub mod Tests
use micro_xrce_dds_agent.Common.{
  ℕ, suc, ◌+◌, ◌-◌, ◌*◌, ◌/◌, ◌%◌, ◌^◌, min, Bool, true, false, Option, none, some, ltb, leb, ◌==◌,
  if◌then◌else◌,
}
use micro_xrce_dds_agent.Common.Int.{ℤ, pos, negsuc, neg, ◌-ℤ◌}

pub record TokenBucket : Type 0 where
  pub rate : ℕ
  pub capacity : ℕ
  pub tokens : ℕ
  pub timestamp : ℤ

-- The constructor, at the time `now`.
unfoldable pub token_bucket : ℕ → ℕ → ℤ → TokenBucket
token_bucket rate capacity now =
    let held = if capacity == 0 then rate else capacity in
    record { rate = rate; capacity = held; tokens = held; timestamp = now }

-- `uint64_t(k)`, and the `int64_t` that `milliseconds` counts in.
abbrev to_uint64 : ℤ → ℕ
to_uint64 (pos n) = n % 2 ^ 64
to_uint64 (negsuc n) = (2 ^ 64 - 1) - n % 2 ^ 64

abbrev to_int64 : ℕ → ℤ
to_int64 n = if ltb n (2 ^ 63) then pos n else neg (2 ^ 64 - n)

-- `std::min` on signed durations.
abbrev earlier : ℤ → ℤ → ℤ
earlier (pos m) (pos n) = pos (min m n)
earlier (pos m) (negsuc n) = negsuc n
earlier (negsuc m) (pos n) = negsuc m
earlier (negsuc m) (negsuc n) = if leb m n then negsuc n else negsuc m

-- `milliseconds(uint64_t((std::milli::den * (tokens_ - required_tokens)) / rate_))`.
unfoldable pub waiting : ℕ → TokenBucket → ℤ
waiting required b = to_int64 (1000 * ((b.tokens + 2 ^ 64 - required) % 2 ^ 64) % 2 ^ 64 / b.rate)

module _ (ticks : ℕ) where
  -- `duration_cast<milliseconds>`, which rounds towards 0.
  abbrev to_milliseconds : ℤ → ℤ
  to_milliseconds (pos n) = pos (n / ticks)
  to_milliseconds (negsuc n) = neg (suc n / ticks)

  -- A time and the milliseconds after it.
  abbrev later : ℤ → ℤ → ℤ
  later time (pos n) = time -ℤ neg (n * ticks)
  later time (negsuc n) = time -ℤ pos (suc n * ticks)

  -- The tokens that the bucket holds at a time.
  unfoldable pub tokens_at : ℤ → TokenBucket → ℕ
  tokens_at time b = min b.capacity (
      (b.tokens + b.rate * to_uint64 (to_milliseconds (time -ℤ b.timestamp)) % 2 ^ 64 / 1000)
      % 2 ^ 64)

  -- The bucket less the tokens, if it holds so many at the time.
  unfoldable pub take_at : ℤ → ℕ → TokenBucket → Bool × TokenBucket
  take_at time required b =
      let held = tokens_at time b in
      if leb required held
      then (true, record b { tokens = held - required; timestamp = time })
      else (false, b)

  -- With the time `now` and the timeout in milliseconds. `none` is the division by a rate of 0.
  unfoldable pub consume_tokens : ℤ → ℕ → ℤ → TokenBucket → Option (Bool × TokenBucket)
  consume_tokens now required timeout b =
      if ltb b.capacity required
      then some (false, b)
      else if leb required (tokens_at now b)
      then some (take_at now required b)
      else if b.rate == 0
      then none
      else some (take_at (later now (earlier (waiting required b) timeout)) required b)
