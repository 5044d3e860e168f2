-- ===== src/TokenBucket/Bounds.antt =====
-- The tokens of a reader stay within the capacity (include/uxr/agent/utils/TokenBucket.hpp).
use micro_xrce_dds_agent.Common.{
  ℕ, ◌+◌, ◌-◌, ◌≤◌, ◌<◌, ◌≡◌, refl, subst, sym, Bool, true, false, Option, some, ltb, leb, ◌==◌,
  if◌then◌else◌, if_each, arith,
}
use micro_xrce_dds_agent.Common.Int.{ℤ}
use micro_xrce_dds_agent.TokenBucket.{TokenBucket, token_bucket, tokens_at, take_at, consume_tokens}

unfoldable pub IsWithin : TokenBucket → Type 0
IsWithin b = b.tokens ≤ b.capacity

-- The constructor fills the bucket, so that the tokens are within the capacity.
pub token_bucket-IsWithin :
    (rate capacity : ℕ) → (now : ℤ) → IsWithin (token_bucket rate capacity now)
unfolding token_bucket IsWithin
token_bucket-IsWithin rate capacity now = omega arith

tokens_at_within :
    (ticks : ℕ) → (time : ℤ) → (b : TokenBucket) → tokens_at ticks time b ≤ b.capacity
unfolding tokens_at
tokens_at_within ticks time b = omega arith

-- What a call leaves: what is taken and what remains are within the capacity together, and a call
-- that takes nothing changes nothing.
unfoldable pub IsTaken : ℕ → TokenBucket → Bool × TokenBucket → Type 0
IsTaken required b (true, b') =
    (b'.tokens + required ≤ b.capacity) × (b'.capacity ≡ b.capacity) × (b'.rate ≡ b.rate)
IsTaken required b (false, b') = b' ≡ b

take_at-IsTaken :
    (ticks : ℕ)
    → (time : ℤ) → (required : ℕ) → (b : TokenBucket)
    → IsTaken required b (take_at ticks time required b)
unfolding take_at IsTaken
take_at-IsTaken ticks time required b = by_cases _ refl
  where
    by_cases :
        (enough : Bool)
        → leb required (tokens_at ticks time b) ≡ enough
        → IsTaken required b (
            if enough
            then (true, record b { tokens = tokens_at ticks time b - required; timestamp = time })
            else (false, b))
    by_cases true e = let bound = tokens_at_within ticks time b in (ground arith, refl, refl)
    by_cases false e = refl

-- With a rate that is not 0 a call returns, at whatever time, for however many tokens and with
-- whatever timeout. If it succeeds, the tokens taken and those left are together at most the
-- capacity, and the capacity and the rate are as before; if it fails, the bucket is as before.
pub consume_tokens-IsTaken :
    (ticks : ℕ)
    → (now : ℤ) → (required : ℕ) → (timeout : ℤ) → (b : TokenBucket) → 0 < b.rate
    → (r : Bool × TokenBucket) × (consume_tokens ticks now required timeout b ≡ some r)
      × IsTaken required b r
unfolding consume_tokens IsTaken
consume_tokens-IsTaken ticks now required timeout b positive =
    if_each Returns (ltb b.capacity required) _ _ ((false, b), refl, refl)
      (if_each Returns (leb required (tokens_at ticks now b)) _ _ (taken now)
        (rw rate_left (taken _)))
  where
    Returns : Option (Bool × TokenBucket) → Type 0
    Returns o = (r : Bool × TokenBucket) × (o ≡ some r) × IsTaken required b r

    rate_left : (b.rate == 0) ≡ false
    rate_left = ground arith

    taken : (time : ℤ) → Returns (some (take_at ticks time required b))
    taken time = (_, refl, take_at-IsTaken ticks time required b)

-- So the tokens stay within the capacity.
pub IsTaken-IsWithin :
    (required : ℕ)
    → (b : TokenBucket) → (r : Bool × TokenBucket) → IsTaken required b r
    → IsWithin b
    → IsWithin r.1
unfolding IsTaken IsWithin
IsTaken-IsWithin required b (true, b') (within, same, _) _ = omega arith
IsTaken-IsWithin required b (false, b') same within = subst IsWithin (sym same) within
