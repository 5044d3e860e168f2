-- ===== src/TokenBucket/Tests.antt =====
-- A bucket of 10 tokens a second, which is empty at the time 0, with a clock of microseconds: five
-- tokens are there after half a second, but the whole of a timeout of ten is waited for.
use micro_xrce_dds_agent.Common.{◌≡◌, refl, Bool, true, false, some, arith}
use micro_xrce_dds_agent.Common.Int.{pos}
use micro_xrce_dds_agent.TokenBucket.{
  TokenBucket, token_bucket, waiting, tokens_at, take_at, consume_tokens,
}
use micro_xrce_dds_agent.TokenBucket.Bounds.{IsTaken, consume_tokens-IsTaken}

abbrev emptied : TokenBucket
emptied = record (token_bucket 10 0 (pos 0)) { tokens = 0 }

waits_for_the_timeout :
    consume_tokens 1000 (pos 0) 5 (pos 10000) emptied
    ≡ some (true, record emptied { tokens = 5; timestamp = pos 10000000 })
unfolding consume_tokens token_bucket tokens_at take_at waiting
waits_for_the_timeout = refl

refilled :
    consume_tokens 1000 (pos 500000) 5 (pos 0) emptied
    ≡ some (true, record emptied { tokens = 0; timestamp = pos 500000 })
unfolding consume_tokens token_bucket tokens_at take_at
refilled = refl

never_enough : consume_tokens 1000 (pos 90000000) 11 (pos 10000) emptied ≡ some (false, emptied)
unfolding consume_tokens token_bucket
never_enough = refl

consume_tokens-IsTaken_example :
    (r : Bool × TokenBucket) × (consume_tokens 1000 (pos 0) 5 (pos 10000) emptied ≡ some r)
    × IsTaken 5 emptied r
unfolding token_bucket
consume_tokens-IsTaken_example =
    consume_tokens-IsTaken 1000 (pos 0) 5 (pos 10000) emptied (omega arith)
