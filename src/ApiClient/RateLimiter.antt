-- ===== src/ApiClient/RateLimiter.antt =====
-- api/rate_limiter.py (under btc_parser_app): the token bucket that every request to mempool.space passes. Time
-- and tokens are exact: time in ticks, tokens in parts of which `unit` make one token, and `rate` is the number
-- of parts that a tick brings.
use bitcoin_data_exporter.Common.{◌/◌}
use bitcoin_data_exporter.Common.{
  ℕ, ◌+◌, ◌-◌, ◌*◌, min, Bool, true, false, ◌||◌, Option, none, some, List, [], ◌∷◌, ltb, leb,
  if◌then◌else◌, ◌==◌, nat_eq, string_eq,
}

pub record TokenBucket : Type 0 where
  pub unit : ℕ
  pub rate : ℕ
  pub capacity : ℕ
  pub tokens : ℕ
  pub last_refill : ℕ

-- `TokenBucket.__init__`, where it does not raise: the rate and the size are positive.
unfoldable pub token_bucket : ℕ → ℕ → ℕ → ℕ → Option TokenBucket
token_bucket unit rate bucket_size now =
    if rate == 0 || bucket_size == 0
    then none
    else some (record {
      unit = unit;
      rate = rate;
      capacity = bucket_size * unit;
      tokens = bucket_size * unit;
      last_refill = now;
    })

-- `_refill_locked`
unfoldable pub refill : ℕ → TokenBucket → TokenBucket
refill now b =
    let elapsed = now - b.last_refill in
    if ltb 0 elapsed
    then record b { tokens = min b.capacity (b.tokens + elapsed * b.rate); last_refill = now }
    else b

-- `wait_seconds`, in ticks: how long the missing part of a token takes; a tick that is not filled counts.
unfoldable pub wait_ticks : TokenBucket → ℕ
wait_ticks b = (b.unit - b.tokens + (b.rate - 1)) / b.rate

-- A look at the bucket, from outside: how much later it comes than the wait before it was to end, and
-- whether the stop event is set in the wait after it.
abbrev pub Look : Type 0
Look = ℕ × Bool

-- The part of the loop of `acquire` after the refill: `rest` is the loop after the wait.
unfoldable pub take_token :
    Bool → TokenBucket → Option Bool × TokenBucket → Option Bool × TokenBucket
take_token stop b rest =
    if leb b.unit b.tokens
    then (some true, record b { tokens = b.tokens - b.unit })
    else if stop
    then (some false, b)
    else rest

-- The loop of `acquire` from the moment `now` on, over the looks that it takes; no answer where it is still
-- waiting after them.
unfoldable pub look_on : ℕ → List Look → TokenBucket → Option Bool × TokenBucket
unfolding refill take_token wait_ticks
look_on now [] b = (none, b)
look_on now ((late, stop) ∷ looks) b =
    let c = refill (now + late) b in
    let rest = look_on (now + late + wait_ticks c) looks c in take_token stop c rest

-- `acquire`, called at the moment `now`.
unfoldable pub acquire : ℕ → List Look → TokenBucket → Option Bool × TokenBucket
unfolding look_on
acquire now looks b = look_on now looks b

-- The tokens that an answer of `acquire` stands for.
abbrev pub granted : Option Bool → ℕ
granted none = 0
granted (some true) = 1
granted (some false) = 0
