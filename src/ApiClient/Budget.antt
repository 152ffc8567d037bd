-- ===== src/ApiClient/Budget.antt =====
-- How many requests the token bucket lets through (api/rate_limiter.py and api/client.py under btc_parser_app).
use bitcoin_data_exporter.Common.{ℕ, ◌+◌, ◌*◌, ◌≤◌, ◌≡◌, List, [], ◌∷◌, nat_eq, string_eq}
use bitcoin_data_exporter.ApiClient.RateLimiter.{TokenBucket}
use bitcoin_data_exporter.ApiClient.{Attempt, Client, get_json}

module _ (unit rate : ℕ) where
  -- From `b` to `c` the bucket has given `n` tokens, out of what it had and what time has brought.
  record IsWithin (n : ℕ) (b c : TokenBucket) : Type 0 where
    same_unit : c.unit ≡ unit
    same_rate : c.rate ≡ rate
    later : b.last_refill ≤ c.last_refill
    spent : n * unit + c.tokens + b.last_refill * rate ≤ b.tokens + c.last_refill * rate

  -- The same of a client: the requests that it has sent are the tokens that it was given.
  record IsPaid (c d : Client) : Type 0 where
    requests : ℕ
    sent : d.sent ≡ c.sent + requests
    within : IsWithin requests c.rate_limiter d.rate_limiter

  abbrev IsReady : Client → Type 0
  IsReady c = (c.rate_limiter.unit ≡ unit) × (c.rate_limiter.rate ≡ rate)

-- Calls of `get_json` one after the other, each with what happens to it.
unfoldable pub calls : {J : Type 0} → ℕ → List (ℕ → Attempt J) → Client → Client
unfolding get_json
calls max_connection_retries [] c = c
calls max_connection_retries (o ∷ os) c =
    calls max_connection_retries os (get_json max_connection_retries o c).1
