-- ===== src/ApiClient/Waits.antt =====
-- How long `acquire` waits (api/rate_limiter.py under btc_parser_app).
use bitcoin_data_exporter.Common.{ℕ, ◌+◌, ◌-◌, ◌*◌, min, ◌≡◌, nat_eq, string_eq}
use bitcoin_data_exporter.ApiClient.RateLimiter.{TokenBucket}

-- A bucket after a refill.
record IsRefilled (now : ℕ) (b c : TokenBucket) : Type 0 where
  same_unit : c.unit ≡ b.unit
  same_rate : c.rate ≡ b.rate
  same_capacity : c.capacity ≡ b.capacity
  at : c.last_refill ≡ now
  gained : c.tokens ≡ min b.capacity (b.tokens + (now - b.last_refill) * b.rate)
