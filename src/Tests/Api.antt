-- ===== src/Tests/Api.antt =====
-- Requests of api/client.py (under btc_parser_app) with a small bucket.
use bitcoin_data_exporter.Common.{
  ℕ, zero, suc, ◌≡◌, refl, false, Option, none, some, [], ◌∷◌, nat_eq, string_eq,
}
use bitcoin_data_exporter.ApiClient.RateLimiter.{TokenBucket, token_bucket}
use bitcoin_data_exporter.ApiClient.{Attempt, Response, fetched, Client, get_json}

-- A token has sixty parts; two fit, and a tick brings one part.
abbrev bucket : TokenBucket
bucket = record { unit = 60; rate = 1; capacity = 120; tokens = 70; last_refill = 100 }

abbrev answer : Option (Response ℕ)
answer = some (record { status = 200; json = some 7 })

-- The first request fails, the second one has to wait for its token.
abbrev outside : ℕ → Attempt ℕ
outside zero = record { start = 110; looks = (0, false) ∷ []; answer = none; stopped = false }
outside (suc k) = record {
  start = 111;
  looks = (0, false) ∷ (1, false) ∷ [];
  answer = answer;
  stopped = false;
}

abbrev client : Client
client = record { rate_limiter = bucket; sent = 0 }

get_json_test : (get_json 1 outside client).0 ≡ fetched 7
unfolding get_json nat_eq
get_json_test = refl

token_bucket_test : token_bucket 60 1 0 100 ≡ none
unfolding token_bucket nat_eq
token_bucket_test = refl

abbrev empty_bucket : TokenBucket
empty_bucket = record { unit = 60; rate = 1; capacity = 120; tokens = 0; last_refill = 100 }
