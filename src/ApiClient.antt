-- ===== src/ApiClient.antt =====
-- api/client.py (under btc_parser_app): a request to mempool.space with its retries.
pub mod RateLimiter
pub mod Budget
pub mod Waits
use bitcoin_data_exporter.Common.{
  ℕ, zero, suc, ◌+◌, ◌-◌, ◌*◌, ◌≤◌, ◌<◌, min, max, String, ◌≡◌, refl, sym, ap, ◌∙◌, ◌≢◌, ◌⊎◌, inl,
  inr, Bool, true, false, not, ◌&&◌, ◌||◌, Option, none, some, List, [], ◌∷◌, ◌++◌, map, append-nil,
  append_assoc, arith, ltb, leb, if◌then◌else◌, Bool-cases, Option-cases, is_some, or_else, Eq,
  ◌==◌, nat_eq, string_eq, contains, length, is_empty, length-append, filter, All, All-append,
  max_or,
}
use bitcoin_data_exporter.Common.Dict
use bitcoin_data_exporter.Common.Dict.{Dict, dict_laws}
use bitcoin_data_exporter.ApiClient.RateLimiter.{TokenBucket, Look, acquire, granted}

-- A response: its status, and its body as JSON where it is JSON.
pub record Response (J : Type 0) : Type 0 where
  pub status : ℕ
  pub json : Option J

-- One attempt, from outside: the moment that it starts, the looks that `acquire` takes at the bucket, the
-- response or a `RequestException`, and whether the stop event is set in the wait before the next attempt.
pub record Attempt (J : Type 0) : Type 0 where
  pub start : ℕ
  pub looks : List Look
  pub answer : Option (Response J)
  pub stopped : Bool

-- How a request ends. It may also be still waiting for the bucket.
pub data Outcome (A : Type 0) : Type 0 where
  fetched : A → Outcome A
  rate_limited : Outcome A
  fetch_error : Outcome A
  waiting : Outcome A

-- The bucket, and how many requests were sent.
pub record Client : Type 0 where
  pub rate_limiter : TokenBucket
  pub sent : ℕ

module _ {J : Type 0} where
  -- After a request was sent, with `left` more attempts.
  unfoldable pub after_get :
      ℕ
      → Bool
      → Option (Response J)
      → Client
      → Outcome (Response J) × Client
      → Outcome (Response J) × Client
  after_get left stopped (some r) c rest = (fetched r, c)
  after_get zero stopped none c rest = (fetch_error, c)
  after_get (suc left) stopped none c rest = if stopped then (fetch_error, c) else rest

  unfoldable pub after_acquire :
      ℕ
      → Attempt J
      → Option Bool × Client
      → Outcome (Response J) × Client
      → Outcome (Response J) × Client
  unfolding after_get
  after_acquire left a (none, c) rest = (waiting, c)
  after_acquire left a (some false, c) rest = (fetch_error, c)
  after_acquire left a (some true, c) rest = after_get left a.stopped a.answer c rest

  -- `self.rate_limiter.acquire(self.stop_event)`, and the request where it has got a token.
  unfoldable pub request : Attempt J → Client → Option Bool × Client
  unfolding acquire
  request a c =
      let r = acquire a.start a.looks c.rate_limiter in
      (r.0, record { rate_limiter = r.1; sent = c.sent + granted r.0 })

  -- `for attempt in range(self.max_connection_retries + 1)`, by the attempts that are left.
  unfoldable pub attempts : ℕ → ℕ → (ℕ → Attempt J) → Client → Outcome (Response J) × Client
  unfolding request after_acquire
  attempts zero k outside c = (fetch_error, c)
  attempts (suc left) k outside c =
      let r = request (outside k) c in
      let rest = attempts left (k + 1) outside r.1 in after_acquire left (outside k) r rest

  -- `_get_with_retry`
  unfoldable pub get_with_retry : ℕ → (ℕ → Attempt J) → Client → Outcome (Response J) × Client
  unfolding attempts
  get_with_retry max_connection_retries outside c =
      attempts (suc max_connection_retries) 0 outside c

  unfoldable pub decode : Option J → Outcome J
  decode none = fetch_error
  decode (some j) = fetched j

  unfoldable pub read_response : Outcome (Response J) × Client → Outcome J × Client
  unfolding decode
  read_response (fetched r, c) = (
    if r.status == 429
        then rate_limited
        else if r.status == 200
        then decode r.json
        else fetch_error,
    c,
  )
  read_response (rate_limited, c) = (rate_limited, c)
  read_response (fetch_error, c) = (fetch_error, c)
  read_response (waiting, c) = (waiting, c)

  -- `get_json`
  unfoldable pub get_json : ℕ → (ℕ → Attempt J) → Client → Outcome J × Client
  unfolding get_with_retry read_response
  get_json max_connection_retries outside c =
      read_response (get_with_retry max_connection_retries outside c)
