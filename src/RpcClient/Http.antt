-- ===== src/RpcClient/Http.antt =====
-- The HTTP transport of rpc/client.py (under btc_parser_app): `_HttpRpcConnection` and `_http_call`.
use bitcoin_data_exporter.Common.{
  ℕ, suc, ◌+◌, String, Bool, true, false, Option, none, some, if◌then◌else◌, is_some, ◌==◌, nat_eq,
  string_eq,
}
use bitcoin_data_exporter.RpcClient.{Attempt, succeeded, refused, failed, Outcome, Client, attempts}

-- The body of a response, as parsing it gives it: no JSON, JSON that is no reply, the node's error, or its
-- result.
pub data Payload (A : Type 0) : Type 0 where
  no_json : Payload A
  no_reply : Payload A
  error_reply : Payload A
  result : A → Payload A

pub record Response (A : Type 0) : Type 0 where
  pub status : ℕ
  pub will_close : Bool
  pub payload : Payload A

-- What one exchange comes to: `broken` is an `OSError` or an `HTTPException`.
pub data Exchange (A : Type 0) : Type 0 where
  broken : Exchange A
  response : Response A → Exchange A

-- What is outside the process, at every moment: the credentials that the cookie file or the environment
-- give, where they can be read, and what a request with some credentials gets.
pub record Wire (A : Type 0) : Type 0 where
  pub credentials : ℕ → Option String
  pub exchange : ℕ → String → Exchange A

-- `_HttpRpcConnection`: the credentials of the open connection, the id of the last request, and the moment.
pub record HttpRpcConnection : Type 0 where
  pub auth : Option String
  pub next_id : ℕ
  pub clock : ℕ

-- How `_roundtrip` ends: without credentials it raises an `_HttpRpcError` itself.
pub data Trip (A : Type 0) : Type 0 where
  unreadable : Trip A
  exchanged : Exchange A → Trip A

abbrev pub close : HttpRpcConnection → HttpRpcConnection
close c = record c { auth = none }

module _ {A : Type 0} (wire : Wire A) where
  unfoldable pub send : String → HttpRpcConnection → Trip A × HttpRpcConnection
  send a c = (
    exchanged (wire.exchange c.clock a),
    record { auth = some a; next_id = c.next_id; clock = c.clock + 1 },
  )

  unfoldable pub connect : Option String → HttpRpcConnection → Trip A × HttpRpcConnection
  unfolding send
  connect none c = (unreadable, (record c { clock = c.clock + 1 }))
  connect (some a) c = send a c

  unfoldable pub use_open : Option String → HttpRpcConnection → Trip A × HttpRpcConnection
  unfolding connect send
  use_open none c = connect (wire.credentials c.clock) c
  use_open (some a) c = send a c

  -- `_roundtrip`
  unfoldable pub roundtrip : HttpRpcConnection → Trip A × HttpRpcConnection
  unfolding use_open
  roundtrip c = use_open c.auth c

  unfoldable pub read_payload : Bool → Payload A → HttpRpcConnection → Attempt A × HttpRpcConnection
  read_payload will_close no_json c = (failed, close c)
  read_payload will_close no_reply c = (failed, close c)
  read_payload will_close error_reply c = (refused, c)
  read_payload will_close (result a) c = (succeeded a, if will_close then close c else c)

  -- From the status of the response on.
  unfoldable pub read_response : Response A → HttpRpcConnection → Attempt A × HttpRpcConnection
  unfolding read_payload
  read_response r c =
      if r.status == 401 then (failed, close c) else read_payload r.will_close r.payload c

  -- The second round trip.
  unfoldable pub last_trip : Trip A × HttpRpcConnection → Attempt A × HttpRpcConnection
  unfolding read_response
  last_trip (unreadable, c) = (failed, c)
  last_trip (exchanged broken, c) = (failed, close c)
  last_trip (exchanged (response r), c) = read_response r c

  -- The first one, on a connection that was open before or not.
  unfoldable pub first_trip : Bool → Trip A × HttpRpcConnection → Attempt A × HttpRpcConnection
  unfolding last_trip roundtrip read_response
  first_trip true (exchanged broken, c) = last_trip (roundtrip (close c))
  first_trip false (exchanged broken, c) = (failed, close c)
  first_trip reused (unreadable, c) = (failed, c)
  first_trip reused (exchanged (response r), c) = read_response r c

  -- `call`
  unfoldable pub call : HttpRpcConnection → Attempt A × HttpRpcConnection
  unfolding first_trip roundtrip
  call c = first_trip (is_some c.auth) (roundtrip (record c { next_id = c.next_id + 1 }))

  -- `_http_call`
  unfoldable pub http_call :
      ℕ → Bool → Client HttpRpcConnection → Outcome A × Client HttpRpcConnection
  unfolding attempts call
  http_call max_cli_retries retry_rpc_errors c =
      attempts call retry_rpc_errors (suc max_cli_retries) c
