-- ===== src/RpcClient/Rotation.antt =====
-- A node that restarts with new credentials (rpc/client.py under btc_parser_app).
use bitcoin_data_exporter.Common.{
  ℕ, zero, suc, ◌+◌, ◌≤◌, String, ◌≡◌, refl, sym, ap, ◌∙◌, ◌⊎◌, inl, inr, Bool, true, false, Option,
  none, some, arith, Bool-cases, ◌==◌, nat_eq, string_eq,
}
use bitcoin_data_exporter.Common.{subst}
use bitcoin_data_exporter.RpcClient.{
  succeeded, failed, answered, Client, settle, wait_before, advance, attempts,
}
use bitcoin_data_exporter.RpcClient.Http.{
  Payload, result, broken, response, Wire, HttpRpcConnection, call, http_call, roundtrip, use_open,
  connect, send, first_trip, last_trip, read_response, read_payload,
}

-- The node is up again: its cookie file has the new credentials, with which a request gets its result; with
-- others a connection is dropped or the request is not authorized.
pub record IsRestarted {A : Type 0} (wire : Wire A) (new : String) (a : A) : Type 0 where
  pub readable : (t : ℕ) → wire.credentials t ≡ some new
  pub accepts :
      (t : ℕ) (auth : String)
      → (auth == new) ≡ true
      → (will_close : Bool) × (wire.exchange t auth
          ≡ response (record { status = 200; will_close = will_close; payload = result a }))
  pub rejects :
      (t : ℕ) (auth : String)
      → (auth == new) ≡ false
      → (wire.exchange t auth ≡ broken)
        ⊎ ((will_close : Bool) × (payload : Payload A) × (wire.exchange t auth
              ≡ response (record { status = 401; will_close = will_close; payload = payload })))

module _ {A : Type 0} (wire : Wire A) (new : String) (a : A) (up : IsRestarted wire new a) where
  same : (new == new) ≡ true
  same = ground arith

  call-closed :
      (n t : ℕ) → (call wire (record { auth = none; next_id = n; clock = t })).0 ≡ succeeded a
  unfolding call first_trip roundtrip use_open connect send read_response read_payload nat_eq
  call-closed n t = let (w, e) = up.accepts t new same in simp (up.readable t, e) refl

  -- On an open connection the first call gets the result, or closes the connection.
  call-open :
      (auth : String) (n t : ℕ)
      → let r = call wire (record { auth = some auth; next_id = n; clock = t }) in
        (r.0 ≡ succeeded a) ⊎ ((r.0 ≡ failed) × (r.1.auth ≡ none))
  unfolding call first_trip last_trip roundtrip use_open connect send read_response read_payload
      nat_eq
  call-open auth n t = elim (Bool-cases (auth == new)) [
    | inl e ↦ let (w, x) = up.accepts t auth e in inl (simp x refl)
    | inr e ↦ elim (up.rejects t auth e) [
      | inl x ↦
          let (w, y) = up.accepts (t + 1) new same in inl (simp (x, up.readable (t + 1), y) refl)
      | inr (w, p, x) ↦ inr (simp x refl, simp x refl)
    ]
  ]

  attempts-first :
      (retry_rpc_errors : Bool) (left : ℕ) (c : Client HttpRpcConnection)
      → (call wire c.transport).0 ≡ succeeded a
      → (attempts (call wire) retry_rpc_errors (suc left) c).0 ≡ answered a
  unfolding attempts settle
  attempts-first retry_rpc_errors left c e = simp e refl

  attempts-next :
      (retry_rpc_errors : Bool) (left : ℕ) (c : Client HttpRpcConnection)
      → (call wire c.transport).0 ≡ failed
      → attempts (call wire) retry_rpc_errors (suc left) c
        ≡ attempts
            (call wire)
            retry_rpc_errors
            left
            (wait_before left (advance (call wire c.transport).1 c))
  unfolding attempts settle
  attempts-next retry_rpc_errors left c e = simp e refl

  call-none : (c : HttpRpcConnection) → c.auth ≡ none → (call wire c).0 ≡ succeeded a
  call-none c e =
      subst
        (λ o.
          (call wire (record { auth = o; next_id = c.next_id; clock = c.clock })).0 ≡ succeeded a)
        (sym e) (call-closed c.next_id c.clock)

  call-cases :
      (auth : Option String) (n t : ℕ)
      → let r = call wire (record { auth = auth; next_id = n; clock = t }) in
        (r.0 ≡ succeeded a) ⊎ ((r.0 ≡ failed) × (r.1.auth ≡ none))
  call-cases none n t = inl (call-closed n t)
  call-cases (some auth) n t = call-open auth n t

  -- A node that has come back with new credentials costs a call one retry at most: whatever connection is
  -- open, a call that may be retried gets its result.
  pub http_call-recovers :
      (max_cli_retries : ℕ) (retry_rpc_errors : Bool) (c : Client HttpRpcConnection)
      → 1 ≤ max_cli_retries
      → (http_call wire max_cli_retries retry_rpc_errors c).0 ≡ answered a
  unfolding http_call wait_before
  http_call-recovers zero retry_rpc_errors c h = absurd (omega (arith, h))
  http_call-recovers (suc m) retry_rpc_errors c h =
      let c' = wait_before (suc m) (advance (call wire c.transport).1 c) in
      elim (call-cases c.transport.auth c.transport.next_id c.transport.clock) [
        | inl e ↦ attempts-first retry_rpc_errors (suc m) c e
        | inr (e, closed) ↦
            ap (λ r. r.0) (attempts-next retry_rpc_errors (suc m) c e)
            ∙ attempts-first retry_rpc_errors m c' (call-none (call wire c.transport).1 closed)
      ]
