-- ===== src/RpcClient/Attempts.antt =====
-- How the attempts of a call end (rpc/client.py under btc_parser_app).
use bitcoin_data_exporter.Common.{
  ℕ, zero, suc, ◌+◌, ◌-◌, ◌<◌, ◌≡◌, refl, sym, Bool, true, false, arith, ltb, if◌then◌else◌, nat_eq,
  string_eq,
}
use bitcoin_data_exporter.Common.{subst}
use bitcoin_data_exporter.RpcClient.{
  Attempt, succeeded, refused, failed, Outcome, answered, rpc_error, rpc_cli_error, Client, settle,
  wait_before, advance, attempts,
}

module _ {S A : Type 0} (step : S → Attempt A × S) (retry_rpc_errors : Bool) where
  -- An attempt that another one follows, if one is left.
  pub data IsRetried : Attempt A → Type 0 where
    after_failure : IsRetried failed
    after_error : retry_rpc_errors ≡ true → IsRetried refused

  -- The transport after some attempts, and how the next one ends.
  abbrev pub transport_after : ℕ → S → S
  transport_after zero s = s
  transport_after (suc k) s = transport_after k (step s).1

  abbrev pub attempt_after : ℕ → S → Attempt A
  attempt_after k s = (step (transport_after k s)).0

  abbrev pub AllRetried : ℕ → S → Type 0
  AllRetried zero s = Unit
  AllRetried (suc k) s = IsRetried (step s).0 × AllRetried k (step s).1

  -- The client after a number of attempts and a number of waits.
  pub record Counts (attempts waits : ℕ) (c d : Client S) : Type 0 where
    pub transport : d.transport ≡ transport_after attempts c.transport
    pub attempted : d.attempted ≡ c.attempted + attempts
    pub slept : d.slept ≡ c.slept + waits

  -- How a call ends that may make `n` attempts: at the first one that is not retried, or after them all.
  pub data Ends (n : ℕ) (c : Client S) (r : Outcome A × Client S) : Type 0 where
    succeeds :
        (k : ℕ) (a : A)
        → k < n
        → AllRetried k c.transport
        → attempt_after k c.transport ≡ succeeded a
        → r.0 ≡ answered a
        → Counts (suc k) k c r.1
        → Ends n c r
    errs :
        (k : ℕ)
        → k < n
        → AllRetried k c.transport
        → attempt_after k c.transport ≡ refused
        → retry_rpc_errors ≡ false
        → r.0 ≡ rpc_error
        → Counts (suc k) k c r.1
        → Ends n c r
    gives_up : AllRetried n c.transport → r.0 ≡ rpc_cli_error → Counts n (n - 1) c r.1 → Ends n c r

  abbrev advanced : Client S → Client S
  advanced c = advance (step c.transport).1 c

  Counts-later :
      (left m w v : ℕ) (c d : Client S)
      → v ≡ w + (if ltb 0 left then 1 else 0)
      → Counts m w (wait_before left (advanced c)) d
      → Counts (suc m) v c d
  unfolding wait_before
  Counts-later left m w v c d h s = record {
    transport = s.transport;
    attempted = ground (arith, s.attempted);
    slept = ground (arith, s.slept, h);
  }

  Ends-later :
      (left : ℕ) (c : Client S) (r : Outcome A × Client S)
      → IsRetried (step c.transport).0
      → Ends left (wait_before left (advanced c)) r
      → Ends (suc left) c r
  unfolding wait_before
  Ends-later left c r f (succeeds k a less all e o s) =
      succeeds (suc k) a (omega (arith, less)) (f, all) e o
        (Counts-later left (suc k) k (suc k) c r.1 (ground (arith, less)) s)
  Ends-later left c r f (errs k less all e q o s) =
      errs (suc k) (omega (arith, less)) (f, all) e q o
        (Counts-later left (suc k) k (suc k) c r.1 (ground (arith, less)) s)
  Ends-later left c r f (gives_up all o s) =
      gives_up (f, all) o (Counts-later left left (left - 1) (suc left - 1) c r.1 (ground arith) s)

  advanced-Counts : (c : Client S) → Counts 1 0 c (advanced c)
  advanced-Counts c = record { transport = refl; attempted = refl; slept = omega arith }

  settle-Ends :
      (left : ℕ) (c : Client S) (o : Attempt A) (b : Bool) (rest : Outcome A × Client S)
      → (step c.transport).0 ≡ o
      → retry_rpc_errors ≡ b
      → Ends left (wait_before left (advanced c)) rest
      → Ends (suc left) c (settle b o (advanced c) rest)
  unfolding settle
  settle-Ends left c (succeeded a) b rest e q w =
      succeeds 0 a (omega arith) tt e refl (advanced-Counts c)
  settle-Ends left c refused true rest e q w =
      Ends-later left c rest (subst IsRetried (sym e) (after_error q)) w
  settle-Ends left c refused false rest e q w = errs 0 (omega arith) tt e q refl (advanced-Counts c)
  settle-Ends left c failed b rest e q w =
      Ends-later left c rest (subst IsRetried (sym e) after_failure) w

  -- A call ends at the first attempt that is not retried, with what this attempt gives, or after all its
  -- attempts with `RpcCliError`; it waits once between two attempts, and never after the last one.
  pub attempts-Ends : (n : ℕ) (c : Client S) → Ends n c (attempts step retry_rpc_errors n c)
  unfolding attempts
  attempts-Ends zero c =
      gives_up tt refl (record { transport = refl; attempted = omega arith; slept = omega arith })
  attempts-Ends (suc left) c =
      let c' = wait_before left (advanced c) in
      settle-Ends left c (step c.transport).0 retry_rpc_errors
        (attempts step retry_rpc_errors left c') refl refl (attempts-Ends left c')
