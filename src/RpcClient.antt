-- ===== src/RpcClient.antt =====
-- rpc/client.py (under btc_parser_app): a call of the node over bitcoin-cli or over HTTP, with retries. This
-- file has the loop that both transports go through, and bitcoin-cli.
pub mod Http
pub mod Attempts
pub mod Rotation
use bitcoin_data_exporter.Common.{
  ℕ, zero, suc, ◌+◌, ◌-◌, ◌*◌, ◌≤◌, ◌<◌, min, max, String, ◌≡◌, refl, sym, ap, ◌∙◌, ◌≢◌, ◌⊎◌, inl,
  inr, Bool, true, false, not, ◌&&◌, ◌||◌, Option, none, some, List, [], ◌∷◌, ◌++◌, map, append-nil,
  append_assoc, arith, ltb, leb, if◌then◌else◌, Bool-cases, Option-cases, is_some, or_else, Eq,
  ◌==◌, nat_eq, string_eq, contains, length, is_empty, length-append, filter, All, All-append,
  max_or,
}
use bitcoin_data_exporter.Common.Dict
use bitcoin_data_exporter.Common.Dict.{Dict, dict_laws}

-- How one attempt ends: with a value, with an error that the node answers with, or with no answer that
-- counts.
pub data Attempt (A : Type 0) : Type 0 where
  succeeded : A → Attempt A
  refused : Attempt A
  failed : Attempt A

-- What the caller gets: `RpcError` where the node's own error is not to be retried, and `RpcCliError` after
-- the last attempt.
pub data Outcome (A : Type 0) : Type 0 where
  answered : A → Outcome A
  rpc_error : Outcome A
  rpc_cli_error : Outcome A

-- What lives across the attempts of a call, how many attempts were made, and how many waits there were
-- between them.
pub record Client (S : Type 0) : Type 0 where
  pub transport : S
  pub attempted : ℕ
  pub slept : ℕ

-- `if attempt < config.max_cli_retries`, by the attempts that are left.
unfoldable pub wait_before : {S : Type 0} → ℕ → Client S → Client S
wait_before left c = record c { slept = if ltb 0 left then c.slept + 1 else c.slept }

-- One more attempt was made.
abbrev pub advance : {S : Type 0} → S → Client S → Client S
advance s c = record { transport = s; attempted = c.attempted + 1; slept = c.slept }

module _ {S A : Type 0} where
  -- The way on from an attempt: `rest` is what the attempts after it give.
  unfoldable pub settle : Bool → Attempt A → Client S → Outcome A × Client S → Outcome A × Client S
  settle retry_rpc_errors (succeeded a) c rest = (answered a, c)
  settle true refused c rest = rest
  settle false refused c rest = (rpc_error, c)
  settle retry_rpc_errors failed c rest = rest

  -- `for attempt in range(config.max_cli_retries + 1)`, by the attempts that are left.
  unfoldable pub attempts : (S → Attempt A × S) → Bool → ℕ → Client S → Outcome A × Client S
  unfolding settle wait_before
  attempts step retry_rpc_errors zero c = (rpc_cli_error, c)
  attempts step retry_rpc_errors (suc left) c =
      let (o, s) = step c.transport in
      let rest = attempts step retry_rpc_errors left (wait_before left (advance s c)) in
      settle retry_rpc_errors o (advance s c) rest

-- How a run of bitcoin-cli ends: with its output, with an exit code and an "error code:" on stderr or
-- without one, by its time limit, or unable to start.
pub data CliRun : Type 0 where
  completed : String → CliRun
  exited : Bool → CliRun
  timed_out : CliRun
  os_error : CliRun

-- `_is_rpc_error` tells the two failures apart.
unfoldable pub attempt_of : CliRun → Attempt String
attempt_of (completed out) = succeeded out
attempt_of (exited true) = refused
attempt_of (exited false) = failed
attempt_of timed_out = failed
attempt_of os_error = failed

-- One run; the runs are numbered from the start of the process.
unfoldable pub run_once : (ℕ → CliRun) → ℕ → Attempt String × ℕ
unfolding attempt_of
run_once runs n = (attempt_of (runs n), n + 1)

-- `run_cli`
unfoldable pub run_cli : (ℕ → CliRun) → ℕ → Bool → Client ℕ → Outcome String × Client ℕ
unfolding attempts run_once
run_cli runs max_cli_retries retry_rpc_errors c =
    attempts (run_once runs) retry_rpc_errors (suc max_cli_retries) c
