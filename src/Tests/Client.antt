-- ===== src/Tests/Client.antt =====
-- Calls of rpc/client.py (under btc_parser_app) on small answers.
use bitcoin_data_exporter.Common.{
  ℕ, zero, suc, ◌≡◌, refl, inl, true, false, some, arith, if◌then◌else◌, ◌==◌, nat_eq, string_eq,
}
use bitcoin_data_exporter.RpcClient.{
  answered, Client, CliRun, completed, exited, timed_out, run_once, attempts,
}
use bitcoin_data_exporter.RpcClient.Http.{
  result, broken, response, Wire, HttpRpcConnection, http_call,
}
use bitcoin_data_exporter.RpcClient.Attempts.{Ends, attempts-Ends}
use bitcoin_data_exporter.RpcClient.Rotation.{IsRestarted, http_call-recovers}

-- A time-out, an error of the node, then an answer.
abbrev runs : ℕ → CliRun
runs zero = timed_out
runs (suc zero) = exited true
runs (suc (suc n)) = completed "7"

abbrev client : {S : Type 0} → S → Client S
client s = record { transport = s; attempted = 0; slept = 0 }

attempts-Ends_example :
    Ends (run_once runs) true 4 (client 0) (attempts (run_once runs) true 4 (client 0))
attempts-Ends_example = attempts-Ends (run_once runs) true 4 (client 0)

attempts_test : (attempts (run_once runs) true 4 (client 0)).0 ≡ answered "7"
unfolding attempts run_once
attempts_test = refl

-- A node that drops connections with other credentials than the new ones.
abbrev wire : Wire ℕ
wire = record {
  credentials = λ t. some "new";
  exchange = λ t auth.
      if auth == "new"
      then response (record { status = 200; will_close = false; payload = result 7 })
      else broken;
}

wire-IsRestarted : IsRestarted wire "new" 7
wire-IsRestarted = record {
  readable = λ t. refl;
  accepts = λ t auth e. (false, simp e refl);
  rejects = λ t auth e. inl (simp e refl);
}

-- The connection was opened before the restart.
abbrev connection : HttpRpcConnection
connection = record { auth = some "old"; next_id = 3; clock = 3 }

http_call-recovers_example : (http_call wire 1 false (client connection)).0 ≡ answered 7
http_call-recovers_example =
    http_call-recovers wire "new" 7 wire-IsRestarted 1 false (client connection) (omega arith)
