-- ===== src/Tests/Parser.antt =====
-- Runs of the code of rpc/block_parser.py (under btc_parser_app) on small blocks.
use bitcoin_data_exporter.Common.{
  ℕ, ◌+◌, ◌*◌, ◌≤◌, String, ◌≡◌, refl, true, false, none, some, List, [], ◌∷◌, arith, leb, nat_eq,
  string_eq, pair_eq, All,
}
use bitcoin_data_exporter.Common.{ℤ, ◌/◌, ◌^◌, returned, raised, runtime_error, difference}
use bitcoin_data_exporter.CsvWriter.{Csv}
use bitcoin_data_exporter.Catchup.{BlockEvent}
use bitcoin_data_exporter.Ingest.Exports.{CoversPass, cycle-IsCovered}
use bitcoin_data_exporter.Ingest.Pass.{cycle}
use bitcoin_data_exporter.Tests.Passes.{
  config, hash_at, was_exported, daemon, daemon-IsCovered, index_size,
}
use bitcoin_data_exporter.BlockParser.{
  sum, Amount, Vin, Vout, Tx, Block, ParserConfig, Floats, to_sats, decode_sequence, LocktimeType,
}
use bitcoin_data_exporter.BlockParser.Pools.{PoolEntry, pool_matcher, match, coinbase_hex_to_ascii}
use bitcoin_data_exporter.BlockParser.Pools.Precedence.{Picks, match-Picks}
use bitcoin_data_exporter.BlockParser.Transaction.{FeeSource, aggregate_transaction}
use bitcoin_data_exporter.BlockParser.Totals.{regular_txs}
use bitcoin_data_exporter.BlockParser.Aggregate.{aggregate_block}
use bitcoin_data_exporter.BlockParser.Parsed.{Row, RawNode, parsing, parsing-IsHonest}
use bitcoin_data_exporter.BlockParser.Rows.{IsRecomputed, aggregate_transaction-IsRecomputed}
use bitcoin_data_exporter.BlockParser.Fees.{fees-balance}
use bitcoin_data_exporter.BlockParser.Values.{
  to_sats-IsNearest, to_sats-exact, decode_sequence-sequence_of, sequence_of,
}
use bitcoin_data_exporter.BlockParser.Supply.{supply, supply-le}

-- Floats cut to natural numbers.
abbrev cut : ℤ → ℕ → ℕ
cut (ℤ.pos a) n = a / n
cut (ℤ.negsuc a) n = 0

instance floats : Floats ℕ
floats = record {
  nought = 0;
  ratio = cut;
  add = λ a b. a + b;
  sum_of = sum;
  divide = λ a n. a / n;
  times = λ a n. a * n;
  at_most = leb;
}

instance csv_row : Csv (Row ℕ ℕ)
csv_row = record { header_bytes = 6; row_bytes = λ _. 3; header_pos = omega arith }

instance csv_block : Csv (BlockEvent (Row ℕ ℕ))
csv_block = record { header_bytes = 6; row_bytes = λ _. 3; header_pos = omega arith }

abbrev parser : ParserConfig
parser = record {
  blocks_per_day = 144;
  max_block_weight = 4000000;
  halving_interval_blocks = 210000;
  initial_subsidy_sats = 5000000000;
}

abbrev coinbase_vin : Vin
coinbase_vin = record {
  coinbase = some "2f50";
  txid = none;
  vout = none;
  script_sig_hex = none;
  txinwitness = "00" ∷ [];
  sequence = some 4294967295;
  prevout = none;
}

abbrev spending_vin : Vin
spending_vin = record {
  coinbase = none;
  txid = some "t";
  vout = some 0;
  script_sig_hex = some "0102";
  txinwitness = [];
  sequence = some 4294967293;
  prevout = some (record {
    generated = some true;
    value = some (record { digits = 3; places = 8 });
    height = some 1;
    script_type = some "pubkeyhash";
    address = some "a";
  });
}

abbrev vout_of : ℕ → String → Vout
vout_of n t = record {
  value = some (record { digits = n; places = 8 });
  script_hex = some "6a";
  script_type = some t;
  address = some "a";
}

abbrev tx_of : Vin → Vout → Tx
tx_of vin vout = record {
  txid = "u";
  hash = "u";
  version = some 2;
  size = some 100;
  vsize = some 100;
  weight = some 400;
  locktime = some 0;
  fee = none;
  vin = vin ∷ [];
  vout = vout ∷ [];
}

abbrev block : Block ℕ
block = record {
  hash = "b";
  height = 5;
  time = 20;
  previousblockhash = some "g";
  weight = some 800;
  copied = 0;
  tx =
      tx_of coinbase_vin (vout_of 50 "pubkeyhash") ∷ tx_of spending_vin (vout_of 2 "nulldata") ∷ [];
}

aggregate_transaction-IsRecomputed_example :
    let a =
      aggregate_transaction {F = ℕ} parser "b" 5 20 1 (tx_of spending_vin (vout_of 2 "nulldata")) in
    IsRecomputed parser a.event a.input_events a.output_events
aggregate_transaction-IsRecomputed_example =
    aggregate_transaction-IsRecomputed parser "b" 5 20 1 (tx_of spending_vin (vout_of 2 "nulldata"))

derived :
    All
      (λ e. e.fee_source ≡ FeeSource.derived)
      (regular_txs (aggregate_block {F = ℕ} parser none block).tx_events)
unfolding aggregate_block string_eq nat_eq
derived = (refl, tt)

fees-balance_example :
    let c = (aggregate_block {F = ℕ} parser none block).block_event.columns in
    (c.total_fees_sats
      ≡ difference c.regular.regular_input_value_sats c.regular.regular_output_value_sats)
    × (c.fee_known_tx_count ≡ c.regular_tx_count)
    × (c.fee_unknown_tx_count ≡ 0)
fees-balance_example = fees-balance ℕ parser none block derived

-- 0.123456789: more places than an amount has.
abbrev amount : Amount
amount = record { digits = 123456789; places = 9 }

to_sats-IsNearest_example :
    (2 * (123456789 * 10 ^ 8) ≤ 2 * (to_sats amount * 10 ^ 9) + 10 ^ 9)
    × (2 * (to_sats amount * 10 ^ 9) ≤ 2 * (123456789 * 10 ^ 8) + 10 ^ 9)
to_sats-IsNearest_example = to_sats-IsNearest amount (omega arith)

abbrev sent : Amount
sent = record { digits = 125; places = 3 }

to_sats-exact_example : to_sats sent * 10 ^ 3 ≡ 125 * 10 ^ 8
to_sats-exact_example = to_sats-exact sent (omega arith) (omega arith)

decode_sequence-sequence_of_example :
    decode_sequence (some (sequence_of LocktimeType.time 3 5 77)) (some 2) false
    ≡ (true, some (LocktimeType.time, 77))
decode_sequence-sequence_of_example =
    decode_sequence-sequence_of LocktimeType.time 3 5 77 2 (omega arith) (omega arith) (omega arith)
      (omega arith)

supply-le_example : supply 2 50 9 ≤ 2 * (2 * 50)
supply-le_example = supply-le 2 50 (omega arith) 9

abbrev pools : List PoolEntry
pools =
    record {
      id = some 1;
      name = some "P";
      link = none;
      tags = "/Q" ∷ "/P" ∷ [];
      addresses = "a" ∷ [];
    }
    ∷ []

match-Picks_example :
    Picks
      (coinbase_hex_to_ascii (some "2f50"))
      ("a" ∷ [])
      (pool_matcher pools)
      (match (some "2f50") ("a" ∷ []) (pool_matcher pools))
match-Picks_example = match-Picks (some "2f50") ("a" ∷ []) (pool_matcher pools)

abbrev raw : RawNode ℕ
raw = record {
  block_count = λ t. returned 1;
  block_hash = λ t n. returned (hash_at n);
  header_time = λ t h. returned 10;
  block = λ t h. returned block;
  worker_hash = λ n. returned (hash_at n);
  worker_block = λ h. raised runtime_error;
  stopping = λ n. false;
}

-- A pass over the blocks of the parser.
parsed_pass_test :
    CoversPass was_exported
      (cycle (parsing parser (some (pool_matcher pools)) raw) config (daemon {R = Row ℕ ℕ}))
parsed_pass_test =
    cycle-IsCovered was_exported (parsing parser (some (pool_matcher pools)) raw)
      (parsing-IsHonest parser (some (pool_matcher pools)) raw) config daemon
      (daemon-IsCovered (Row ℕ ℕ))
