-- ===== src/BlockParser/Transaction.antt =====
-- `aggregate_transaction` of rpc/block_parser.py (under btc_parser_app): the row of a transaction.
use bitcoin_data_exporter.Common.{
  ℕ, ◌*◌, min, max, String, Bool, true, false, not, ◌&&◌, ◌||◌, Option, none, some, List, [], ◌∷◌,
  ltb, is_some, ◌==◌, nat_eq, string_eq, length,
}
use bitcoin_data_exporter.Common.Dict.{Dict}
use bitcoin_data_exporter.Common.{ℤ, difference}
use bitcoin_data_exporter.BlockParser.{Vin, Tx, ParserConfig, Floats, sum, btc_to_sats}
use bitcoin_data_exporter.BlockParser.Inputs.{
  TxKey, InputEvent, InputTotals, no_inputs, loop_inputs,
}
use bitcoin_data_exporter.BlockParser.Outputs.{OutputEvent, OutputTotals, no_outputs, loop_outputs}

pub data FeeSource : Type 0 where
  coinbase : FeeSource
  rpc : FeeSource
  derived : FeeSource
  unavailable : FeeSource

-- A row of transactions.csv.
pub record TxEvent (F : Type 0) : Type 0 where
  pub key : TxKey
  pub wtxid : Option String
  pub version : Option ℕ
  pub size : Option ℕ
  pub vsize : Option ℕ
  pub weight : Option ℕ
  pub locktime : Option ℕ
  pub fee_sats : Option ℤ
  pub fee_source : FeeSource
  pub fee_rate_sat_vb : Option F
  pub input_value_sats : Option ℕ
  pub output_value_sats : ℕ
  pub output_value_min_sats : Option ℕ
  pub output_value_max_sats : Option ℕ
  pub output_value_avg_sats : Option F
  pub vin_count : ℕ
  pub vout_count : ℕ
  pub prevout_value_known_count : ℕ
  pub prevout_height_known_count : ℕ
  pub generated_input_count : ℕ
  pub input_age_min_blocks : Option ℕ
  pub input_age_max_blocks : Option ℕ
  pub input_age_avg_blocks : Option F
  pub input_age_value_weighted_avg_blocks : Option F
  pub coin_days_destroyed_btc : F
  pub witness_input_count : ℕ
  pub witness_item_count : ℕ
  pub witness_data_bytes : ℕ
  pub scriptsig_bytes : ℕ
  pub scriptpubkey_bytes : ℕ
  pub signals_rbf : Bool
  pub op_return_count : ℕ
  pub op_return_script_bytes : ℕ
  pub zero_value_output_count : ℕ
  pub vin_type_counts : Dict String ℕ
  pub vout_type_counts : Dict String ℕ

pub record TransactionAggregate (F : Type 0) : Type 0 where
  pub event : TxEvent F
  pub coinbase_script_sig_hex : Option String
  pub coinbase_output_addresses : List String
  pub input_events : List InputEvent
  pub output_events : List OutputEvent

-- `bool(vins and vins[0].get("coinbase") is not None)`
unfoldable pub is_coinbase_of : List Vin → Bool
is_coinbase_of [] = false
is_coinbase_of (vin ∷ vins) = is_some vin.coinbase

unfoldable pub script_sig_of : List Vin → Option String
script_sig_of [] = none
script_sig_of (vin ∷ vins) = vin.coinbase

unfoldable pub min_of : List ℕ → Option ℕ
min_of [] = none
min_of (n ∷ ns) = some (elim (min_of ns) [ none ↦ n | some m ↦ min n m ])

unfoldable pub max_of : List ℕ → Option ℕ
max_of [] = none
max_of (n ∷ ns) = some (elim (max_of ns) [ none ↦ n | some m ↦ max n m ])

abbrev pub products : List (ℕ × ℕ) → List ℕ
products [] = []
products ((a, v) ∷ ps) = (a * v) ∷ products ps

abbrev pub seconds : List (ℕ × ℕ) → List ℕ
seconds [] = []
seconds ((_, v) ∷ ps) = v ∷ seconds ps

abbrev pub or_nought : Option ℕ → ℕ
or_nought none = 0
or_nought (some n) = n

abbrev pub only_if : {A : Type 0} → Bool → A → Option A
only_if true a = some a
only_if false a = none

-- The fee and where it comes from.
unfoldable pub fee_of : Bool → Option ℕ → Bool → ℕ → ℕ → Option ℤ × FeeSource
fee_of true rpc_fee complete value_in value_out = (some (ℤ.pos 0), coinbase)
fee_of false (some fee) complete value_in value_out = (some (ℤ.pos fee), rpc)
fee_of false none true value_in value_out = (some (difference value_in value_out), derived)
fee_of false none false value_in value_out = (none, unavailable)

unfoldable pub key_of : String → ℕ → ℕ → ℕ → Tx → TxKey
unfolding is_coinbase_of
key_of block_hash block_height block_time tx_index tx = record {
  block_hash = block_hash;
  block_height = block_height;
  block_time = block_time;
  tx_index = tx_index;
  txid = tx.txid;
  is_coinbase = is_coinbase_of tx.vin;
}

module _ {F : Type 0} ⦃fl : Floats F⦄ where
  -- The mean of integers, where there is one.
  unfoldable pub mean : List ℕ → Option F
  mean [] = none
  mean (n ∷ ns) = some (fl.ratio (ℤ.pos (sum (n ∷ ns))) (length (n ∷ ns)))

  unfoldable pub fee_rate : Option ℤ → ℕ → Bool → Option F
  fee_rate none vsize is_coinbase = none
  fee_rate (some fee) vsize is_coinbase =
      only_if (ltb 0 vsize && not is_coinbase) (fl.ratio fee vsize)

  unfoldable pub weighted_age : List (ℕ × ℕ) → Option F
  weighted_age pairs =
      only_if (ltb 0 (sum (seconds pairs)))
        (fl.ratio (ℤ.pos (sum (products pairs))) (sum (seconds pairs)))

  unfoldable pub coin_days : ParserConfig → List (ℕ × ℕ) → F
  coin_days config [] = fl.nought
  coin_days config (p ∷ ps) =
      fl.divide (fl.ratio (ℤ.pos (sum (products (p ∷ ps)))) config.blocks_per_day) 100000000

  -- The row, from what the two loops have summed up.
  unfoldable pub tx_event : ParserConfig → TxKey → Tx → InputTotals → OutputTotals → TxEvent F
  unfolding fee_of btc_to_sats min_of max_of mean fee_rate weighted_age coin_days
  tx_event config key tx i o =
      let value_in = sum i.known_values in
      let value_out = sum o.values in
      let complete = key.is_coinbase || i.value_known_count == length tx.vin in
      let (fee, source) = fee_of key.is_coinbase (btc_to_sats tx.fee) complete value_in value_out in
      record {
        key = key;
        wtxid = only_if (not (tx.hash == tx.txid)) tx.hash;
        version = tx.version;
        size = tx.size;
        vsize = tx.vsize;
        weight = tx.weight;
        locktime = tx.locktime;
        fee_sats = fee;
        fee_source = source;
        fee_rate_sat_vb = fee_rate fee (or_nought tx.vsize) key.is_coinbase;
        input_value_sats = only_if (not key.is_coinbase) value_in;
        output_value_sats = value_out;
        output_value_min_sats = min_of o.values;
        output_value_max_sats = max_of o.values;
        output_value_avg_sats = mean o.values;
        vin_count = length tx.vin;
        vout_count = length tx.vout;
        prevout_value_known_count = i.value_known_count;
        prevout_height_known_count = i.height_known_count;
        generated_input_count = i.generated_count;
        input_age_min_blocks = min_of i.ages;
        input_age_max_blocks = max_of i.ages;
        input_age_avg_blocks = mean i.ages;
        input_age_value_weighted_avg_blocks = weighted_age i.age_value_pairs;
        coin_days_destroyed_btc = coin_days config i.age_value_pairs;
        witness_input_count = i.witness_input_count;
        witness_item_count = i.witness_item_count;
        witness_data_bytes = i.witness_data_bytes;
        scriptsig_bytes = i.scriptsig_bytes;
        scriptpubkey_bytes = o.scriptpubkey_bytes;
        signals_rbf = i.signals_rbf;
        op_return_count = o.op_return_count;
        op_return_script_bytes = o.op_return_script_bytes;
        zero_value_output_count = o.zero_value_count;
        vin_type_counts = i.vin_type_counts;
        vout_type_counts = o.vout_type_counts;
      }

  -- `aggregate_transaction`
  unfoldable pub aggregate_transaction :
      ParserConfig → String → ℕ → ℕ → ℕ → Tx → TransactionAggregate F
  unfolding key_of loop_inputs no_inputs loop_outputs no_outputs tx_event script_sig_of
  aggregate_transaction config block_hash block_height block_time tx_index tx =
      let key = key_of block_hash block_height block_time tx_index tx in
      let i = loop_inputs key tx.version 0 tx.vin no_inputs in
      let o = loop_outputs key 0 tx.vout no_outputs in
      record {
        event = tx_event config key tx i o;
        coinbase_script_sig_hex = script_sig_of tx.vin;
        coinbase_output_addresses = o.coinbase_addresses;
        input_events = i.events;
        output_events = o.events;
      }
