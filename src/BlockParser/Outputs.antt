-- ===== src/BlockParser/Outputs.antt =====
-- The second loop of `aggregate_transaction` of rpc/block_parser.py (under btc_parser_app): a row for each
-- output, and what is summed up on the way.
use bitcoin_data_exporter.Common.{
  ℕ, ◌+◌, String, Bool, true, false, Option, none, some, List, [], ◌∷◌, ◌++◌, if◌then◌else◌, ◌==◌,
  nat_eq, string_eq,
}
use bitcoin_data_exporter.Common.Dict.{Dict}
use bitcoin_data_exporter.BlockParser.{
  Vout, btc_to_sats, hex_data_bytes, normalized_script_type, init_script_type_counts, count_type,
}
use bitcoin_data_exporter.BlockParser.Inputs.{TxKey, append_known, one_if}

-- A row of outputs.csv.
pub record OutputEvent : Type 0 where
  pub key : TxKey
  pub output_index : ℕ
  pub value_sats : Option ℕ
  pub script_type : String
  pub script_bytes : ℕ
  pub address : Option String
  pub is_op_return : Bool

-- The variables of the loop. `values` is `output_values_sats`.
pub record OutputTotals : Type 0 where
  pub vout_type_counts : Dict String ℕ
  pub values : List ℕ
  pub scriptpubkey_bytes : ℕ
  pub op_return_count : ℕ
  pub op_return_script_bytes : ℕ
  pub zero_value_count : ℕ
  pub coinbase_addresses : List String
  pub events : List OutputEvent

unfoldable pub no_outputs : OutputTotals
unfolding init_script_type_counts
no_outputs = record {
  vout_type_counts = init_script_type_counts;
  values = [];
  scriptpubkey_bytes = 0;
  op_return_count = 0;
  op_return_script_bytes = 0;
  zero_value_count = 0;
  coinbase_addresses = [];
  events = [];
}

unfoldable pub output_event : TxKey → ℕ → Vout → OutputEvent
unfolding btc_to_sats normalized_script_type hex_data_bytes
output_event key index vout = record {
  key = key;
  output_index = index;
  value_sats = btc_to_sats vout.value;
  script_type = normalized_script_type vout.script_type;
  script_bytes = hex_data_bytes vout.script_hex;
  address = vout.address;
  is_op_return = normalized_script_type vout.script_type == "nulldata";
}

abbrev pub is_zero : Option ℕ → Bool
is_zero none = false
is_zero (some n) = n == 0

-- `if is_coinbase and address`
unfoldable pub payout : Bool → Option String → Option String
payout false address = none
payout true none = none
payout true (some a) = if a == "" then none else some a

-- What the loop adds for an output, which its row shows.
unfoldable pub add_output : OutputEvent → OutputTotals → OutputTotals
unfolding append_known count_type payout
add_output e t = record {
  vout_type_counts = count_type e.script_type 1 t.vout_type_counts;
  values = append_known e.value_sats t.values;
  scriptpubkey_bytes = t.scriptpubkey_bytes + e.script_bytes;
  op_return_count = t.op_return_count + one_if e.is_op_return;
  op_return_script_bytes =
      t.op_return_script_bytes + (if e.is_op_return then e.script_bytes else 0);
  zero_value_count = t.zero_value_count + one_if (is_zero e.value_sats);
  coinbase_addresses = append_known (payout e.key.is_coinbase e.address) t.coinbase_addresses;
  events = t.events ++ e ∷ [];
}

-- `for output_index, vout in enumerate(vouts)`
unfoldable pub loop_outputs : TxKey → ℕ → List Vout → OutputTotals → OutputTotals
unfolding output_event add_output
loop_outputs key index [] t = t
loop_outputs key index (vout ∷ vouts) t =
    loop_outputs key (index + 1) vouts (add_output (output_event key index vout) t)
