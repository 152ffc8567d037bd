-- ===== src/BlockParser/Inputs.antt =====
-- The first loop of `aggregate_transaction` of rpc/block_parser.py (under btc_parser_app): a row for each
-- input, and what is summed up on the way.
use bitcoin_data_exporter.Common.{
  ℕ, ◌+◌, ◌-◌, String, Bool, true, false, ◌||◌, Option, none, some, List, [], ◌∷◌, ◌++◌, ltb,
  is_some, nat_eq, string_eq, length,
}
use bitcoin_data_exporter.Common.Dict.{Dict}
use bitcoin_data_exporter.BlockParser.{
  Prevout, Vin, LocktimeType, btc_to_sats, hex_data_bytes, normalized_script_type,
  init_script_type_counts, count_type, decode_sequence,
}

-- The columns that all rows of a transaction share.
pub record TxKey : Type 0 where
  pub block_hash : String
  pub block_height : ℕ
  pub block_time : ℕ
  pub tx_index : ℕ
  pub txid : String
  pub is_coinbase : Bool

-- A row of inputs.csv. The two columns of the relative lock time are one value.
pub record InputEvent : Type 0 where
  pub key : TxKey
  pub input_index : ℕ
  pub prevout_txid : Option String
  pub prevout_vout : Option ℕ
  pub value_sats : Option ℕ
  pub prevout_height : Option ℕ
  pub input_age_blocks : Option ℕ
  pub prevout_generated : Option Bool
  pub prevout_type : Option String
  pub prevout_address : Option String
  pub scriptsig_bytes : ℕ
  pub coinbase_hex : Option String
  pub witness_item_count : ℕ
  pub witness_data_bytes : ℕ
  pub sequence : Option ℕ
  pub signals_rbf : Bool
  pub relative_locktime : Option (LocktimeType × ℕ)

-- The variables of the loop. `known_values` is `input_values_sats`, `ages` is `input_ages_blocks`.
pub record InputTotals : Type 0 where
  pub vin_type_counts : Dict String ℕ
  pub known_values : List ℕ
  pub ages : List ℕ
  pub age_value_pairs : List (ℕ × ℕ)
  pub value_known_count : ℕ
  pub height_known_count : ℕ
  pub generated_count : ℕ
  pub witness_input_count : ℕ
  pub witness_item_count : ℕ
  pub witness_data_bytes : ℕ
  pub scriptsig_bytes : ℕ
  pub signals_rbf : Bool
  pub events : List InputEvent

unfoldable pub no_inputs : InputTotals
unfolding init_script_type_counts
no_inputs = record {
  vin_type_counts = init_script_type_counts;
  known_values = [];
  ages = [];
  age_value_pairs = [];
  value_known_count = 0;
  height_known_count = 0;
  generated_count = 0;
  witness_input_count = 0;
  witness_item_count = 0;
  witness_data_bytes = 0;
  scriptsig_bytes = 0;
  signals_rbf = false;
  events = [];
}

-- `if x is not None: xs.append(x)`
unfoldable pub append_known : {A : Type 0} → Option A → List A → List A
append_known none xs = xs
append_known (some a) xs = xs ++ a ∷ []

abbrev pub one_if : Bool → ℕ
one_if true = 1
one_if false = 0

unfoldable pub data_bytes : List String → ℕ
unfolding hex_data_bytes
data_bytes [] = 0
data_bytes (t ∷ ts) = hex_data_bytes (some t) + data_bytes ts

abbrev pub is_true : Option Bool → Bool
is_true none = false
is_true (some b) = b

-- `max(0, block_height - int(prevout_height))`
unfoldable pub age_of : ℕ → Option ℕ → Option ℕ
age_of block_height none = none
age_of block_height (some h) = some (block_height - h)

unfoldable pub pair_of : Option ℕ → Option ℕ → Option (ℕ × ℕ)
pair_of (some age) (some value) = some (age, value)
pair_of _ _ = none

-- What an input's prevout gives to its row.
pub record Spent : Type 0 where
  pub value_sats : Option ℕ
  pub height : Option ℕ
  pub age : Option ℕ
  pub generated : Option Bool
  pub script_type : Option String
  pub address : Option String

unfoldable pub spent : ℕ → Option Prevout → Spent
unfolding btc_to_sats age_of normalized_script_type
spent block_height none = record {
  value_sats = none;
  height = none;
  age = none;
  generated = none;
  script_type = none;
  address = none;
}
spent block_height (some p) = record {
  value_sats = btc_to_sats p.value;
  height = p.height;
  age = age_of block_height p.height;
  generated = p.generated;
  script_type = some (normalized_script_type p.script_type);
  address = p.address;
}

unfoldable pub input_event : TxKey → Option ℕ → ℕ → Vin → InputEvent
unfolding spent data_bytes hex_data_bytes decode_sequence
input_event key version index vin =
    let s = spent key.block_height vin.prevout in
    let (rbf, locktime) = decode_sequence vin.sequence version key.is_coinbase in
    record {
      key = key;
      input_index = index;
      prevout_txid = vin.txid;
      prevout_vout = vin.vout;
      value_sats = s.value_sats;
      prevout_height = s.height;
      input_age_blocks = s.age;
      prevout_generated = s.generated;
      prevout_type = s.script_type;
      prevout_address = s.address;
      scriptsig_bytes = hex_data_bytes vin.script_sig_hex;
      coinbase_hex = vin.coinbase;
      witness_item_count = length vin.txinwitness;
      witness_data_bytes = data_bytes vin.txinwitness;
      sequence = vin.sequence;
      signals_rbf = rbf;
      relative_locktime = locktime;
    }

unfoldable pub count_known_type : Option String → Dict String ℕ → Dict String ℕ
unfolding count_type
count_known_type none d = d
count_known_type (some t) d = count_type t 1 d

-- What the loop adds for an input, which its row shows.
unfoldable pub add_input : InputEvent → InputTotals → InputTotals
unfolding append_known pair_of count_known_type
add_input e t = record {
  vin_type_counts = count_known_type e.prevout_type t.vin_type_counts;
  known_values = append_known e.value_sats t.known_values;
  ages = append_known e.input_age_blocks t.ages;
  age_value_pairs = append_known (pair_of e.input_age_blocks e.value_sats) t.age_value_pairs;
  value_known_count = t.value_known_count + one_if (is_some e.value_sats);
  height_known_count = t.height_known_count + one_if (is_some e.prevout_height);
  generated_count = t.generated_count + one_if (is_true e.prevout_generated);
  witness_input_count = t.witness_input_count + one_if (ltb 0 e.witness_item_count);
  witness_item_count = t.witness_item_count + e.witness_item_count;
  witness_data_bytes = t.witness_data_bytes + e.witness_data_bytes;
  scriptsig_bytes = t.scriptsig_bytes + e.scriptsig_bytes;
  signals_rbf = t.signals_rbf || e.signals_rbf;
  events = t.events ++ e ∷ [];
}

-- `for input_index, vin in enumerate(vins)`
unfoldable pub loop_inputs : TxKey → Option ℕ → ℕ → List Vin → InputTotals → InputTotals
unfolding input_event add_input
loop_inputs key version index [] t = t
loop_inputs key version index (vin ∷ vins) t =
    loop_inputs key version (index + 1) vins (add_input (input_event key version index vin) t)
