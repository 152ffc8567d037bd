-- ===== src/BlockParser/Rows.antt =====
-- The rows of a transaction (rpc/block_parser.py under btc_parser_app): what its own row says
-- of its inputs and outputs is what their rows say.
pub mod OfInputs
pub mod OfOutputs
pub mod Types
pub mod Numbered
pub mod OfRegular
pub mod OfBlock
use bitcoin_data_exporter.Common.{
  ℕ, zero, suc, ◌+◌, ◌-◌, ◌*◌, ◌≤◌, ◌<◌, min, max, String, ◌≡◌, refl, sym, ap, ◌∙◌, ◌≢◌, ◌⊎◌, inl,
  inr, Bool, true, false, not, ◌&&◌, ◌||◌, Option, none, some, List, [], ◌∷◌, ◌++◌, map, append-nil,
  append_assoc, arith, ltb, leb, if◌then◌else◌, Bool-cases, Option-cases, is_some, or_else, Eq,
  ◌==◌, nat_eq, string_eq, contains, length, is_empty, length-append, filter, All, All-append,
  max_or,
}
use bitcoin_data_exporter.Common.Dict
use bitcoin_data_exporter.Common.Dict.{Dict, dict_laws}
use bitcoin_data_exporter.BlockParser.{Tx, ParserConfig, Floats, sum, count_of}
use bitcoin_data_exporter.BlockParser.Tally.{from_zero, total, count, any, known}
use bitcoin_data_exporter.BlockParser.Inputs.{InputEvent, is_true, pair_of, no_inputs, loop_inputs}
use bitcoin_data_exporter.BlockParser.Outputs.{OutputEvent, is_zero, no_outputs, loop_outputs}
use bitcoin_data_exporter.BlockParser.Transaction.{
  TxEvent, TransactionAggregate, aggregate_transaction, tx_event, only_if, min_of, max_of, mean,
  weighted_age, coin_days, key_of,
}
use bitcoin_data_exporter.BlockParser.Rows.OfInputs.{
  IsSumOfInputs, is_type, inputs-IsSumOfInputs, length-loop_inputs,
}
use bitcoin_data_exporter.BlockParser.Rows.OfOutputs.{
  IsSumOfOutputs, outputs-IsSumOfOutputs, length-loop_outputs,
}

module _ {F : Type 0} ⦃fl : Floats F⦄ where
  -- The columns of a transaction's row that a reader can compute from the rows of its inputs `is` and of
  -- its outputs `os`.
  pub record IsRecomputed (config : ParserConfig) (e : TxEvent F) (is : List InputEvent)
      (os : List OutputEvent) : Type 0 where
    pub vin_count : e.vin_count ≡ length is
    pub vout_count : e.vout_count ≡ length os
    pub input_value :
        e.input_value_sats ≡ only_if (not e.key.is_coinbase) (sum (known (λ i. i.value_sats) is))
    pub output_value : e.output_value_sats ≡ sum (known (λ o. o.value_sats) os)
    pub output_min : e.output_value_min_sats ≡ min_of (known (λ o. o.value_sats) os)
    pub output_max : e.output_value_max_sats ≡ max_of (known (λ o. o.value_sats) os)
    pub output_avg : e.output_value_avg_sats ≡ mean (known (λ o. o.value_sats) os)
    pub value_known : e.prevout_value_known_count ≡ count (λ i. is_some i.value_sats) is
    pub height_known : e.prevout_height_known_count ≡ count (λ i. is_some i.prevout_height) is
    pub generated : e.generated_input_count ≡ count (λ i. is_true i.prevout_generated) is
    pub age_min : e.input_age_min_blocks ≡ min_of (known (λ i. i.input_age_blocks) is)
    pub age_max : e.input_age_max_blocks ≡ max_of (known (λ i. i.input_age_blocks) is)
    pub age_avg : e.input_age_avg_blocks ≡ mean (known (λ i. i.input_age_blocks) is)
    pub age_weighted :
        e.input_age_value_weighted_avg_blocks
        ≡ weighted_age (known (λ i. pair_of i.input_age_blocks i.value_sats) is)
    pub destroyed :
        e.coin_days_destroyed_btc
        ≡ coin_days config (known (λ i. pair_of i.input_age_blocks i.value_sats) is)
    pub witness_inputs : e.witness_input_count ≡ count (λ i. ltb 0 i.witness_item_count) is
    pub witness_items : e.witness_item_count ≡ total (λ i. i.witness_item_count) is
    pub witness_bytes : e.witness_data_bytes ≡ total (λ i. i.witness_data_bytes) is
    pub scriptsig_bytes : e.scriptsig_bytes ≡ total (λ i. i.scriptsig_bytes) is
    pub scriptpubkey_bytes : e.scriptpubkey_bytes ≡ total (λ o. o.script_bytes) os
    pub signals_rbf : e.signals_rbf ≡ any (λ i. i.signals_rbf) is
    pub op_returns : e.op_return_count ≡ count (λ o. o.is_op_return) os
    pub op_return_bytes :
        e.op_return_script_bytes ≡ total (λ o. if o.is_op_return then o.script_bytes else 0) os
    pub zero_values : e.zero_value_output_count ≡ count (λ o. is_zero o.value_sats) os
    pub vin_types :
        (t : String) → count_of t e.vin_type_counts ≡ count (λ i. is_type t i.prevout_type) is
    pub vout_types :
        (t : String) → count_of t e.vout_type_counts ≡ count (λ o. t == o.script_type) os

  -- The row of a transaction says what the rows of its inputs and outputs say: their numbers, the sums,
  -- extremes and averages of the known values, the ages, the witness and script bytes, and the number of
  -- inputs and of outputs of every script type.
  pub aggregate_transaction-IsRecomputed :
      (config : ParserConfig) (block_hash : String) (block_height block_time tx_index : ℕ) (tx : Tx)
      → let a =
          aggregate_transaction {F = F} config block_hash block_height block_time tx_index tx in
        IsRecomputed config a.event a.input_events a.output_events
  unfolding aggregate_transaction tx_event no_inputs no_outputs
  aggregate_transaction-IsRecomputed config block_hash block_height block_time tx_index tx =
      let key = key_of block_hash block_height block_time tx_index tx in
      let i = inputs-IsSumOfInputs key tx.version tx.vin in
      let o = outputs-IsSumOfOutputs key tx.vout in
      record {
        vin_count = sym (from_zero _ _ (length-loop_inputs key tx.version 0 tx.vin no_inputs));
        vout_count = sym (from_zero _ _ (length-loop_outputs key 0 tx.vout no_outputs));
        input_value = ap (λ v. only_if (not key.is_coinbase) (sum v)) i.known_values;
        output_value = ap sum o.values;
        output_min = ap min_of o.values;
        output_max = ap max_of o.values;
        output_avg = ap mean o.values;
        value_known = i.value_known;
        height_known = i.height_known;
        generated = i.generated;
        age_min = ap min_of i.ages;
        age_max = ap max_of i.ages;
        age_avg = ap mean i.ages;
        age_weighted = ap weighted_age i.age_value_pairs;
        destroyed = ap (coin_days config) i.age_value_pairs;
        witness_inputs = i.witness_inputs;
        witness_items = i.witness_items;
        witness_bytes = i.witness_bytes;
        scriptsig_bytes = i.scriptsig_bytes;
        scriptpubkey_bytes = o.scriptpubkey_bytes;
        signals_rbf = i.signals_rbf;
        op_returns = o.op_returns;
        op_return_bytes = o.op_return_bytes;
        zero_values = o.zero_values;
        vin_types = i.types;
        vout_types = o.types;
      }
