-- ===== src/BlockParser/Totals.antt =====
-- The loops of `aggregate_block` of rpc/block_parser.py (under btc_parser_app) over the rows of the
-- transactions.
use bitcoin_data_exporter.Common.{
  ℕ, ◌+◌, String, Bool, List, [], ◌∷◌, ◌++◌, ltb, if◌then◌else◌, ◌==◌, nat_eq, string_eq,
}
use bitcoin_data_exporter.Common.Dict.{Dict}
use bitcoin_data_exporter.Common.{ℤ}
use bitcoin_data_exporter.BlockParser.{Floats, ◌+ℤ◌, count_type, count_of}
use bitcoin_data_exporter.BlockParser.Inputs.{append_known, one_if}
use bitcoin_data_exporter.BlockParser.Transaction.{TxEvent, or_nought}

-- The variables of the loop over all transactions.
pub record BlockTotals (F : Type 0) : Type 0 where
  pub total_vin_count : ℕ
  pub total_vout_count : ℕ
  pub coin_days_destroyed_btc : F
  pub vsize_values : List ℕ
  pub segwit_tx_count : ℕ
  pub taproot_output_tx_count : ℕ
  pub op_return_tx_count : ℕ
  pub op_return_output_count : ℕ
  pub op_return_script_bytes : ℕ
  pub witness_input_count : ℕ
  pub witness_item_count : ℕ
  pub witness_data_bytes : ℕ
  pub scriptsig_bytes : ℕ
  pub scriptpubkey_bytes : ℕ

-- The variables of the loop over the transactions that are no coinbase.
pub record RegularTotals (F : Type 0) : Type 0 where
  pub known_fees : List ℤ
  pub known_fee_rates : List F
  pub total_regular_vsize : ℕ
  pub rbf_tx_count : ℕ
  pub taproot_input_tx_count : ℕ
  pub input_value_complete_tx_count : ℕ
  pub regular_input_value_sats : ℕ
  pub regular_output_value_sats : ℕ

abbrev pub taproot : String
taproot = "witness_v1_taproot"

module _ {F : Type 0} ⦃fl : Floats F⦄ where
  unfoldable pub no_totals : BlockTotals F
  no_totals = record {
    total_vin_count = 0;
    total_vout_count = 0;
    coin_days_destroyed_btc = fl.nought;
    vsize_values = [];
    segwit_tx_count = 0;
    taproot_output_tx_count = 0;
    op_return_tx_count = 0;
    op_return_output_count = 0;
    op_return_script_bytes = 0;
    witness_input_count = 0;
    witness_item_count = 0;
    witness_data_bytes = 0;
    scriptsig_bytes = 0;
    scriptpubkey_bytes = 0;
  }

  unfoldable pub add_tx : TxEvent F → BlockTotals F → BlockTotals F
  add_tx e t = record {
    total_vin_count = t.total_vin_count + e.vin_count;
    total_vout_count = t.total_vout_count + e.vout_count;
    coin_days_destroyed_btc = fl.add t.coin_days_destroyed_btc e.coin_days_destroyed_btc;
    vsize_values = t.vsize_values ++ or_nought e.vsize ∷ [];
    segwit_tx_count = t.segwit_tx_count + one_if (ltb 0 e.witness_input_count);
    taproot_output_tx_count =
        t.taproot_output_tx_count + one_if (ltb 0 (count_of taproot e.vout_type_counts));
    op_return_tx_count = t.op_return_tx_count + one_if (ltb 0 e.op_return_count);
    op_return_output_count = t.op_return_output_count + e.op_return_count;
    op_return_script_bytes = t.op_return_script_bytes + e.op_return_script_bytes;
    witness_input_count = t.witness_input_count + e.witness_input_count;
    witness_item_count = t.witness_item_count + e.witness_item_count;
    witness_data_bytes = t.witness_data_bytes + e.witness_data_bytes;
    scriptsig_bytes = t.scriptsig_bytes + e.scriptsig_bytes;
    scriptpubkey_bytes = t.scriptpubkey_bytes + e.scriptpubkey_bytes;
  }

  unfoldable pub loop_txs : List (TxEvent F) → BlockTotals F → BlockTotals F
  unfolding add_tx
  loop_txs [] t = t
  loop_txs (e ∷ es) t = loop_txs es (add_tx e t)

-- `totals[key] += int(tx[key])` for every key.
unfoldable pub add_counts : Dict String ℕ → Dict String ℕ → Dict String ℕ
unfolding count_type
add_counts [] totals = totals
add_counts ((t, n) ∷ counts) totals = add_counts counts (count_type t n totals)

module _ {F : Type 0} where
  unfoldable pub no_regular : RegularTotals F
  no_regular = record {
    known_fees = [];
    known_fee_rates = [];
    total_regular_vsize = 0;
    rbf_tx_count = 0;
    taproot_input_tx_count = 0;
    input_value_complete_tx_count = 0;
    regular_input_value_sats = 0;
    regular_output_value_sats = 0;
  }

  -- `tx["prevout_value_known_count"] == tx["vin_count"]`
  abbrev pub is_complete : TxEvent F → Bool
  is_complete e = e.prevout_value_known_count == e.vin_count

  unfoldable pub add_regular : TxEvent F → RegularTotals F → RegularTotals F
  unfolding append_known
  add_regular e t = record {
    known_fees = append_known e.fee_sats t.known_fees;
    known_fee_rates = append_known e.fee_rate_sat_vb t.known_fee_rates;
    total_regular_vsize = t.total_regular_vsize + or_nought e.vsize;
    rbf_tx_count = t.rbf_tx_count + one_if e.signals_rbf;
    taproot_input_tx_count =
        t.taproot_input_tx_count + one_if (ltb 0 (count_of taproot e.vin_type_counts));
    input_value_complete_tx_count = t.input_value_complete_tx_count + one_if (is_complete e);
    regular_input_value_sats =
        t.regular_input_value_sats + (if is_complete e then or_nought e.input_value_sats else 0);
    regular_output_value_sats = t.regular_output_value_sats + e.output_value_sats;
  }

  unfoldable pub loop_regular : List (TxEvent F) → RegularTotals F → RegularTotals F
  unfolding add_regular
  loop_regular [] t = t
  loop_regular (e ∷ es) t = loop_regular es (add_regular e t)

  -- `[tx for tx in tx_events if not tx["is_coinbase"]]`
  unfoldable pub regular_txs : List (TxEvent F) → List (TxEvent F)
  regular_txs [] = []
  regular_txs (e ∷ es) = let rest = regular_txs es in if e.key.is_coinbase then rest else e ∷ rest

  unfoldable pub loop_counts :
      List (TxEvent F) → Dict String ℕ × Dict String ℕ → Dict String ℕ × Dict String ℕ
  unfolding add_counts
  loop_counts [] totals = totals
  loop_counts (e ∷ es) (ins, outs) =
      loop_counts es (add_counts e.vin_type_counts ins, add_counts e.vout_type_counts outs)

-- `sum` of integers.
unfoldable pub sum_ℤ : List ℤ → ℤ
sum_ℤ [] = ℤ.pos 0
sum_ℤ (n ∷ ns) = n +ℤ sum_ℤ ns
