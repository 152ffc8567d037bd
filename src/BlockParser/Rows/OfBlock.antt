-- ===== src/BlockParser/Rows/OfBlock.antt =====
-- The totals of `aggregate_block` (rpc/block_parser.py under btc_parser_app), against the rows of the block.
use bitcoin_data_exporter.Common.{
  ℕ, ◌+◌, String, ◌≡◌, List, [], ◌∷◌, ◌++◌, map, ltb, if◌then◌else◌, nat_eq, string_eq, length,
}
use bitcoin_data_exporter.Common.{◌==◌, All}
use bitcoin_data_exporter.Common.Dict.{Dict}
use bitcoin_data_exporter.BlockParser.{Floats, count_of}
use bitcoin_data_exporter.BlockParser.Inputs.{InputEvent}
use bitcoin_data_exporter.BlockParser.Outputs.{OutputEvent}
use bitcoin_data_exporter.BlockParser.Tally.{total, count}
use bitcoin_data_exporter.BlockParser.Transaction.{TxEvent, or_nought}
use bitcoin_data_exporter.BlockParser.Totals.{BlockTotals, taproot}
use bitcoin_data_exporter.BlockParser.Aggregate.{Rows}
use bitcoin_data_exporter.BlockParser.Rows.OfInputs.{is_type}
use bitcoin_data_exporter.BlockParser.Rows.Types.{IsCounting}

-- The counts of script types in the row of a block, for every type.
pub record AreTypesOf (ins outs : Dict String ℕ) (is : List InputEvent) (os : List OutputEvent)
    : Type 0 where
  pub vin_types : (t : String) → count_of t ins ≡ count (λ i. is_type t i.prevout_type) is
  pub vout_types : (t : String) → count_of t outs ≡ count (λ o. t == o.script_type) os

module _ {F : Type 0} ⦃fl : Floats F⦄ where
  -- The columns of the transactions' rows, added up, are what the rows of inputs and outputs give.
  record AgreesWith (es : List (TxEvent F)) (is : List InputEvent) (os : List OutputEvent)
      : Type 0 where
    vins : total (λ e. e.vin_count) es ≡ length is
    vouts : total (λ e. e.vout_count) es ≡ length os
    op_returns : total (λ e. e.op_return_count) es ≡ count (λ o. o.is_op_return) os
    op_return_bytes :
        total (λ e. e.op_return_script_bytes) es
        ≡ total (λ o. if o.is_op_return then o.script_bytes else 0) os
    witness_inputs :
        total (λ e. e.witness_input_count) es ≡ count (λ i. ltb 0 i.witness_item_count) is
    witness_items : total (λ e. e.witness_item_count) es ≡ total (λ i. i.witness_item_count) is
    witness_bytes : total (λ e. e.witness_data_bytes) es ≡ total (λ i. i.witness_data_bytes) is
    scriptsig_bytes : total (λ e. e.scriptsig_bytes) es ≡ total (λ i. i.scriptsig_bytes) is
    scriptpubkey_bytes : total (λ e. e.scriptpubkey_bytes) es ≡ total (λ o. o.script_bytes) os
    vin_types :
        (t : String)
        → total (λ e. count_of t e.vin_type_counts) es ≡ count (λ i. is_type t i.prevout_type) is
    vout_types :
        (t : String)
        → total (λ e. count_of t e.vout_type_counts) es ≡ count (λ o. t == o.script_type) os
    counting : All IsCounting es

  -- The floats of a column, added to a first one from left to right.
  unfoldable pub added_to : F → (TxEvent F → F) → List (TxEvent F) → F
  added_to x f [] = x
  added_to x f (e ∷ es) = added_to (fl.add x (f e)) f es

  -- The totals of the rows `es`, on top of `t`.
  record IsOnTop (es : List (TxEvent F)) (t u : BlockTotals F) : Type 0 where
    vins : u.total_vin_count ≡ t.total_vin_count + total (λ e. e.vin_count) es
    vouts : u.total_vout_count ≡ t.total_vout_count + total (λ e. e.vout_count) es
    destroyed :
        u.coin_days_destroyed_btc
        ≡ added_to t.coin_days_destroyed_btc (λ e. e.coin_days_destroyed_btc) es
    taproot_txs :
        u.taproot_output_tx_count
        ≡ t.taproot_output_tx_count + count (λ e. ltb 0 (count_of taproot e.vout_type_counts)) es
    vsizes : u.vsize_values ≡ t.vsize_values ++ map (λ e. or_nought e.vsize) es
    op_return_txs :
        u.op_return_tx_count ≡ t.op_return_tx_count + count (λ e. ltb 0 e.op_return_count) es
    segwit_txs : u.segwit_tx_count ≡ t.segwit_tx_count + count (λ e. ltb 0 e.witness_input_count) es
    op_returns :
        u.op_return_output_count ≡ t.op_return_output_count + total (λ e. e.op_return_count) es
    op_return_bytes :
        u.op_return_script_bytes
        ≡ t.op_return_script_bytes + total (λ e. e.op_return_script_bytes) es
    witness_inputs :
        u.witness_input_count ≡ t.witness_input_count + total (λ e. e.witness_input_count) es
    witness_items :
        u.witness_item_count ≡ t.witness_item_count + total (λ e. e.witness_item_count) es
    witness_bytes :
        u.witness_data_bytes ≡ t.witness_data_bytes + total (λ e. e.witness_data_bytes) es
    scriptsig_bytes : u.scriptsig_bytes ≡ t.scriptsig_bytes + total (λ e. e.scriptsig_bytes) es
    scriptpubkey_bytes :
        u.scriptpubkey_bytes ≡ t.scriptpubkey_bytes + total (λ e. e.scriptpubkey_bytes) es

  -- The totals of a block that a reader can compute from the rows of its transactions, inputs and outputs.
  pub record IsTotalOf (t : BlockTotals F) (es : List (TxEvent F)) (is : List InputEvent)
      (os : List OutputEvent) : Type 0 where
    pub vins : t.total_vin_count ≡ length is
    pub vouts : t.total_vout_count ≡ length os
    pub destroyed :
        t.coin_days_destroyed_btc ≡ added_to fl.nought (λ e. e.coin_days_destroyed_btc) es
    pub taproot_txs :
        t.taproot_output_tx_count ≡ count (λ e. ltb 0 (count_of taproot e.vout_type_counts)) es
    pub vsizes : t.vsize_values ≡ map (λ e. or_nought e.vsize) es
    pub op_return_txs : t.op_return_tx_count ≡ count (λ e. ltb 0 e.op_return_count) es
    pub segwit_txs : t.segwit_tx_count ≡ count (λ e. ltb 0 e.witness_input_count) es
    pub op_returns : t.op_return_output_count ≡ count (λ o. o.is_op_return) os
    pub op_return_bytes :
        t.op_return_script_bytes ≡ total (λ o. if o.is_op_return then o.script_bytes else 0) os
    pub witness_inputs : t.witness_input_count ≡ count (λ i. ltb 0 i.witness_item_count) is
    pub witness_items : t.witness_item_count ≡ total (λ i. i.witness_item_count) is
    pub witness_bytes : t.witness_data_bytes ≡ total (λ i. i.witness_data_bytes) is
    pub scriptsig_bytes : t.scriptsig_bytes ≡ total (λ i. i.scriptsig_bytes) is
    pub scriptpubkey_bytes : t.scriptpubkey_bytes ≡ total (λ o. o.script_bytes) os
