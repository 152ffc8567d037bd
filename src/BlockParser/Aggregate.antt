-- ===== src/BlockParser/Aggregate.antt =====
-- `aggregate_block` of rpc/block_parser.py (under btc_parser_app): the row of a block, beside the rows of its
-- transactions, inputs and outputs.
use bitcoin_data_exporter.Common.{
  ℕ, zero, suc, ◌+◌, ◌-◌, String, Bool, true, false, not, ◌&&◌, Option, none, some, List, [], ◌∷◌,
  ◌++◌, ltb, leb, if◌then◌else◌, ◌==◌, nat_eq, string_eq, length, is_empty,
}
use bitcoin_data_exporter.Common.Dict.{Dict}
use bitcoin_data_exporter.Common.{ℤ, ◌/◌, ◌%◌}
use bitcoin_data_exporter.Catchup.{BlockEvent}
use bitcoin_data_exporter.BlockParser.{
  Tx, Block, ParserConfig, Floats, ◌+ℤ◌, init_script_type_counts, block_subsidy_sats,
}
use bitcoin_data_exporter.BlockParser.Pools.{PoolMatcher, PoolMatch, match_mining_pool}
use bitcoin_data_exporter.BlockParser.Inputs.{InputEvent}
use bitcoin_data_exporter.BlockParser.Outputs.{OutputEvent}
use bitcoin_data_exporter.BlockParser.Transaction.{
  TxEvent, TransactionAggregate, only_if, max_of, mean, aggregate_transaction,
}
use bitcoin_data_exporter.BlockParser.Totals.{
  BlockTotals, RegularTotals, no_totals, loop_txs, no_regular, loop_regular, regular_txs,
  loop_counts, sum_ℤ,
}

-- The columns of blocks.csv that are computed, and those that are copied.
pub record BlockColumns (F C : Type 0) : Type 0 where
  pub copied : C
  pub time : ℕ
  pub weight : Option ℕ
  pub weight_utilization_pct : Option F
  pub block_subsidy_sats : ℕ
  pub pool : PoolMatch
  pub regular_tx_count : ℕ
  pub totals : BlockTotals F
  pub coinbase_value_sats : Option ℕ
  pub coinbase_vout_count : Option ℕ
  pub total_fees_sats : ℤ
  pub fee_known_tx_count : ℕ
  pub fee_unknown_tx_count : ℕ
  pub fee_avg_sats : Option F
  pub fee_median_sats : Option F
  pub fee_max_sats : Option ℤ
  pub fee_rate_avg_sat_vb : Option F
  pub fee_rate_median_sat_vb : Option F
  pub fee_rate_max_sat_vb : Option F
  pub effective_fee_rate_sat_vb : Option F
  pub regular : RegularTotals F
  pub tx_vsize_avg : Option F
  pub tx_vsize_median : Option F
  pub tx_vsize_max : Option ℕ
  pub vin_type_totals : Dict String ℕ
  pub vout_type_totals : Dict String ℕ

pub record BlockAggregate (F C : Type 0) : Type 0 where
  pub block_event : BlockEvent (BlockColumns F C)
  pub tx_events : List (TxEvent F)
  pub input_events : List InputEvent
  pub output_events : List OutputEvent

-- The rows so far, and what the pool matcher gets of the first transaction.
pub record Rows (F : Type 0) : Type 0 where
  pub tx_events : List (TxEvent F)
  pub input_events : List InputEvent
  pub output_events : List OutputEvent
  pub coinbase_script_sig_hex : Option String
  pub coinbase_output_addresses : List String

unfoldable pub insert_by : {A : Type 0} → (A → A → Bool) → A → List A → List A
insert_by le a [] = a ∷ []
insert_by le a (b ∷ bs) = let rest = insert_by le a bs in if le a b then a ∷ b ∷ bs else b ∷ rest

unfoldable pub sort_by : {A : Type 0} → (A → A → Bool) → List A → List A
unfolding insert_by
sort_by le [] = []
sort_by le (a ∷ rest) = insert_by le a (sort_by le rest)

unfoldable pub element : {A : Type 0} → ℕ → List A → Option A
element n [] = none
element zero (a ∷ rest) = some a
element (suc n) (a ∷ rest) = element n rest

abbrev pub both : {A B : Type 0} → (A → A → B) → Option A → Option A → Option B
both f (some a) (some b) = some (f a b)
both f _ _ = none

abbrev pub through : {A B : Type 0} → (A → B) → Option A → Option B
through f none = none
through f (some a) = some (f a)

-- `statistics.median`: the middle element, or half the sum of the two in the middle.
unfoldable pub median : {A F : Type 0} → (A → A → Bool) → (A → F) → (A → A → F) → List A → Option F
unfolding sort_by element
median le whole half values =
    let sorted = sort_by le values in
    let n = length values in
    if n % 2 == 1
    then through whole (element (n / 2) sorted)
    else both half (element (n / 2 - 1) sorted) (element (n / 2) sorted)

abbrev pub at_most_ℤ : ℤ → ℤ → Bool
at_most_ℤ (ℤ.pos a) (ℤ.pos b) = leb a b
at_most_ℤ (ℤ.pos a) (ℤ.negsuc b) = false
at_most_ℤ (ℤ.negsuc a) (ℤ.pos b) = true
at_most_ℤ (ℤ.negsuc a) (ℤ.negsuc b) = leb b a

-- The greatest element, the first of equal ones.
unfoldable pub greatest : {A : Type 0} → (A → A → Bool) → List A → Option A
greatest le [] = none
greatest le (a ∷ rest) =
    some (elim (greatest le rest) [ none ↦ a | some m ↦ if le m a then a else m ])

unfoldable pub first_tx : {F : Type 0} → List (TxEvent F) → Option (TxEvent F)
first_tx [] = none
first_tx (e ∷ es) = some e

module _ {F : Type 0} ⦃fl : Floats F⦄ where
  unfoldable pub no_rows : Rows F
  no_rows = record {
    tx_events = [];
    input_events = [];
    output_events = [];
    coinbase_script_sig_hex = none;
    coinbase_output_addresses = [];
  }

  unfoldable pub add_aggregate : ℕ → TransactionAggregate F → Rows F → Rows F
  add_aggregate index a r = record {
    tx_events = r.tx_events ++ a.event ∷ [];
    input_events = r.input_events ++ a.input_events;
    output_events = r.output_events ++ a.output_events;
    coinbase_script_sig_hex =
        if index == 0 then a.coinbase_script_sig_hex else r.coinbase_script_sig_hex;
    coinbase_output_addresses =
        if index == 0 then a.coinbase_output_addresses else r.coinbase_output_addresses;
  }

  -- `for tx_index, tx in enumerate(block.get("tx") or [])`
  unfoldable pub loop_block : ParserConfig → String → ℕ → ℕ → ℕ → List Tx → Rows F → Rows F
  unfolding aggregate_transaction add_aggregate
  loop_block config h height time index [] r = r
  loop_block config h height time index (tx ∷ txs) r =
      loop_block config h height time (index + 1) txs
        (add_aggregate index (aggregate_transaction config h height time index tx) r)

  unfoldable pub mean_ℤ : List ℤ → Option F
  unfolding sum_ℤ
  mean_ℤ [] = none
  mean_ℤ (n ∷ ns) = some (fl.ratio (sum_ℤ (n ∷ ns)) (length (n ∷ ns)))

  unfoldable pub mean_floats : List F → Option F
  mean_floats [] = none
  mean_floats (x ∷ xs) = some (fl.divide (fl.sum_of (x ∷ xs)) (length (x ∷ xs)))

  -- The median of integers, of natural numbers, and of floats.
  unfoldable pub median_ℤ : List ℤ → Option F
  unfolding median
  median_ℤ = median at_most_ℤ (λ a. fl.ratio a 1) (λ a b. fl.ratio (a +ℤ b) 2)

  unfoldable pub median_ℕ : List ℕ → Option F
  unfolding median
  median_ℕ = median leb (λ a. fl.ratio (ℤ.pos a) 1) (λ a b. fl.ratio (ℤ.pos (a + b)) 2)

  unfoldable pub median_floats : List F → Option F
  unfolding median
  median_floats = median fl.at_most (λ a. a) (λ a b. fl.divide (fl.add a b) 2)

  unfoldable pub utilization : ParserConfig → Option ℕ → Option F
  utilization config none = none
  utilization config (some w) =
      some (fl.times (fl.divide (fl.ratio (ℤ.pos w) 1) config.max_block_weight) 100)

  unfoldable pub block_columns :
      {C : Type 0} → ParserConfig → Option PoolMatcher → Block C → Rows F → BlockColumns F C
  unfolding regular_txs loop_txs no_totals loop_regular no_regular sum_ℤ loop_counts
      init_script_type_counts match_mining_pool first_tx mean_ℤ mean_floats mean median_ℤ median_ℕ
      median_floats greatest max_of utilization block_subsidy_sats
  block_columns config matcher block r =
      let regulars = regular_txs r.tx_events in
      let t = loop_txs r.tx_events no_totals in
      let g = loop_regular regulars no_regular in
      let fees = sum_ℤ g.known_fees in
      let types = loop_counts r.tx_events (init_script_type_counts, init_script_type_counts) in
      record {
        copied = block.copied;
        time = block.time;
        weight = block.weight;
        weight_utilization_pct = utilization config block.weight;
        block_subsidy_sats =
            block_subsidy_sats config.halving_interval_blocks config.initial_subsidy_sats
              block.height;
        pool = match_mining_pool r.coinbase_script_sig_hex r.coinbase_output_addresses matcher;
        regular_tx_count = length regulars;
        totals = t;
        coinbase_value_sats = through (λ e. e.output_value_sats) (first_tx r.tx_events);
        coinbase_vout_count = through (λ e. e.vout_count) (first_tx r.tx_events);
        total_fees_sats = fees;
        fee_known_tx_count = length g.known_fees;
        fee_unknown_tx_count = length regulars - length g.known_fees;
        fee_avg_sats = mean_ℤ g.known_fees;
        fee_median_sats = median_ℤ g.known_fees;
        fee_max_sats = greatest at_most_ℤ g.known_fees;
        fee_rate_avg_sat_vb = mean_floats g.known_fee_rates;
        fee_rate_median_sat_vb = median_floats g.known_fee_rates;
        fee_rate_max_sat_vb = greatest fl.at_most g.known_fee_rates;
        effective_fee_rate_sat_vb =
            only_if
              (not (is_empty g.known_fees)
                && (length g.known_fees == length regulars && ltb 0 g.total_regular_vsize))
              (fl.ratio fees g.total_regular_vsize);
        regular = g;
        tx_vsize_avg = mean t.vsize_values;
        tx_vsize_median = median_ℕ t.vsize_values;
        tx_vsize_max = max_of t.vsize_values;
        vin_type_totals = types.0;
        vout_type_totals = types.1;
      }

  -- `aggregate_block`
  unfoldable pub aggregate_block :
      {C : Type 0} → ParserConfig → Option PoolMatcher → Block C → BlockAggregate F C
  unfolding loop_block no_rows block_columns
  aggregate_block config matcher block =
      let r = loop_block config block.hash block.height block.time 0 block.tx no_rows in
      record {
        block_event = record {
          height = block.height;
          hash = block.hash;
          previousblockhash = block.previousblockhash;
          time_since_prev_block_sec = none;
          columns = block_columns config matcher block r;
        };
        tx_events = r.tx_events;
        input_events = r.input_events;
        output_events = r.output_events;
      }
