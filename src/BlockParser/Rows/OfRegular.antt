-- ===== src/BlockParser/Rows/OfRegular.antt =====
-- The totals over the transactions that are no coinbase (rpc/block_parser.py under btc_parser_app), against
-- their rows.
use bitcoin_data_exporter.Common.{
  ◌+◌, ◌≡◌, refl, ◌∙◌, not, Option, List, [], ◌∷◌, ◌++◌, arith, ltb, if◌then◌else◌, nat_eq,
  string_eq, filter, append-nil, sym, append_assoc, none, some,
}
use bitcoin_data_exporter.BlockParser.{count_of}
use bitcoin_data_exporter.BlockParser.Inputs.{append_known}
use bitcoin_data_exporter.BlockParser.Tally.{from_zero, total, count, known, prepend_known}
use bitcoin_data_exporter.BlockParser.Transaction.{TxEvent, or_nought}
use bitcoin_data_exporter.BlockParser.Totals.{
  RegularTotals, taproot, is_complete, no_regular, add_regular, loop_regular, regular_txs,
}

known-cons :
    {A : Type 0} (o : Option A) (xs ys zs : List A)
    → xs ≡ append_known o ys ++ zs
    → xs ≡ ys ++ prepend_known o zs
unfolding append_known prepend_known
known-cons none xs ys zs h = h
known-cons (some x) xs ys zs h = h ∙ append_assoc ys (x ∷ []) zs

module _ {F : Type 0} where
  -- The totals `u` are `t` and what the rows `es` give.
  record IsRegularOnTop (es : List (TxEvent F)) (t u : RegularTotals F) : Type 0 where
    fees : u.known_fees ≡ t.known_fees ++ known (λ e. e.fee_sats) es
    fee_rates : u.known_fee_rates ≡ t.known_fee_rates ++ known (λ e. e.fee_rate_sat_vb) es
    vsize : u.total_regular_vsize ≡ t.total_regular_vsize + total (λ e. or_nought e.vsize) es
    rbf_txs : u.rbf_tx_count ≡ t.rbf_tx_count + count (λ e. e.signals_rbf) es
    taproot_txs :
        u.taproot_input_tx_count
        ≡ t.taproot_input_tx_count + count (λ e. ltb 0 (count_of taproot e.vin_type_counts)) es
    complete_txs :
        u.input_value_complete_tx_count ≡ t.input_value_complete_tx_count + count is_complete es
    value_in :
        u.regular_input_value_sats
        ≡ t.regular_input_value_sats
          + total (λ e. if is_complete e then or_nought e.input_value_sats else 0) es
    value_out :
        u.regular_output_value_sats
        ≡ t.regular_output_value_sats + total (λ e. e.output_value_sats) es

  loop_regular-IsRegularOnTop :
      (es : List (TxEvent F)) (t : RegularTotals F) → IsRegularOnTop es t (loop_regular es t)
  unfolding loop_regular add_regular total count known
  loop_regular-IsRegularOnTop [] t = record {
    fees = sym (append-nil t.known_fees);
    fee_rates = sym (append-nil t.known_fee_rates);
    vsize = omega arith;
    rbf_txs = omega arith;
    taproot_txs = omega arith;
    complete_txs = omega arith;
    value_in = omega arith;
    value_out = omega arith;
  }
  loop_regular-IsRegularOnTop (e ∷ es) t =
      let s = loop_regular-IsRegularOnTop es (add_regular e t) in
      record {
        fees = known-cons e.fee_sats _ t.known_fees _ s.fees;
        fee_rates = known-cons e.fee_rate_sat_vb _ t.known_fee_rates _ s.fee_rates;
        vsize = omega (arith, s.vsize);
        rbf_txs = omega (arith, s.rbf_txs);
        taproot_txs = omega (arith, s.taproot_txs);
        complete_txs = omega (arith, s.complete_txs);
        value_in = omega (arith, s.value_in);
        value_out = omega (arith, s.value_out);
      }

  -- The totals that a reader can compute from the rows of the transactions that are no coinbase.
  pub record IsRegularTotalOf (t : RegularTotals F) (es : List (TxEvent F)) : Type 0 where
    pub fees : t.known_fees ≡ known (λ e. e.fee_sats) es
    pub fee_rates : t.known_fee_rates ≡ known (λ e. e.fee_rate_sat_vb) es
    pub vsize : t.total_regular_vsize ≡ total (λ e. or_nought e.vsize) es
    pub rbf_txs : t.rbf_tx_count ≡ count (λ e. e.signals_rbf) es
    pub taproot_txs :
        t.taproot_input_tx_count ≡ count (λ e. ltb 0 (count_of taproot e.vin_type_counts)) es
    pub complete_txs : t.input_value_complete_tx_count ≡ count is_complete es
    pub value_in :
        t.regular_input_value_sats
        ≡ total (λ e. if is_complete e then or_nought e.input_value_sats else 0) es
    pub value_out : t.regular_output_value_sats ≡ total (λ e. e.output_value_sats) es

  regular-filter : (es : List (TxEvent F)) → regular_txs es ≡ filter (λ e. not e.key.is_coinbase) es
  unfolding regular_txs
  regular-filter [] = refl
  regular-filter (e ∷ es) = ground (arith, regular-filter es)

  pub regular_totals :
      (es : List (TxEvent F))
      → IsRegularTotalOf
          (loop_regular (regular_txs es) no_regular)
          (filter (λ e. not e.key.is_coinbase) es)
  unfolding no_regular
  regular_totals es =
      let s = loop_regular-IsRegularOnTop (filter (λ e. not e.key.is_coinbase) es) no_regular in
      rw (regular-filter es) (record {
        fees = s.fees;
        fee_rates = s.fee_rates;
        vsize = from_zero _ _ s.vsize;
        rbf_txs = from_zero _ _ s.rbf_txs;
        taproot_txs = from_zero _ _ s.taproot_txs;
        complete_txs = from_zero _ _ s.complete_txs;
        value_in = from_zero _ _ s.value_in;
        value_out = from_zero _ _ s.value_out;
      })
