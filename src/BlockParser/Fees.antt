-- ===== src/BlockParser/Fees.antt =====
-- The fees of a block (rpc/block_parser.py under btc_parser_app): where every fee is derived, they balance.
use bitcoin_data_exporter.Common.{
  ℕ, suc, ◌+◌, String, ◌≡◌, refl, sym, ap, ◌∙◌, inl, inr, Bool, true, false, not, Option, none,
  some, List, [], ◌∷◌, ◌++◌, arith, Bool-cases, nat_eq, string_eq, length, All, All-append,
}
use bitcoin_data_exporter.Common.{ℤ, difference}
use bitcoin_data_exporter.BlockParser.{sum, Tx, Block, ParserConfig, Floats, ◌+ℤ◌}
use bitcoin_data_exporter.BlockParser.Pools.{PoolMatcher}
use bitcoin_data_exporter.BlockParser.Inputs.{
  append_known, TxKey, InputTotals, no_inputs, loop_inputs,
}
use bitcoin_data_exporter.BlockParser.Tally.{length-snoc}
use bitcoin_data_exporter.BlockParser.Outputs.{OutputTotals, no_outputs, loop_outputs}
use bitcoin_data_exporter.BlockParser.Transaction.{
  key_of, TxEvent, FeeSource, aggregate_transaction, tx_event, fee_of, or_nought, only_if,
}
use bitcoin_data_exporter.BlockParser.Totals.{
  RegularTotals, is_complete, add_regular, loop_regular, no_regular, regular_txs, sum_ℤ,
}
use bitcoin_data_exporter.BlockParser.Aggregate.{
  Rows, no_rows, add_aggregate, loop_block, aggregate_block, block_columns,
}

difference-+ℤ : (a b c d : ℕ) → difference a b +ℤ difference c d ≡ difference (a + c) (b + d)
difference-+ℤ a b c d = ground arith

+ℤ_assoc : (x y z : ℤ) → x +ℤ (y +ℤ z) ≡ (x +ℤ y) +ℤ z
+ℤ_assoc (ℤ.pos a) (ℤ.pos b) (ℤ.pos c) = ground arith
+ℤ_assoc (ℤ.pos a) (ℤ.pos b) (ℤ.negsuc c) = ground arith
+ℤ_assoc (ℤ.pos a) (ℤ.negsuc b) (ℤ.pos c) = ground arith
+ℤ_assoc (ℤ.pos a) (ℤ.negsuc b) (ℤ.negsuc c) = ground arith
+ℤ_assoc (ℤ.negsuc a) (ℤ.pos b) (ℤ.pos c) = ground arith
+ℤ_assoc (ℤ.negsuc a) (ℤ.pos b) (ℤ.negsuc c) = ground arith
+ℤ_assoc (ℤ.negsuc a) (ℤ.negsuc b) (ℤ.pos c) = ground arith
+ℤ_assoc (ℤ.negsuc a) (ℤ.negsuc b) (ℤ.negsuc c) = ground arith

+ℤ-zero : (x : ℤ) → x +ℤ ℤ.pos 0 ≡ ℤ.pos 0 +ℤ x
+ℤ-zero (ℤ.pos a) = ground arith
+ℤ-zero (ℤ.negsuc a) = ground arith

sum_ℤ-snoc : (xs : List ℤ) (x : ℤ) → sum_ℤ (xs ++ x ∷ []) ≡ sum_ℤ xs +ℤ x
unfolding sum_ℤ
sum_ℤ-snoc [] x = +ℤ-zero x
sum_ℤ-snoc (y ∷ xs) x = ap (λ s. y +ℤ s) (sum_ℤ-snoc xs x) ∙ +ℤ_assoc y (sum_ℤ xs) x

regular_value : (c : Bool) (n : ℕ) → c ≡ false → or_nought (only_if (not c) n) ≡ n
regular_value c n h = simp h refl

-- A fee that is what the inputs have over the outputs, every input being known.
record IsBalanced {F : Type 0} (e : TxEvent F) : Type 0 where
  complete : is_complete e ≡ true
  balance : e.fee_sats ≡ some (difference (or_nought e.input_value_sats) e.output_value_sats)

fee_of-derived :
    (is_coinbase : Bool) (fee : Option ℕ) (complete : Bool) (value_in value_out : ℕ)
    → (fee_of is_coinbase fee complete value_in value_out).1 ≡ FeeSource.derived
    → (is_coinbase ≡ false)
      × (complete ≡ true)
      × ((fee_of is_coinbase fee complete value_in value_out).0
          ≡ some (difference value_in value_out))
unfolding fee_of
fee_of-derived true fee complete value_in value_out h = absurd (ground arith)
fee_of-derived false (some fee) complete value_in value_out h = absurd (ground arith)
fee_of-derived false none true value_in value_out h = (refl, refl, refl)
fee_of-derived false none false value_in value_out h = absurd (ground arith)

module _ {F : Type 0} ⦃fl : Floats F⦄ where
  abbrev IsSettled : TxEvent F → Type 0
  IsSettled e = e.fee_source ≡ FeeSource.derived → IsBalanced e

  tx_event-IsSettled :
      (config : ParserConfig) (key : TxKey) (tx : Tx) (i : InputTotals) (o : OutputTotals)
      → IsSettled (tx_event config key tx i o)
  unfolding tx_event
  tx_event-IsSettled config key tx i o h =
      let (regular, complete, fee) = fee_of-derived key.is_coinbase _ _ _ _ h in
      record {
        complete = simp regular at complete;
        balance =
            fee
            ∙ ap (λ v. some (difference v (sum o.values)))
                (sym (regular_value key.is_coinbase _ regular));
      }

  aggregate_transaction-IsSettled :
      (config : ParserConfig) (block_hash : String) (block_height block_time tx_index : ℕ) (tx : Tx)
      → IsSettled
          (aggregate_transaction {F = F} config block_hash block_height block_time tx_index
            tx).event
  unfolding aggregate_transaction
  aggregate_transaction-IsSettled config block_hash block_height block_time tx_index tx =
      let key = key_of block_hash block_height block_time tx_index tx in
      tx_event-IsSettled config key tx (loop_inputs key tx.version 0 tx.vin no_inputs)
        (loop_outputs key 0 tx.vout no_outputs)

  loop_block-IsSettled :
      (config : ParserConfig) (h : String) (height time index : ℕ) (txs : List Tx) (r : Rows F)
      → All IsSettled r.tx_events
      → All IsSettled (loop_block config h height time index txs r).tx_events
  unfolding loop_block add_aggregate
  loop_block-IsSettled config h height time index [] r s = s
  loop_block-IsSettled config h height time index (tx ∷ txs) r s =
      loop_block-IsSettled config h height time (index + 1) txs _ (
        All-append IsSettled r.tx_events _ s
          (aggregate_transaction-IsSettled config h height time index tx, tt))

abbrev IsDerived : {F : Type 0} → TxEvent F → Type 0
IsDerived e = e.fee_source ≡ FeeSource.derived

regular_txs-IsBalanced :
    {F : Type 0} (es : List (TxEvent F))
    → All (λ e. IsDerived e → IsBalanced e) es
    → All IsDerived (regular_txs es)
    → All IsBalanced (regular_txs es)
unfolding regular_txs
regular_txs-IsBalanced [] s d = tt
regular_txs-IsBalanced {F = F} (e ∷ es) s d = elim (Bool-cases e.key.is_coinbase) [
  | inl c ↦ simp c (regular_txs-IsBalanced es s.1 (simp c at d))
  | inr c ↦ simp c (let d' = simp c at d in (s.0 d'.0, regular_txs-IsBalanced es s.1 d'.1))
]

-- What the loop over the regular transactions has summed up, where their fees balance.
record IsEven {F : Type 0} (n : ℕ) (t : RegularTotals F) : Type 0 where
  fees : sum_ℤ t.known_fees ≡ difference t.regular_input_value_sats t.regular_output_value_sats
  all_known : length t.known_fees ≡ n

add_regular-IsEven :
    {F : Type 0} (n : ℕ) (e : TxEvent F) (t : RegularTotals F)
    → IsBalanced e
    → IsEven n t
    → IsEven (n + 1) (add_regular e t)
unfolding add_regular append_known
add_regular-IsEven n e t b v =
    let fee = difference (or_nought e.input_value_sats) e.output_value_sats in
    simp (b.balance, b.complete)
      (record {
        fees =
            sum_ℤ-snoc t.known_fees fee
            ∙ ap (λ s. s +ℤ fee) v.fees
            ∙ difference-+ℤ t.regular_input_value_sats t.regular_output_value_sats _ _;
        all_known = length-snoc t.known_fees fee ∙ ap (λ m. m + 1) v.all_known;
      })

IsEven-cast : {F : Type 0} (n m : ℕ) (t : RegularTotals F) → n ≡ m → IsEven n t → IsEven m t
IsEven-cast n m t h v = record { fees = v.fees; all_known = v.all_known ∙ h }

loop_regular-IsEven :
    {F : Type 0} (n : ℕ) (es : List (TxEvent F)) (t : RegularTotals F)
    → All IsBalanced es
    → IsEven n t
    → IsEven (n + length es) (loop_regular es t)
unfolding loop_regular
loop_regular-IsEven n [] t b v = IsEven-cast n (n + 0) t (omega arith) v
loop_regular-IsEven n (e ∷ es) t b v =
    IsEven-cast (n + 1 + length es) (n + suc (length es)) _ (omega arith)
      (loop_regular-IsEven (n + 1) es (add_regular e t) b.1 (add_regular-IsEven n e t b.0 v))

no_regular-IsEven : (F : Type 0) → IsEven 0 (no_regular {F = F})
unfolding no_regular sum_ℤ
no_regular-IsEven F = record { fees = refl; all_known = refl }

module _ (F : Type 0) {C : Type 0} ⦃fl : Floats F⦄ where
  -- Where the fee of every transaction of a block but the coinbase is derived from its inputs, the total fee
  -- is what the values of the inputs of these transactions have over those of their outputs, and no fee is
  -- unknown.
  pub fees-balance :
      (config : ParserConfig) (matcher : Option PoolMatcher) (block : Block C)
      → let a = aggregate_block {F = F} config matcher block in
        let c = a.block_event.columns in
        All (λ e. e.fee_source ≡ FeeSource.derived) (regular_txs a.tx_events)
        → (c.total_fees_sats
            ≡ difference c.regular.regular_input_value_sats c.regular.regular_output_value_sats)
          × (c.fee_known_tx_count ≡ c.regular_tx_count)
          × (c.fee_unknown_tx_count ≡ 0)
  unfolding aggregate_block block_columns no_rows
  fees-balance config matcher block h =
      let r = loop_block config block.hash block.height block.time 0 block.tx (no_rows {F = F}) in
      let s =
        loop_block-IsSettled config block.hash block.height block.time 0 block.tx (no_rows {F = F})
          tt in
      let v =
        loop_regular-IsEven 0 (regular_txs r.tx_events) no_regular
          (regular_txs-IsBalanced r.tx_events s h) (no_regular-IsEven F) in
      (v.fees, omega (arith, v.all_known), omega (arith, v.all_known))
