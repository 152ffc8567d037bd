-- ===== src/BlockParser/Rows/Numbered.antt =====
-- Which rows of inputs and outputs a block has (rpc/block_parser.py under btc_parser_app).
use bitcoin_data_exporter.Common.{
  ℕ, ◌+◌, String, ◌≡◌, refl, sym, ap, ◌∙◌, Option, List, [], ◌∷◌, ◌++◌, map, append-nil,
  append_assoc, nat_eq, string_eq,
}
use bitcoin_data_exporter.BlockParser.{Tx, Vin, Vout, ParserConfig, Floats}
use bitcoin_data_exporter.BlockParser.Inputs.{
  TxKey, InputEvent, InputTotals, no_inputs, input_event, add_input, loop_inputs,
}
use bitcoin_data_exporter.BlockParser.Outputs.{
  OutputEvent, OutputTotals, no_outputs, output_event, add_output, loop_outputs,
}
use bitcoin_data_exporter.BlockParser.Transaction.{TxEvent, key_of, aggregate_transaction, tx_event}
use bitcoin_data_exporter.BlockParser.Aggregate.{Rows, no_rows, add_aggregate, loop_block}

-- A name with the numbers from `n` on, one for each element.
abbrev pub numbered : {A : Type 0} → String → ℕ → List A → List (String × ℕ)
numbered id n [] = []
numbered id n (x ∷ xs) = (id, n) ∷ numbered id (n + 1) xs

-- The inputs, or the outputs, of all transactions, each by the transaction's id and its own number.
abbrev pub all_numbered : {A : Type 0} → (Tx → List A) → List Tx → List (String × ℕ)
all_numbered f [] = []
all_numbered f (tx ∷ txs) = numbered tx.txid 0 (f tx) ++ all_numbered f txs

-- The transactions from the number `n` on.
abbrev pub txs_from : ℕ → List Tx → List (String × ℕ)
txs_from n [] = []
txs_from n (tx ∷ txs) = (tx.txid, n) ∷ txs_from (n + 1) txs

abbrev pub input_id : InputEvent → String × ℕ
input_id i = (i.key.txid, i.input_index)

abbrev pub output_id : OutputEvent → String × ℕ
output_id o = (o.key.txid, o.output_index)

abbrev pub tx_id : {F : Type 0} → TxEvent F → String × ℕ
tx_id e = (e.key.txid, e.key.tx_index)

map-append : {A B : Type 0} (f : A → B) (xs ys : List A) → map f (xs ++ ys) ≡ map f xs ++ map f ys
map-append f [] ys = refl
map-append f (x ∷ xs) ys = ap (λ zs. f x ∷ zs) (map-append f xs ys)

-- A row after the others, and the rows that come after it.
one_more :
    {A B : Type 0} (f : A → B) (xs : List A) (x : A) (all rest : List B)
    → all ≡ map f (xs ++ x ∷ []) ++ rest
    → all ≡ map f xs ++ f x ∷ rest
one_more f xs x all rest h =
    h ∙ ap (λ ys. ys ++ rest) (map-append f xs (x ∷ [])) ∙ append_assoc (map f xs) (f x ∷ []) rest

-- The rows of one more transaction.
more :
    {A B : Type 0} (f : A → B) (xs ys : List A) (all now rest : List B)
    → all ≡ map f (xs ++ ys) ++ rest
    → map f ys ≡ now
    → all ≡ map f xs ++ (now ++ rest)
more f xs ys all now rest h e =
    h
    ∙ ap (λ zs. zs ++ rest) (map-append f xs ys ∙ ap (λ zs. map f xs ++ zs) e)
    ∙ append_assoc (map f xs) now rest

input_ids :
    (key : TxKey) (version : Option ℕ) (index : ℕ) (vins : List Vin) (t : InputTotals)
    → map input_id (loop_inputs key version index vins t).events
      ≡ map input_id t.events ++ numbered key.txid index vins
unfolding loop_inputs add_input input_event
input_ids key version index [] t = sym (append-nil _)
input_ids key version index (vin ∷ vins) t =
    let e = input_event key version index vin in
    one_more input_id t.events e _ (numbered key.txid (index + 1) vins)
      (input_ids key version (index + 1) vins (add_input e t))

output_ids :
    (key : TxKey) (index : ℕ) (vouts : List Vout) (t : OutputTotals)
    → map output_id (loop_outputs key index vouts t).events
      ≡ map output_id t.events ++ numbered key.txid index vouts
unfolding loop_outputs add_output output_event
output_ids key index [] t = sym (append-nil _)
output_ids key index (vout ∷ vouts) t =
    let e = output_event key index vout in
    one_more output_id t.events e _ (numbered key.txid (index + 1) vouts)
      (output_ids key (index + 1) vouts (add_output e t))

module _ {F : Type 0} ⦃fl : Floats F⦄ where
  -- The rows are those of the transactions, of their inputs and of their outputs: each one once, in order.
  pub record IsRowsOf (txs : List Tx) (es : List (TxEvent F)) (is : List InputEvent)
      (os : List OutputEvent) : Type 0 where
    pub txs_once : map tx_id es ≡ txs_from 0 txs
    pub inputs_once : map input_id is ≡ all_numbered (λ tx. tx.vin) txs
    pub outputs_once : map output_id os ≡ all_numbered (λ tx. tx.vout) txs

  loop_block-ids :
      (config : ParserConfig) (h : String) (height time index : ℕ) (txs : List Tx) (r : Rows F)
      → let r' = loop_block config h height time index txs r in
        (map tx_id r'.tx_events ≡ map tx_id r.tx_events ++ txs_from index txs)
        × (map input_id r'.input_events
            ≡ map input_id r.input_events ++ all_numbered (λ tx. tx.vin) txs)
        × (map output_id r'.output_events
            ≡ map output_id r.output_events ++ all_numbered (λ tx. tx.vout) txs)
  unfolding loop_block add_aggregate aggregate_transaction tx_event key_of no_inputs no_outputs
  loop_block-ids config h height time index [] r =
      (sym (append-nil _), sym (append-nil _), sym (append-nil _))
  loop_block-ids config h height time index (tx ∷ txs) r =
      let a = aggregate_transaction config h height time index tx in
      let key = key_of h height time index tx in
      let (p, q, s) =
        loop_block-ids config h height time (index + 1) txs (add_aggregate index a r) in
      (
        one_more tx_id r.tx_events a.event _ (txs_from (index + 1) txs) p,
        more input_id r.input_events a.input_events _ (numbered tx.txid 0 tx.vin) _ q
            (input_ids key tx.version 0 tx.vin no_inputs),
        more output_id r.output_events a.output_events _ (numbered tx.txid 0 tx.vout) _ s
            (output_ids key 0 tx.vout no_outputs),
      )

  pub loop_block-IsRowsOf :
      (config : ParserConfig) (h : String) (height time : ℕ) (txs : List Tx)
      → let r = loop_block config h height time 0 txs (no_rows {F = F}) in
        IsRowsOf txs r.tx_events r.input_events r.output_events
  unfolding no_rows
  loop_block-IsRowsOf config h height time txs =
      let (p, q, s) = loop_block-ids config h height time 0 txs (no_rows {F = F}) in
      record { txs_once = p; inputs_once = q; outputs_once = s }
