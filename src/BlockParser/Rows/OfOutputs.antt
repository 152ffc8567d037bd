-- ===== src/BlockParser/Rows/OfOutputs.antt =====
-- The sums of the second loop of `aggregate_transaction` (rpc/block_parser.py under btc_parser_app),
-- against the rows that it makes.
use bitcoin_data_exporter.Common.{
  ℕ, ◌+◌, String, ◌≡◌, refl, sym, ap, ◌∙◌, true, List, [], ◌∷◌, arith, if◌then◌else◌, ◌==◌, nat_eq,
  string_eq, length,
}
use bitcoin_data_exporter.BlockParser.{script_types, Vout, init_script_type_counts, count_of}
use bitcoin_data_exporter.BlockParser.Tally.{
  grow, grow-if, total, count, known, total-snoc, count-snoc, known-snoc, length-snoc, has_type,
  count_of-count_type, has_type-count_type, normalized-has_type, count_of-zero_counts,
}
use bitcoin_data_exporter.BlockParser.Inputs.{TxKey, append_known}
use bitcoin_data_exporter.BlockParser.Outputs.{
  OutputEvent, OutputTotals, no_outputs, output_event, add_output, loop_outputs, is_zero, payout,
}

-- Each sum is what the rows so far give.
pub record IsSumOfOutputs (t : OutputTotals) : Type 0 where
  pub values : t.values ≡ known (λ e. e.value_sats) t.events
  pub scriptpubkey_bytes : t.scriptpubkey_bytes ≡ total (λ e. e.script_bytes) t.events
  pub op_returns : t.op_return_count ≡ count (λ e. e.is_op_return) t.events
  pub op_return_bytes :
      t.op_return_script_bytes ≡ total (λ e. if e.is_op_return then e.script_bytes else 0) t.events
  pub zero_values : t.zero_value_count ≡ count (λ e. is_zero e.value_sats) t.events
  pub addresses : t.coinbase_addresses ≡ known (λ e. payout e.key.is_coinbase e.address) t.events
  pub types :
      (k : String) → count_of k t.vout_type_counts ≡ count (λ e. k == e.script_type) t.events
  pub has_types : (k : String) → has_type k t.vout_type_counts ≡ has_type k init_script_type_counts

add_output-IsSumOfOutputs :
    (e : OutputEvent) (t : OutputTotals)
    → has_type e.script_type init_script_type_counts ≡ true
    → IsSumOfOutputs t
    → IsSumOfOutputs (add_output e t)
unfolding add_output
add_output-IsSumOfOutputs e t ty s = record {
  values = ap (append_known e.value_sats) s.values ∙ sym (known-snoc _ t.events e);
  scriptpubkey_bytes = grow _ _ _ _ s.scriptpubkey_bytes (total-snoc _ t.events e);
  op_returns = grow _ _ _ _ s.op_returns (count-snoc _ t.events e);
  op_return_bytes = grow _ _ _ _ s.op_return_bytes (total-snoc _ t.events e);
  zero_values = grow _ _ _ _ s.zero_values (count-snoc _ t.events e);
  addresses =
      ap (append_known (payout e.key.is_coinbase e.address)) s.addresses
      ∙ sym (known-snoc _ t.events e);
  types = λ k.
      grow-if (k == e.script_type) _ _ _ _ (s.types k)
        (count_of-count_type k e.script_type 1 t.vout_type_counts (s.has_types e.script_type ∙ ty))
        (count-snoc _ t.events e);
  has_types = λ k. has_type-count_type k e.script_type 1 t.vout_type_counts ∙ s.has_types k;
}

no_outputs-IsSumOfOutputs : IsSumOfOutputs no_outputs
unfolding no_outputs known count total init_script_type_counts
no_outputs-IsSumOfOutputs = record {
  values = refl;
  scriptpubkey_bytes = refl;
  op_returns = refl;
  op_return_bytes = refl;
  zero_values = refl;
  addresses = refl;
  types = λ k. count_of-zero_counts k script_types;
  has_types = λ k. refl;
}

loop_outputs-IsSumOfOutputs :
    (key : TxKey) (index : ℕ) (vouts : List Vout) (t : OutputTotals)
    → IsSumOfOutputs t
    → IsSumOfOutputs (loop_outputs key index vouts t)
unfolding loop_outputs output_event
loop_outputs-IsSumOfOutputs key index [] t s = s
loop_outputs-IsSumOfOutputs key index (vout ∷ vouts) t s =
    loop_outputs-IsSumOfOutputs key (index + 1) vouts _ (
      add_output-IsSumOfOutputs (output_event key index vout) t
        (normalized-has_type vout.script_type) s)

-- From the start of the loop.
pub outputs-IsSumOfOutputs :
    (key : TxKey) (vouts : List Vout) → IsSumOfOutputs (loop_outputs key 0 vouts no_outputs)
outputs-IsSumOfOutputs key vouts =
    loop_outputs-IsSumOfOutputs key 0 vouts no_outputs no_outputs-IsSumOfOutputs

pub length-loop_outputs :
    (key : TxKey) (index : ℕ) (vouts : List Vout) (t : OutputTotals)
    → length (loop_outputs key index vouts t).events ≡ length t.events + length vouts
unfolding loop_outputs add_output
length-loop_outputs key index [] t = omega arith
length-loop_outputs key index (vout ∷ vouts) t =
    let e = output_event key index vout in
    omega
      (arith, length-loop_outputs key (index + 1) vouts (add_output e t), length-snoc t.events e)
