-- ===== src/BlockParser/Rows/OfInputs.antt =====
-- The sums of the first loop of `aggregate_transaction` (rpc/block_parser.py under btc_parser_app),
-- against the rows that it makes.
use bitcoin_data_exporter.Common.{
  ℕ, ◌+◌, String, ◌≡◌, refl, sym, ap, ◌∙◌, Bool, true, false, ◌||◌, Option, none, some, List, [],
  ◌∷◌, arith, ltb, is_some, ◌==◌, nat_eq, string_eq, length,
}
use bitcoin_data_exporter.Common.Dict.{Dict}
use bitcoin_data_exporter.BlockParser.{
  script_types, Vin, Prevout, init_script_type_counts, count_of,
}
use bitcoin_data_exporter.BlockParser.Tally.{
  grow, total, count, any, known, total-snoc, count-snoc, any-snoc, known-snoc, length-snoc,
  has_type, count_of-count_type, has_type-count_type, normalized-has_type, count_of-zero_counts,
}
use bitcoin_data_exporter.BlockParser.Inputs.{
  TxKey, InputEvent, InputTotals, no_inputs, input_event, add_input, loop_inputs, one_if, is_true,
  pair_of, spent, count_known_type, append_known,
}

-- Whether a row has this script type.
abbrev pub is_type : String → Option String → Bool
is_type k none = false
is_type k (some t) = k == t

-- Each sum is what the rows so far give.
pub record IsSumOfInputs (t : InputTotals) : Type 0 where
  pub known_values : t.known_values ≡ known (λ e. e.value_sats) t.events
  pub ages : t.ages ≡ known (λ e. e.input_age_blocks) t.events
  pub age_value_pairs :
      t.age_value_pairs ≡ known (λ e. pair_of e.input_age_blocks e.value_sats) t.events
  pub value_known : t.value_known_count ≡ count (λ e. is_some e.value_sats) t.events
  pub height_known : t.height_known_count ≡ count (λ e. is_some e.prevout_height) t.events
  pub generated : t.generated_count ≡ count (λ e. is_true e.prevout_generated) t.events
  pub witness_inputs : t.witness_input_count ≡ count (λ e. ltb 0 e.witness_item_count) t.events
  pub witness_items : t.witness_item_count ≡ total (λ e. e.witness_item_count) t.events
  pub witness_bytes : t.witness_data_bytes ≡ total (λ e. e.witness_data_bytes) t.events
  pub scriptsig_bytes : t.scriptsig_bytes ≡ total (λ e. e.scriptsig_bytes) t.events
  pub signals_rbf : t.signals_rbf ≡ any (λ e. e.signals_rbf) t.events
  pub types :
      (k : String) → count_of k t.vin_type_counts ≡ count (λ e. is_type k e.prevout_type) t.events
  pub has_types : (k : String) → has_type k t.vin_type_counts ≡ has_type k init_script_type_counts

-- A row's script type is one of those that are counted.
unfoldable pub IsTyped : Option String → Type 0
IsTyped none = Unit
IsTyped (some t) = has_type t init_script_type_counts ≡ true

spent-IsTyped : (height : ℕ) (p : Option Prevout) → IsTyped (spent height p).script_type
unfolding spent IsTyped
spent-IsTyped height none = tt
spent-IsTyped height (some p) = normalized-has_type p.script_type

input_event-IsTyped :
    (key : TxKey) (version : Option ℕ) (index : ℕ) (vin : Vin)
    → IsTyped (input_event key version index vin).prevout_type
unfolding input_event
input_event-IsTyped key version index vin = spent-IsTyped key.block_height vin.prevout

known_type-types :
    (k : String) (o : Option String) (d : Dict String ℕ)
    → IsTyped o
    → ((u : String) → has_type u d ≡ has_type u init_script_type_counts)
    → count_of k (count_known_type o d) ≡ count_of k d + one_if (is_type k o)
unfolding count_known_type IsTyped
known_type-types k none d ty h = omega arith
known_type-types k (some t) d ty h = ground (arith, count_of-count_type k t 1 d (h t ∙ ty))

known_type-has_types :
    (k : String) (o : Option String) (d : Dict String ℕ)
    → has_type k (count_known_type o d) ≡ has_type k d
unfolding count_known_type
known_type-has_types k none d = refl
known_type-has_types k (some t) d = has_type-count_type k t 1 d

add_input-IsSumOfInputs :
    (e : InputEvent) (t : InputTotals)
    → IsTyped e.prevout_type
    → IsSumOfInputs t
    → IsSumOfInputs (add_input e t)
unfolding add_input
add_input-IsSumOfInputs e t ty s = record {
  known_values = ap (append_known e.value_sats) s.known_values ∙ sym (known-snoc _ t.events e);
  ages = ap (append_known e.input_age_blocks) s.ages ∙ sym (known-snoc _ t.events e);
  age_value_pairs =
      ap (append_known (pair_of e.input_age_blocks e.value_sats)) s.age_value_pairs
      ∙ sym (known-snoc _ t.events e);
  value_known = grow _ _ _ _ (s.value_known) (count-snoc _ t.events e);
  height_known = grow _ _ _ _ s.height_known (count-snoc _ t.events e);
  generated = grow _ _ _ _ s.generated (count-snoc _ t.events e);
  witness_inputs = grow _ _ _ _ s.witness_inputs (count-snoc _ t.events e);
  witness_items = grow _ _ _ _ s.witness_items (total-snoc _ t.events e);
  witness_bytes = grow _ _ _ _ s.witness_bytes (total-snoc _ t.events e);
  scriptsig_bytes = grow _ _ _ _ s.scriptsig_bytes (total-snoc _ t.events e);
  signals_rbf = ap (λ b. b || e.signals_rbf) s.signals_rbf ∙ sym (any-snoc _ t.events e);
  types = λ k.
      known_type-types k e.prevout_type t.vin_type_counts ty s.has_types
      ∙ grow _ _ _ _ (s.types k) (count-snoc _ t.events e);
  has_types = λ k. known_type-has_types k e.prevout_type t.vin_type_counts ∙ s.has_types k;
}

no_inputs-IsSumOfInputs : IsSumOfInputs no_inputs
unfolding no_inputs known count total any init_script_type_counts
no_inputs-IsSumOfInputs = record {
  known_values = refl;
  ages = refl;
  age_value_pairs = refl;
  value_known = refl;
  height_known = refl;
  generated = refl;
  witness_inputs = refl;
  witness_items = refl;
  witness_bytes = refl;
  scriptsig_bytes = refl;
  signals_rbf = refl;
  types = λ k. count_of-zero_counts k script_types;
  has_types = λ k. refl;
}

pub loop_inputs-IsSumOfInputs :
    (key : TxKey) (version : Option ℕ) (index : ℕ) (vins : List Vin) (t : InputTotals)
    → IsSumOfInputs t
    → IsSumOfInputs (loop_inputs key version index vins t)
unfolding loop_inputs
loop_inputs-IsSumOfInputs key version index [] t s = s
loop_inputs-IsSumOfInputs key version index (vin ∷ vins) t s =
    loop_inputs-IsSumOfInputs key version (index + 1) vins _ (
      add_input-IsSumOfInputs (input_event key version index vin) t
        (input_event-IsTyped key version index vin) s)

-- From the start of the loop.
pub inputs-IsSumOfInputs :
    (key : TxKey) (version : Option ℕ) (vins : List Vin)
    → IsSumOfInputs (loop_inputs key version 0 vins no_inputs)
inputs-IsSumOfInputs key version vins =
    loop_inputs-IsSumOfInputs key version 0 vins no_inputs no_inputs-IsSumOfInputs

pub length-loop_inputs :
    (key : TxKey) (version : Option ℕ) (index : ℕ) (vins : List Vin) (t : InputTotals)
    → length (loop_inputs key version index vins t).events ≡ length t.events + length vins
unfolding loop_inputs add_input
length-loop_inputs key version index [] t = omega arith
length-loop_inputs key version index (vin ∷ vins) t =
    let e = input_event key version index vin in
    omega (
      arith,
      length-loop_inputs key version (index + 1) vins (add_input e t),
      length-snoc t.events e,
    )
