-- ===== src/BlockParser/Rows/Types.antt =====
-- The counts of script types in the rows of transactions (rpc/block_parser.py under btc_parser_app): every
-- row counts the same types, each one once.
use bitcoin_data_exporter.Common.{
  ℕ, ◌+◌, String, ◌≡◌, refl, sym, ap, ◌∙◌, inl, inr, true, false, Option, none, some, List, [], ◌∷◌,
  arith, Bool-cases, ◌==◌, nat_eq, string_eq, contains, All,
}
use bitcoin_data_exporter.Common.{subst}
use bitcoin_data_exporter.Common.Dict.{Dict}
use bitcoin_data_exporter.BlockParser.{
  script_types, Vin, Vout, init_script_type_counts, count_type, count_of,
}
use bitcoin_data_exporter.BlockParser.Tally.{
  total, has_type, count_of-count_type, count_of-zero_counts,
}
use bitcoin_data_exporter.BlockParser.Inputs.{
  TxKey, InputTotals, no_inputs, input_event, add_input, loop_inputs, count_known_type,
}
use bitcoin_data_exporter.BlockParser.Outputs.{
  OutputTotals, no_outputs, output_event, add_output, loop_outputs,
}
use bitcoin_data_exporter.BlockParser.Transaction.{TxEvent}
use bitcoin_data_exporter.BlockParser.Totals.{add_counts, loop_counts}

-- The types that are counted, in their order.
unfoldable pub types_of : Dict String ℕ → List String
types_of [] = []
types_of ((t, n) ∷ d) = t ∷ types_of d

types_of-count_type :
    (t : String) (n : ℕ) (d : Dict String ℕ) → types_of (count_type t n d) ≡ types_of d
unfolding types_of count_type
types_of-count_type t n [] = refl
types_of-count_type t n ((u, k) ∷ d) = ground (arith, types_of-count_type t n d)

types_of-known_type :
    (o : Option String) (d : Dict String ℕ) → types_of (count_known_type o d) ≡ types_of d
unfolding count_known_type
types_of-known_type none d = refl
types_of-known_type (some t) d = types_of-count_type t 1 d

types_of-loop_inputs :
    (key : TxKey) (version : Option ℕ) (index : ℕ) (vins : List Vin) (t : InputTotals)
    → types_of (loop_inputs key version index vins t).vin_type_counts ≡ types_of t.vin_type_counts
unfolding loop_inputs add_input
types_of-loop_inputs key version index [] t = refl
types_of-loop_inputs key version index (vin ∷ vins) t =
    let e = input_event key version index vin in
    types_of-loop_inputs key version (index + 1) vins (add_input e t)
    ∙ types_of-known_type e.prevout_type t.vin_type_counts

types_of-loop_outputs :
    (key : TxKey) (index : ℕ) (vouts : List Vout) (t : OutputTotals)
    → types_of (loop_outputs key index vouts t).vout_type_counts ≡ types_of t.vout_type_counts
unfolding loop_outputs add_output
types_of-loop_outputs key index [] t = refl
types_of-loop_outputs key index (vout ∷ vouts) t =
    let e = output_event key index vout in
    types_of-loop_outputs key (index + 1) vouts (add_output e t)
    ∙ types_of-count_type e.script_type 1 t.vout_type_counts

types_of-init : types_of init_script_type_counts ≡ script_types
unfolding types_of init_script_type_counts
types_of-init = refl

pub inputs-types :
    (key : TxKey) (version : Option ℕ) (vins : List Vin)
    → types_of (loop_inputs key version 0 vins no_inputs).vin_type_counts ≡ script_types
unfolding no_inputs
inputs-types key version vins = types_of-loop_inputs key version 0 vins no_inputs ∙ types_of-init

pub outputs-types :
    (key : TxKey) (vouts : List Vout)
    → types_of (loop_outputs key 0 vouts no_outputs).vout_type_counts ≡ script_types
unfolding no_outputs
outputs-types key vouts = types_of-loop_outputs key 0 vouts no_outputs ∙ types_of-init

-- No type is there twice.
abbrev Distinct : List String → Type 0
Distinct [] = Unit
Distinct (t ∷ ts) = (contains ts t ≡ false) × Distinct ts

script_types-Distinct : Distinct script_types
unfolding string_eq
script_types-Distinct = (
  refl,
  (refl, (refl, (refl, (refl, (refl, (refl, (refl, (refl, (refl, (refl, (refl, tt))))))))))),
)

has_type-types_of : (t : String) (d : Dict String ℕ) → has_type t d ≡ contains (types_of d) t
unfolding has_type types_of
has_type-types_of t [] = refl
has_type-types_of t ((u, k) ∷ d) = ground (arith, has_type-types_of t d)

absent_type : (t : String) (d : Dict String ℕ) → contains (types_of d) t ≡ false → count_of t d ≡ 0
unfolding types_of
absent_type t [] h = refl
absent_type t ((u, k) ∷ d) h = ground (arith, absent_type t d, h)

-- The types of the one are among those of the other.
abbrev Among : Dict String ℕ → Dict String ℕ → Type 0
Among c d = (t : String) → contains (types_of c) t ≡ true → has_type t d ≡ true

count_of-add_counts :
    (k : String) (c d : Dict String ℕ)
    → Distinct (types_of c)
    → Among c d
    → count_of k (add_counts c d) ≡ count_of k d + count_of k c
unfolding add_counts types_of
count_of-add_counts k [] d u h = omega arith
count_of-add_counts k ((t, n) ∷ c) d (new, u) h =
    let rest = count_of-add_counts k c (count_type t n d) u (later t n c d h) in
    let now = count_of-count_type k t n d (h t (ground arith)) in
    elim (Bool-cases (k == t)) [
      | inl e ↦
          let gone : count_of k c ≡ 0 =
            subst (λ j. count_of j c ≡ 0) (ground (arith, e)) (absent_type t c new) in
          ground (arith, e, rest, now, gone)
      | inr e ↦ ground (arith, e, rest, now)
    ]
  where
    later :
        (t : String) (n : ℕ) (c d : Dict String ℕ)
        → Among ((t, n) ∷ c) d
        → Among c (count_type t n d)
    later t n c d h j e = ground (
      arith,
      h j,
      e,
      has_type-types_of j (count_type t n d),
      has_type-types_of j d,
      types_of-count_type t n d,
    )

types_of-add_counts : (c d : Dict String ℕ) → types_of (add_counts c d) ≡ types_of d
unfolding add_counts
types_of-add_counts [] d = refl
types_of-add_counts ((t, n) ∷ c) d =
    types_of-add_counts c (count_type t n d) ∙ types_of-count_type t n d

added :
    (k : String) (c d : Dict String ℕ)
    → types_of c ≡ script_types
    → types_of d ≡ script_types
    → count_of k (add_counts c d) ≡ count_of k d + count_of k c
added k c d p q =
    count_of-add_counts k c d (subst Distinct (sym p) script_types-Distinct)
      (λ t h. has_type-types_of t d ∙ ap (λ ts. contains ts t) (q ∙ sym p) ∙ h)

module _ {F : Type 0} where
  -- A row counts every type once, for its inputs and for its outputs.
  pub record IsCounting (e : TxEvent F) : Type 0 where
    pub ins : types_of e.vin_type_counts ≡ script_types
    pub outs : types_of e.vout_type_counts ≡ script_types

  loop_counts-total :
      (k : String) (es : List (TxEvent F)) (ins outs : Dict String ℕ)
      → All IsCounting es
      → types_of ins ≡ script_types
      → types_of outs ≡ script_types
      → let types = loop_counts es (ins, outs) in
        (count_of k types.0 ≡ count_of k ins + total (λ e. count_of k e.vin_type_counts) es)
        × (count_of k types.1 ≡ count_of k outs + total (λ e. count_of k e.vout_type_counts) es)
  unfolding loop_counts total
  loop_counts-total k [] ins outs all p q = (omega arith, omega arith)
  loop_counts-total k (e ∷ es) ins outs (here, all) p q =
      let (a, b) =
        loop_counts-total k es (add_counts e.vin_type_counts ins)
          (add_counts e.vout_type_counts outs) all (types_of-add_counts e.vin_type_counts ins ∙ p)
          (types_of-add_counts e.vout_type_counts outs ∙ q) in
      (
        omega (arith, a, added k e.vin_type_counts ins here.ins p),
        omega (arith, b, added k e.vout_type_counts outs here.outs q),
      )

  -- The counts of the block are those of its rows, added up.
  pub type_totals :
      (k : String) (es : List (TxEvent F))
      → All IsCounting es
      → let types = loop_counts es (init_script_type_counts, init_script_type_counts) in
        (count_of k types.0 ≡ total (λ e. count_of k e.vin_type_counts) es)
        × (count_of k types.1 ≡ total (λ e. count_of k e.vout_type_counts) es)
  unfolding init_script_type_counts
  type_totals k es all =
      let (a, b) =
        loop_counts-total k es init_script_type_counts init_script_type_counts all types_of-init
          types_of-init in
      let none_yet = count_of-zero_counts k script_types in
      (omega (arith, a, none_yet), omega (arith, b, none_yet))
