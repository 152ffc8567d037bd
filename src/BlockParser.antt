-- ===== src/BlockParser.antt =====
-- rpc/block_parser.py (under btc_parser_app): the rows made of a block. This file has the payload of
-- `getblock` and the helpers at the top of the source.
pub mod Pools
pub mod Inputs
pub mod Outputs
pub mod Transaction
pub mod Totals
pub mod Aggregate
pub mod Parsed
pub mod Tally
pub mod Rows
pub mod Fees
pub mod Values
pub mod Supply
use bitcoin_data_exporter.Common.{
  ℕ, zero, suc, ◌+◌, ◌-◌, ◌*◌, ◌≤◌, ◌<◌, min, max, String, ◌≡◌, refl, sym, ap, ◌∙◌, ◌≢◌, ◌⊎◌, inl,
  inr, Bool, true, false, not, ◌&&◌, ◌||◌, Option, none, some, List, [], ◌∷◌, ◌++◌, map, append-nil,
  append_assoc, arith, ltb, leb, if◌then◌else◌, Bool-cases, Option-cases, is_some, or_else, Eq,
  ◌==◌, nat_eq, string_eq, contains, length, is_empty, length-append, filter, All, All-append,
  max_or,
}
use bitcoin_data_exporter.Common.Dict
use bitcoin_data_exporter.Common.Dict.{Dict, dict_laws}
use bitcoin_data_exporter.Common.{◌%◌, ◌^◌, ◌/◌, ℤ, difference}
use Prim.Native.String

-- A Decimal that is not negative: `digits` divided by 10 to the `places`.
pub record Amount : Type 0 where
  pub digits : ℕ
  pub places : ℕ

-- The output that an input spends, where the node gives it.
pub record Prevout : Type 0 where
  pub generated : Option Bool
  pub value : Option Amount
  pub height : Option ℕ
  pub script_type : Option String
  pub address : Option String

pub record Vin : Type 0 where
  pub coinbase : Option String
  pub txid : Option String
  pub vout : Option ℕ
  pub script_sig_hex : Option String
  pub txinwitness : List String
  pub sequence : Option ℕ
  pub prevout : Option Prevout

pub record Vout : Type 0 where
  pub value : Option Amount
  pub script_hex : Option String
  pub script_type : Option String
  pub address : Option String

pub record Tx : Type 0 where
  pub txid : String
  pub hash : String
  pub version : Option ℕ
  pub size : Option ℕ
  pub vsize : Option ℕ
  pub weight : Option ℕ
  pub locktime : Option ℕ
  pub fee : Option Amount
  pub vin : List Vin
  pub vout : List Vout

-- The fields of a block that rows copy as they are: version, versionHex, merkleroot, mediantime, nonce,
-- bits, target, difficulty, chainwork, nTx, strippedsize and size are kept as one value; so are the float of
-- the difficulty and the logarithm of the chain work, which the row has in their place.
pub record Block (C : Type 0) : Type 0 where
  pub hash : String
  pub height : ℕ
  pub time : ℕ
  pub previousblockhash : Option String
  pub weight : Option ℕ
  pub copied : C
  pub tx : List Tx

-- The part of `config.rpc` that the parser reads.
pub record ParserConfig : Type 0 where
  pub blocks_per_day : ℕ
  pub max_block_weight : ℕ
  pub halving_interval_blocks : ℕ
  pub initial_subsidy_sats : ℕ

-- What the source does with a float: true division of integers, and a few operations on floats, `sum` of a
-- list among them.
pub record Floats (F : Type 0) : Type 0 where
  pub nought : F
  pub ratio : ℤ → ℕ → F
  pub add : F → F → F
  pub sum_of : List F → F
  pub divide : F → ℕ → F
  pub times : F → ℕ → F
  pub at_most : F → F → Bool

-- `sum`
abbrev pub sum : List ℕ → ℕ
sum [] = 0
sum (n ∷ ns) = n + sum ns

-- `+` on integers.
infixl 60 ◌+ℤ◌
abbrev pub ◌+ℤ◌ : ℤ → ℤ → ℤ
ℤ.pos a +ℤ ℤ.pos b = ℤ.pos (a + b)
ℤ.pos a +ℤ ℤ.negsuc b = difference a (b + 1)
ℤ.negsuc a +ℤ ℤ.pos b = difference b (a + 1)
ℤ.negsuc a +ℤ ℤ.negsuc b = ℤ.negsuc (a + b + 1)

-- Rounding to the nearest integer, and half-way to the even one.
unfoldable pub round_half_even : ℕ → ℕ → ℕ
round_half_even n d =
    let q = n / d in
    let r = n % d in if ltb d (2 * r) || (2 * r == d && q % 2 == 1) then q + 1 else q

-- How many digits a number has beyond 28; as much fuel as the number itself is enough.
unfoldable pub excess_digits : ℕ → ℕ → ℕ
excess_digits zero n = 0
excess_digits (suc fuel) n = elim (ltb n (10 ^ 28)) [
  | true ↦ 0
  | false ↦ suc (excess_digits fuel (n / 10))
]

-- What the default context of `decimal` makes of the digits of a product: 28 of them are kept.
unfoldable pub context_round : ℕ → ℕ
unfolding round_half_even excess_digits
context_round n =
    let unit = 10 ^ excess_digits n n in
    if ltb n (10 ^ 28) then n else round_half_even n unit * unit

-- `int((value * SATOSHIS_PER_BTC).to_integral_value())`
unfoldable pub to_sats : Amount → ℕ
unfolding round_half_even context_round
to_sats a = round_half_even (context_round (a.digits * 10 ^ 8)) (10 ^ a.places)

-- `btc_to_sats`
unfoldable pub btc_to_sats : Option Amount → Option ℕ
unfolding to_sats
btc_to_sats none = none
btc_to_sats (some a) = some (to_sats a)

-- `hex_data_bytes`
unfoldable pub hex_data_bytes : Option String → ℕ
hex_data_bytes none = 0
hex_data_bytes (some t) = String.count t / 2

abbrev pub other : String
other = "other"

abbrev pub script_types : List String
script_types =
    "nonstandard" ∷ "pubkey" ∷ "pubkeyhash" ∷ "scripthash" ∷ "multisig" ∷ "nulldata"
    ∷ "witness_v0_keyhash" ∷ "witness_v0_scripthash" ∷ "witness_v1_taproot" ∷ "witness_unknown"
    ∷ "anchor" ∷ other ∷ []

-- `normalized_script_type`
unfoldable pub normalized_script_type : Option String → String
normalized_script_type none = other
normalized_script_type (some t) = if contains script_types t && not (t == other) then t else other

unfoldable pub zero_counts : List String → Dict String ℕ
zero_counts [] = []
zero_counts (t ∷ ts) = (t, 0) ∷ zero_counts ts

-- `init_script_type_counts`, with the types themselves as the keys.
unfoldable pub init_script_type_counts : Dict String ℕ
unfolding zero_counts
init_script_type_counts = zero_counts script_types

-- `counts[key] += n`, for a key that is there.
unfoldable pub count_type : String → ℕ → Dict String ℕ → Dict String ℕ
count_type t n [] = []
count_type t n ((u, k) ∷ d) =
    let rest = count_type t n d in if t == u then (u, k + n) ∷ d else (u, k) ∷ rest

abbrev pub count_of : String → Dict String ℕ → ℕ
count_of t [] = 0
count_of t ((u, k) ∷ d) = if t == u then k else count_of t d

abbrev pub total_count : Dict String ℕ → ℕ
total_count [] = 0
total_count ((_, k) ∷ d) = k + total_count d

pub data LocktimeType : Type 0 where
  time : LocktimeType
  blocks : LocktimeType

-- Bit n of a number.
abbrev pub bit : ℕ → ℕ → Bool
bit n a = (a / 2 ^ n) % 2 == 1

-- The relative lock time of a sequence number: its type by bit 22, its value in the low 16 bits.
abbrev pub locktime : ℕ → LocktimeType × ℕ
locktime seq = (if bit 22 seq then time else blocks, seq % 2 ^ 16)

-- `decode_sequence`: whether the input signals replace-by-fee, and its relative lock time. A missing version
-- counts as 0.
unfoldable pub decode_sequence : Option ℕ → Option ℕ → Bool → Bool × Option (LocktimeType × ℕ)
decode_sequence none version is_coinbase = (false, none)
decode_sequence (some seq) version is_coinbase = (
  not is_coinbase && ltb seq 4294967294,
  if is_coinbase || (ltb (elim version [ none ↦ 0 | some v ↦ v ]) 2 || bit 31 seq)
      then none
      else some (locktime seq),
)

-- `block_subsidy_sats`, for a halving interval that is not 0.
unfoldable pub block_subsidy_sats : ℕ → ℕ → ℕ → ℕ
block_subsidy_sats halving_interval_blocks initial_subsidy_sats height =
    let halvings = height / halving_interval_blocks in
    if leb 64 halvings then 0 else initial_subsidy_sats / 2 ^ halvings
