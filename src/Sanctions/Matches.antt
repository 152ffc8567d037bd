-- ===== src/Sanctions/Matches.antt =====
-- `match_tx` of rpc/mempool_watch.py (under btc_parser_app): which inputs and outputs of a
-- transaction are on the list.
pub mod Every
use bitcoin_data_exporter.Common.{
  ℕ, zero, suc, ◌+◌, String, ◌≡◌, inl, inr, Bool, Option, none, some, List, [], ◌∷◌, ◌++◌, arith,
  if◌then◌else◌, Bool-cases, or_else, nat_eq, string_eq, length, length-append,
}
use bitcoin_data_exporter.BlockParser.{Amount, btc_to_sats}
use bitcoin_data_exporter.Sanctions.{Text, text_eq, SanctionedAddress, SanctionsList, lookup}

-- A scriptPubKey: `address` on newer nodes, `addresses` on older ones.
pub record ScriptPubKey : Type 0 where
  pub address : Option Text
  pub addresses : List Text

pub record Output : Type 0 where
  pub n : ℕ
  pub script : ScriptPubKey
  pub value : Option Amount

-- The key `prevout` of an input: not there, there with null, or there with an output.
pub data PrevoutKey : Type 0 where
  absent : PrevoutKey
  null : PrevoutKey
  inline : Output → PrevoutKey

pub record Input : Type 0 where
  pub is_coinbase : Bool
  pub txid : String
  pub vout : ℕ
  pub prevout : PrevoutKey

-- What `gettxout` answers: the node's own error, no output, or the output.
pub data TxOut : Type 0 where
  no_answer : TxOut
  spent : TxOut
  unspent : Output → TxOut

-- The node: `gettxout`, and the outputs that `getrawtransaction` gives, or its error.
pub record Lookups : Type 0 where
  pub tx_out : String → ℕ → TxOut
  pub parent : String → Option (List Output)

pub data Direction : Type 0 where
  input : Direction
  output : Direction

-- A row of `_match_row`; the columns of the list are those of `entry`.
pub record Match : Type 0 where
  pub direction : Direction
  pub io_index : ℕ
  pub address : Option Text
  pub value_sats : Option ℕ
  pub entry : SanctionedAddress

unfoldable pub element : ℕ → List Output → Option Output
element n [] = none
element zero (o ∷ os) = some o
element (suc n) (o ∷ os) = element n os

unfoldable pub of_parent : Option (List Output) → ℕ → Option Output
unfolding element
of_parent none n = none
of_parent (some os) n = element n os

unfoldable pub of_tx_out : TxOut → Option (List Output) → ℕ → Option Output
unfolding of_parent
of_tx_out no_answer parent n = none
of_tx_out (unspent o) parent n = some o
of_tx_out spent parent n = of_parent parent n

unfoldable pub known_or : PrevoutKey → Option Output → Option Output
known_or absent o = o
known_or null o = none
known_or (inline p) o = some p

-- `_prevout`
unfoldable pub prevout_of : Lookups → Input → Option Output
unfolding known_or of_tx_out
prevout_of node vin =
    known_or vin.prevout (of_tx_out (node.tx_out vin.txid vin.vout) (node.parent vin.txid) vin.vout)

unfoldable pub only_address : List Text → Option Text
only_address [] = none
only_address (a ∷ []) = some a
only_address (a ∷ b ∷ rest) = none

-- `_script_address`
unfoldable pub script_address : ScriptPubKey → Option Text
unfolding only_address
script_address s = or_else s.address (only_address s.addresses)

-- The list's entry for an output.
unfoldable pub listed_output : SanctionsList → Output → Option SanctionedAddress
unfolding script_address lookup
listed_output s o = lookup (script_address o.script) s

-- `matches.append(_match_row(...))`, where there is an entry.
unfoldable pub add_match :
    Direction → ℕ → Output → Option SanctionedAddress → List Match → List Match
unfolding script_address btc_to_sats
add_match direction index o none matches = matches
add_match direction index o (some entry) matches =
    matches
    ++ record {
      direction = direction;
      io_index = index;
      address = script_address o.script;
      value_sats = btc_to_sats o.value;
      entry = entry;
    }
      ∷ []

unfoldable pub match_prevout : SanctionsList → ℕ → Option Output → List Match → List Match
unfolding listed_output add_match
match_prevout s index none matches = matches
match_prevout s index (some o) matches = add_match input index o (listed_output s o) matches

unfoldable pub match_inputs : Lookups → SanctionsList → ℕ → List Input → List Match → List Match
unfolding match_prevout prevout_of
match_inputs node s index [] matches = matches
match_inputs node s index (vin ∷ vins) matches =
    match_inputs node s (index + 1) vins
      (if vin.is_coinbase then matches else match_prevout s index (prevout_of node vin) matches)

unfoldable pub match_outputs : SanctionsList → List Output → List Match → List Match
unfolding listed_output add_match
match_outputs s [] matches = matches
match_outputs s (o ∷ os) matches =
    match_outputs s os (add_match output o.n o (listed_output s o) matches)

-- `match_tx`
unfoldable pub match_tx : Lookups → SanctionsList → List Input → List Output → List Match
unfolding match_inputs match_outputs
match_tx node s vins vouts = match_outputs s vouts (match_inputs node s 0 vins [])
