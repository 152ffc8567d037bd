-- ===== src/Tests/Listed.antt =====
-- Lookups in a small list of rpc/sanctions_list.py (under btc_parser_app), and matches with it.
use bitcoin_data_exporter.Common.{
  ℕ, ◌≡◌, refl, true, false, none, some, List, [], ◌∷◌, ◌++◌, nat_eq, string_eq, length,
}
use bitcoin_data_exporter.Common.Dict
use bitcoin_data_exporter.Common.Dict.{Dict, dict_laws}
use bitcoin_data_exporter.Sanctions.{
  Text, text_eq, Row, broken, listed, SanctionsList, Files, new_list, no_change, normalize_address,
  reload_if_changed, lookup,
}
use bitcoin_data_exporter.Sanctions.Lookup.{
  first_listed, lookup-reload_if_changed, reload_if_changed-keeps,
}
use bitcoin_data_exporter.Sanctions.Matches.{Output, absent, Input, Lookups, spent, Match, match_tx}
use bitcoin_data_exporter.Sanctions.Matches.Every.{InputRows, OutputRows, match_tx-IsEvery}

-- BC1Q and 3a.
abbrev upper_bech32 : Text
upper_bech32 = 66 ∷ 67 ∷ 49 ∷ 81 ∷ []

abbrev base58 : Text
base58 = 51 ∷ 97 ∷ []

abbrev row : Text → Row
row a = record { address = a; name = 78 ∷ []; first_name = []; sanctions_programs = [] }

abbrev files : Files
files = record {
  mtimes = some (5 ∷ []);
  files = listed [] (row base58 ∷ row upper_bech32 ∷ []) ∷ [];
}

abbrev broken_files : Files
broken_files = record { mtimes = some (6 ∷ []); files = listed [] (row base58 ∷ []) ∷ broken ∷ [] }

abbrev empty_list : SanctionsList
empty_list = record { entries = []; mtimes = [] }

takes_list : (reload_if_changed true files empty_list).0 ≡ new_list
unfolding reload_if_changed
takes_list = refl

lookup-reload_if_changed_example :
    lookup (some upper_bech32) (reload_if_changed true files empty_list).1
    ≡ first_listed (normalize_address upper_bech32) files.files
lookup-reload_if_changed_example =
    lookup-reload_if_changed true files empty_list upper_bech32 refl takes_list

reload_if_changed-keeps_example :
    let (r, t) = reload_if_changed false broken_files empty_list in
    (r ≡ no_change) × (lookup (some base58) t ≡ lookup (some base58) empty_list)
reload_if_changed-keeps_example =
    reload_if_changed-keeps false broken_files empty_list (some base58) refl

abbrev to : ℕ → Text → Output
to n a = record { n = n; script = record { address = some a; addresses = [] }; value = none }

abbrev node : Lookups
node = record { tx_out = λ t n. spent; parent = λ t. some (to 0 base58 ∷ []) }

abbrev from_parent : Input
from_parent = record { is_coinbase = false; txid = "p"; vout = 0; prevout = absent }

match_tx-IsEvery_example :
    let s = (reload_if_changed true files empty_list).1 in
    (ins : List Match) × (outs : List Match) × (match_tx node s
        (from_parent ∷ [])
        (to 0 upper_bech32 ∷ [])
      ≡ ins ++ outs)
    × InputRows node s 0 (from_parent ∷ []) ins
    × OutputRows s (to 0 upper_bech32 ∷ []) outs
match_tx-IsEvery_example =
    match_tx-IsEvery node (reload_if_changed true files empty_list).1 (from_parent ∷ [])
      (to 0 upper_bech32 ∷ [])

-- Both are found.
match_tx_test :
    length (
      match_tx node
        (reload_if_changed true files empty_list).1
        (from_parent ∷ [])
        (to 0 upper_bech32 ∷ []))
    ≡ 2
unfolding match_tx reload_if_changed text_eq nat_eq Dict.get Dict.insert
match_tx_test = refl
