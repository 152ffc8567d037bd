-- ===== src/Sanctions.antt =====
-- rpc/sanctions_list.py (under btc_parser_app), and the matching of a transaction in rpc/mempool_watch.py.
-- A text is its code points; `lower` and `strip` are those of ASCII texts, which addresses are.
pub mod Lookup
pub mod Matches
use bitcoin_data_exporter.Common.{
  ℕ, zero, suc, ◌+◌, ◌-◌, ◌*◌, ◌≤◌, ◌<◌, min, max, String, ◌≡◌, refl, sym, ap, ◌∙◌, ◌≢◌, ◌⊎◌, inl,
  inr, Bool, true, false, not, ◌&&◌, ◌||◌, Option, none, some, List, [], ◌∷◌, ◌++◌, map, append-nil,
  append_assoc, arith, ltb, leb, if◌then◌else◌, Bool-cases, Option-cases, is_some, or_else, Eq,
  ◌==◌, nat_eq, string_eq, contains, length, is_empty, length-append, filter, All, All-append,
  max_or,
}
use bitcoin_data_exporter.Common.Dict
use bitcoin_data_exporter.Common.Dict.{Dict, dict_laws}
use bitcoin_data_exporter.BlockParser.{Amount, btc_to_sats}
use mathlib.Core.Logic.{dite}
use mathlib.Core.List.{cons≢nil}
use bitcoin_data_exporter.Common.{ℕ_discrete}

abbrev pub Text : Type 0
Text = List ℕ

first_code : Text → ℕ
first_code [] = 0
first_code (c ∷ t) = c

rest_codes : Text → Text
rest_codes [] = []
rest_codes (c ∷ t) = t

unfoldable text_dec : Discrete Text
unfolding ℕ_discrete first_code rest_codes
text_dec [] [] = yes refl
text_dec [] (d ∷ t) = no (λ e. cons≢nil (sym e))
text_dec (c ∷ s) [] = no (λ e. cons≢nil e)
text_dec (c ∷ s) (d ∷ t) =
    dite (ℕ_discrete c d)
      (λ p. dite (text_dec s t) (λ q. yes (λ i. p i ∷ q i)) (λ n. no (λ r. n (ap rest_codes r))))
      (λ n. no (λ r. n (ap first_code r)))

instance unfoldable pub text_eq : Eq Text
unfolding text_dec
text_eq = record { dec = text_dec }

abbrev pub is_space : ℕ → Bool
is_space n = n == 32 || (leb 9 n && leb n 13 || leb 28 n && leb n 31)

unfoldable pub skip_spaces : Text → Text
skip_spaces [] = []
skip_spaces (c ∷ t) = let rest = skip_spaces t in if is_space c then rest else c ∷ t

unfoldable pub reversed_onto : Text → Text → Text
reversed_onto [] t = t
reversed_onto (c ∷ s) t = reversed_onto s (c ∷ t)

-- `strip`
unfoldable pub strip : Text → Text
unfolding skip_spaces reversed_onto
strip t = reversed_onto (skip_spaces (reversed_onto (skip_spaces t) [])) []

-- `lower`
unfoldable pub lower : Text → Text
lower [] = []
lower (c ∷ t) = (if leb 65 c && leb c 90 then c + 32 else c) ∷ lower t

abbrev pub starts_with : Text → Text → Bool
starts_with [] t = true
starts_with (p ∷ ps) [] = false
starts_with (p ∷ ps) (c ∷ t) = p == c && starts_with ps t

-- `_BECH32_PREFIXES`: bc1, tb1 and bcrt1.
abbrev pub has_bech32_prefix : Text → Bool
has_bech32_prefix t =
    starts_with (98 ∷ 99 ∷ 49 ∷ []) t
    || (starts_with (116 ∷ 98 ∷ 49 ∷ []) t || starts_with (98 ∷ 99 ∷ 114 ∷ 116 ∷ 49 ∷ []) t)

unfoldable pub normalize_address : Text → Text
unfolding strip lower
normalize_address address =
    let t = strip address in if has_bech32_prefix (lower t) then lower t else t

-- A row of a list file, by the columns of its header; a column that is missing is empty.
pub record Row : Type 0 where
  pub address : Text
  pub name : Text
  pub first_name : Text
  pub sanctions_programs : Text

pub record SanctionedAddress : Type 0 where
  pub address : Text
  pub name : Text
  pub first_name : Text
  pub sanctions_programs : Text
  pub list_file : Text

-- What reading a list file gives: an error (it cannot be read, its CSV is broken, or its header has no
-- address column), or its rows.
pub data ListFile : Type 0 where
  broken : ListFile
  listed : Text → List Row → ListFile

unfoldable pub entry_of : Text → Row → SanctionedAddress
unfolding normalize_address strip
entry_of list_file row = record {
  address = normalize_address row.address;
  name = strip row.name;
  first_name = strip row.first_name;
  sanctions_programs = strip row.sanctions_programs;
  list_file = list_file;
}

-- `entries[address] = entry` for an address that is not there yet, and `setdefault`.
unfoldable pub set_default :
    Text → SanctionedAddress → Dict Text SanctionedAddress → Dict Text SanctionedAddress
set_default k e d = if Dict.has k d then d else Dict.insert k e d

-- The loop of `_load_file`.
unfoldable pub load_rows :
    Text → List Row → Dict Text SanctionedAddress → Dict Text SanctionedAddress
unfolding entry_of set_default normalize_address
load_rows list_file [] entries = entries
load_rows list_file (row ∷ rows) entries = load_rows list_file rows (
    if is_empty (normalize_address row.address)
    then entries
    else set_default (normalize_address row.address) (entry_of list_file row) entries)

-- `for address, entry in _load_file(path).items(): merged.setdefault(address, entry)`
unfoldable pub merge :
    Dict Text SanctionedAddress → Dict Text SanctionedAddress → Dict Text SanctionedAddress
unfolding set_default
merge [] merged = merged
merge ((k, e) ∷ entries) merged = merge entries (set_default k e merged)

-- The loop over the files, up to the first one that is broken.
unfoldable pub load_files :
    List ListFile → Dict Text SanctionedAddress → Option (Dict Text SanctionedAddress)
unfolding load_rows merge
load_files [] merged = some merged
load_files (broken ∷ files) merged = none
load_files (listed list_file rows ∷ files) merged =
    load_files files (merge (load_rows list_file rows []) merged)

-- `SanctionsList`
pub record SanctionsList : Type 0 where
  pub entries : Dict Text SanctionedAddress
  pub mtimes : List ℕ

-- The files at a moment: their times of change, where all can be had, and what reading them gives.
pub record Files : Type 0 where
  pub mtimes : Option (List ℕ)
  pub files : List ListFile

-- What `reload_if_changed` gives back, or that it raises.
pub data Reload : Type 0 where
  new_list : Reload
  no_change : Reload
  raises : Reload

unfoldable pub take_files :
    Bool → List ℕ → Option (Dict Text SanctionedAddress) → SanctionsList → Reload × SanctionsList
take_files force mtimes (some merged) s = (new_list, record { entries = merged; mtimes = mtimes })
take_files true mtimes none s = (raises, s)
take_files false mtimes none s = (no_change, record { entries = s.entries; mtimes = mtimes })

unfoldable pub check_mtimes :
    Bool → List ListFile → Option (List ℕ) → SanctionsList → Reload × SanctionsList
unfolding take_files load_files text_eq
check_mtimes true files none s = (raises, s)
check_mtimes false files none s = (no_change, s)
check_mtimes force files (some mtimes) s =
    if not force && mtimes == s.mtimes
    then (no_change, s)
    else take_files force mtimes (load_files files []) s

-- `reload_if_changed`
unfoldable pub reload_if_changed : Bool → Files → SanctionsList → Reload × SanctionsList
unfolding check_mtimes
reload_if_changed force f s = check_mtimes force f.files f.mtimes s

-- `lookup`
unfoldable pub lookup : Option Text → SanctionsList → Option SanctionedAddress
unfolding normalize_address
lookup none s = none
lookup (some []) s = none
lookup (some (c ∷ t)) s = Dict.get (normalize_address (c ∷ t)) s.entries
