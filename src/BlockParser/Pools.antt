-- ===== src/BlockParser/Pools.antt =====
-- rpc/mining_pools.py (under btc_parser_app): the pool of a block by the tag in its coinbase, else by a
-- payout address; and `_match_mining_pool` of rpc/block_parser.py.
pub mod Precedence
use bitcoin_data_exporter.Common.{
  ℕ, zero, suc, ◌+◌, ◌-◌, ◌*◌, ◌≤◌, ◌<◌, min, max, String, ◌≡◌, refl, sym, ap, ◌∙◌, ◌≢◌, ◌⊎◌, inl,
  inr, Bool, true, false, not, ◌&&◌, ◌||◌, Option, none, some, List, [], ◌∷◌, ◌++◌, map, append-nil,
  append_assoc, arith, ltb, leb, if◌then◌else◌, Bool-cases, Option-cases, is_some, or_else, Eq,
  ◌==◌, nat_eq, string_eq, contains, length, is_empty, length-append, filter, All, All-append,
  max_or,
}
use bitcoin_data_exporter.Common.Dict
use bitcoin_data_exporter.Common.Dict.{Dict, dict_laws}
use bitcoin_data_exporter.Common.{Result}
use Prim.Native.Char.{Char, code}
use Prim.Native.String

pub record PoolInfo : Type 0 where
  pub pool_id : Option ℕ
  pub name : String
  pub link : Option String

pub data MatchMethod : Type 0 where
  by_tag : MatchMethod
  by_address : MatchMethod
  unknown : MatchMethod

pub record PoolMatch : Type 0 where
  pub pool_id : Option ℕ
  pub pool_name : Option String
  pub pool_link : Option String
  pub match_method : MatchMethod

unfoldable pub unknown_match : PoolMatch
unknown_match = record {
  pool_id = none;
  pool_name = none;
  pool_link = none;
  match_method = unknown;
}

-- An object of pools-v2.json.
pub record PoolEntry : Type 0 where
  pub id : Option ℕ
  pub name : Option String
  pub link : Option String
  pub tags : List String
  pub addresses : List String

pub record PoolMatcher : Type 0 where
  pub tag_index : List (String × PoolInfo)
  pub address_index : Dict String PoolInfo

-- The value of a hex digit.
abbrev pub digit_of : ℕ → Option ℕ
digit_of n =
    if leb 48 n && leb n 57
    then some (n - 48)
    else if leb 97 n && leb n 102
    then some (n - 87)
    else if leb 65 n && leb n 70
    then some (n - 55)
    else none

abbrev pub codes : String → List ℕ
codes String.[] = []
codes (String.◌∷◌ c s) = code c ∷ codes s

-- A space, a tab, a line feed, a vertical tab, a form feed or a carriage return.
abbrev pub is_space : ℕ → Bool
is_space n = n == 32 || (leb 9 n && leb n 13)

abbrev pub join_byte : Option ℕ → Option ℕ → Option (List ℕ) → Option (List ℕ)
join_byte (some a) (some b) (some bs) = some ((16 * a + b) ∷ bs)
join_byte _ _ _ = none

-- `bytes.fromhex`: pairs of digits, with white space between bytes.
unfoldable pub from_hex : List ℕ → Option (List ℕ)
from_hex [] = some []
from_hex (a ∷ []) = if is_space a then some [] else none
from_hex (a ∷ b ∷ rest) =
    let more = from_hex rest in
    let skipped = from_hex (b ∷ rest) in
    if is_space a then skipped else join_byte (digit_of a) (digit_of b) more

abbrev pub or_nothing : Option (List ℕ) → List ℕ
or_nothing none = []
or_nothing (some bs) = bs

-- `coinbase_hex_to_ascii`: the text as its code points, which latin1 makes of the bytes one by one.
unfoldable pub coinbase_hex_to_ascii : Option String → List ℕ
unfolding from_hex
coinbase_hex_to_ascii none = []
coinbase_hex_to_ascii (some h) = or_nothing (from_hex (codes h))

abbrev pub starts_with : List ℕ → List ℕ → Bool
starts_with [] text = true
starts_with (p ∷ ps) [] = false
starts_with (p ∷ ps) (c ∷ text) = p == c && starts_with ps text

-- `tag in text`
unfoldable pub is_in : List ℕ → List ℕ → Bool
is_in tag [] = is_empty tag
is_in tag (c ∷ text) = starts_with tag (c ∷ text) || is_in tag text

abbrev pub info_of : PoolEntry → PoolInfo
info_of p = record {
  pool_id = p.id;
  name = elim p.name [ none ↦ "Unknown" | some n ↦ if n == "" then "Unknown" else n ];
  link = p.link;
}

-- The tags that are not empty, with the pool's info.
unfoldable pub tag_entries : List String → PoolInfo → List (String × PoolInfo)
tag_entries [] info = []
tag_entries (t ∷ ts) info =
    let rest = tag_entries ts info in if t == "" then rest else (t, info) ∷ rest

unfoldable pub add_addresses : List String → PoolInfo → Dict String PoolInfo → Dict String PoolInfo
add_addresses [] info d = d
add_addresses (t ∷ ts) info d = add_addresses ts info (if t == "" then d else Dict.insert t info d)

unfoldable pub index_pools : List PoolEntry → PoolMatcher → PoolMatcher
unfolding tag_entries add_addresses
index_pools [] m = m
index_pools (p ∷ ps) m = index_pools ps (record {
  tag_index = m.tag_index ++ tag_entries p.tags (info_of p);
  address_index = add_addresses p.addresses (info_of p) m.address_index;
})

-- `PoolMatcher.__init__`
unfoldable pub pool_matcher : List PoolEntry → PoolMatcher
unfolding index_pools
pool_matcher pools = index_pools pools (record { tag_index = []; address_index = [] })

unfoldable pub found : PoolInfo → MatchMethod → PoolMatch
found info m = record {
  pool_id = info.pool_id;
  pool_name = some info.name;
  pool_link = info.link;
  match_method = m;
}

abbrev pub paid_or : Option PoolInfo → PoolMatch → PoolMatch
paid_or none otherwise = otherwise
paid_or (some info) otherwise = found info by_address

unfoldable pub match_address : List String → Dict String PoolInfo → PoolMatch
unfolding found unknown_match
match_address [] d = unknown_match
match_address (a ∷ rest) d = paid_or (Dict.get a d) (match_address rest d)

unfoldable pub match_tag : List ℕ → List (String × PoolInfo) → Option PoolInfo
unfolding is_in
match_tag text [] = none
match_tag text ((t, info) ∷ rest) =
    let more = match_tag text rest in if is_in (codes t) text then some info else more

abbrev pub match_by : Option PoolInfo → PoolMatch → PoolMatch
match_by none otherwise = otherwise
match_by (some info) otherwise = found info by_tag

-- `match`
unfoldable pub match : Option String → List String → PoolMatcher → PoolMatch
unfolding coinbase_hex_to_ascii match_tag match_address found
match coinbase_hex payout_addresses m =
    match_by (match_tag (coinbase_hex_to_ascii coinbase_hex) m.tag_index)
      (match_address payout_addresses m.address_index)

-- `_match_mining_pool`
unfoldable pub match_mining_pool : Option String → List String → Option PoolMatcher → PoolMatch
unfolding match unknown_match
match_mining_pool coinbase_hex addresses none = unknown_match
match_mining_pool coinbase_hex addresses (some m) = match coinbase_hex addresses m

-- `load_pool_matcher`, over what reading the file gives: no file, content that is no list of pools, or
-- the pools.
unfoldable pub load_pool_matcher : Option (Option (List PoolEntry)) → Option PoolMatcher
unfolding pool_matcher
load_pool_matcher none = none
load_pool_matcher (some none) = none
load_pool_matcher (some (some pools)) = some (pool_matcher pools)
