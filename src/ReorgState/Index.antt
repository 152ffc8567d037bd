-- ===== src/ReorgState/Index.antt =====
-- `IndexStore` of rpc/reorg_state.py (under btc_parser_app): the append log index/index.csv and its
-- view in memory.
pub mod Durable
pub mod Staging
pub mod Stale
use bitcoin_data_exporter.Common.{
  ℕ, zero, suc, ◌+◌, ◌-◌, ◌*◌, ◌≤◌, ◌<◌, min, max, String, ◌≡◌, refl, sym, ap, ◌∙◌, ◌≢◌, ◌⊎◌, inl,
  inr, Bool, true, false, not, ◌&&◌, ◌||◌, Option, none, some, List, [], ◌∷◌, ◌++◌, map, append-nil,
  append_assoc, arith, ltb, leb, if◌then◌else◌, Bool-cases, Option-cases, is_some, or_else, Eq,
  ◌==◌, nat_eq, string_eq, contains, length, is_empty, length-append, filter, All, All-append,
  max_or,
}
use bitcoin_data_exporter.Common.Dict
use bitcoin_data_exporter.Common.Dict.{Dict, dict_laws}
use bitcoin_data_exporter.CsvWriter.{part_path, existing_part_numbers, all_parts}

-- A blockhash, only compared, as Python's `str`.
abbrev pub Hash : Type 0
Hash = String

abbrev pub current_index_schema_version : ℕ
current_index_schema_version = 2

abbrev pub max_part_bytes : ℕ
max_part_bytes = 900000000

pub record IndexRow : Type 0 where
  pub height : ℕ
  pub blockhash : Hash
  pub previousblockhash : Hash
  pub schema_version : ℕ

-- One part of index.csv: empty, or a header line, with or without the column schema_version, and
-- rows under it.
pub data IndexFile : Type 0 where
  blank : IndexFile
  table : Bool → List IndexRow → IndexFile

-- `stat().st_size` of a part.
pub record IndexSize : Type 0 where
  pub bytes : IndexFile → ℕ

-- `_by_hash` is what the file says, `_pending` what `add` has staged.
pub record IndexStore : Type 0 where
  pub parts : Dict ℕ IndexFile
  pub by_hash : Dict Hash IndexRow
  pub pending : Dict Hash IndexRow
  pub current_part : ℕ
  pub all_current : Bool

first_version : IndexRow → IndexRow
first_version r = record r { schema_version = 1 }

-- What a reader gets from a part: rows without the column count as version 1.
unfoldable pub rows_in : IndexFile → List IndexRow
unfolding first_version
rows_in blank = []
rows_in (table true rows) = rows
rows_in (table false rows) = map first_version rows

-- `_register`
unfoldable pub register : IndexRow → Dict Hash IndexRow → Dict Hash IndexRow
register r d = Dict.insert r.blockhash r d

unfoldable pub register_all : List IndexRow → Dict Hash IndexRow → Dict Hash IndexRow
unfolding register
register_all [] d = d
register_all (r ∷ rs) d = register_all rs (register r d)

unfoldable pub register_parts : List IndexFile → Dict Hash IndexRow → Dict Hash IndexRow
unfolding register_all rows_in
register_parts [] d = d
register_parts (f ∷ fs) d = register_parts fs (register_all (rows_in f) d)

-- `_load`
unfoldable pub load : Dict ℕ IndexFile → Dict Hash IndexRow
unfolding register_parts all_parts
load parts = register_parts (all_parts parts) []

-- `__init__`
unfoldable pub open_store : Dict ℕ IndexFile → IndexStore
unfolding load existing_part_numbers
open_store parts = record {
  parts = parts;
  by_hash = load parts;
  pending = [];
  current_part = max_or 1 (existing_part_numbers parts);
  all_current = false;
}

unfoldable pub contains_block : Hash → IndexStore → Bool
contains_block h ix = Dict.has h ix.by_hash

-- `self._by_hash.get(blockhash) or self._pending.get(blockhash)`
unfoldable pub known : Hash → IndexStore → Option IndexRow
known h ix = or_else (Dict.get h ix.by_hash) (Dict.get h ix.pending)

unfoldable pub is_outdated : Option IndexRow → Bool
is_outdated none = true
is_outdated (some r) = ltb r.schema_version current_index_schema_version

unfoldable pub needs_export : Hash → IndexStore → Bool
unfolding is_outdated
needs_export h ix = is_outdated (known h ix)

unfoldable pub get_row : Hash → IndexStore → Option IndexRow
get_row h ix = Dict.get h ix.by_hash

-- `[r for r in self._by_hash.values() if r.schema_version < CURRENT_INDEX_SCHEMA_VERSION]`
unfoldable pub stale_rows : Dict Hash IndexRow → List IndexRow
stale_rows [] = []
stale_rows ((_, r) ∷ d) =
    let rest = stale_rows d in
    if ltb r.schema_version current_index_schema_version then r ∷ rest else rest

unfoldable pub lower_row : IndexRow → Option IndexRow → Option IndexRow
lower_row r none = some r
lower_row r (some m) = if leb r.height m.height then some r else some m

-- `min(stale, key=lambda r: r.height)`: the first of the lowest rows.
unfoldable pub lowest_row : List IndexRow → Option IndexRow
unfolding lower_row
lowest_row [] = none
lowest_row (r ∷ rs) = lower_row r (lowest_row rs)

-- That nothing is stale is remembered.
unfoldable pub remember : Option IndexRow → IndexStore → Option IndexRow × IndexStore
remember none ix = (none, record ix { all_current = true })
remember (some r) ix = (some r, ix)

unfoldable pub earliest_stale : IndexStore → Option IndexRow × IndexStore
unfolding stale_rows lowest_row remember
earliest_stale ix =
    if ix.all_current then (none, ix) else remember (lowest_row (stale_rows ix.by_hash)) ix

unfoldable pub new_row : ℕ → Hash → Hash → ℕ → IndexRow
new_row height h prev version = record {
  height = height;
  blockhash = h;
  previousblockhash = prev;
  schema_version = version;
}

-- `add`
unfoldable pub add : ℕ → Hash → Hash → ℕ → IndexStore → IndexStore
unfolding known new_row
add height h prev version ix =
    let staged = record ix { pending = Dict.insert h (new_row height h prev version) ix.pending } in
    elim (known h ix) [
      | none ↦ staged
      | some r ↦ if leb version r.schema_version then ix else staged
    ]

unfoldable pub discard_pending : IndexStore → IndexStore
discard_pending ix = record ix { pending = [] }

unfoldable pub pending_rows : Dict Hash IndexRow → List IndexRow
pending_rows [] = []
pending_rows ((_, r) ∷ d) = r ∷ pending_rows d

-- Opened for append; the header line is written if the part is new or empty. (A table is met here
-- only when it is appended to as it is: the next part does not exist yet.)
unfoldable pub append_index : Option IndexFile → List IndexRow → IndexFile
append_index none rows = table true rows
append_index (some blank) rows = table true rows
append_index (some (table v old)) rows = table v (old ++ rows)

module _ ⦃z : IndexSize⦄ where
  -- Whether `flush` rolls to the next part: the part is at the cap, or its header line has no
  -- schema_version.
  unfoldable pub rolls : Option IndexFile → Bool
  rolls none = false
  rolls (some blank) = false
  rolls (some (table v rows)) = leb max_part_bytes (z.bytes (table v rows)) || not v

  -- The part that `flush` writes to.
  unfoldable pub flush_part : IndexStore → ℕ
  unfolding rolls part_path
  flush_part ix =
      if rolls (Dict.get (part_path ix.current_part) ix.parts)
      then ix.current_part + 1
      else ix.current_part

  unfoldable pub flush_to : ℕ → IndexStore → IndexStore
  unfolding append_index pending_rows part_path
  flush_to part ix =
      let target = part_path part in
      record ix {
        parts =
            Dict.insert target (append_index (Dict.get target ix.parts) (pending_rows ix.pending))
              ix.parts;
        current_part = part;
        by_hash = Dict.update ix.pending ix.by_hash;
        pending = [];
      }

  unfoldable pub flush : IndexStore → IndexStore
  unfolding flush_part flush_to
  flush ix = if is_empty ix.pending then ix else flush_to (flush_part ix) ix
