-- ===== src/ReorgState/Status.antt =====
-- The other state files of rpc/reorg_state.py (under btc_parser_app): block_status.csv, the pointer
-- files current.csv and latest.csv, and the rows of an audit log under reorg/.
pub mod Durable
use bitcoin_data_exporter.Common.{
  ℕ, zero, suc, ◌+◌, ◌-◌, ◌*◌, ◌≤◌, ◌<◌, min, max, String, ◌≡◌, refl, sym, ap, ◌∙◌, ◌≢◌, ◌⊎◌, inl,
  inr, Bool, true, false, not, ◌&&◌, ◌||◌, Option, none, some, List, [], ◌∷◌, ◌++◌, map, append-nil,
  append_assoc, arith, ltb, leb, if◌then◌else◌, Bool-cases, Option-cases, is_some, or_else, Eq,
  ◌==◌, nat_eq, string_eq, pair_eq, contains, length, is_empty, length-append, filter, All,
  All-append, max_or,
}
use bitcoin_data_exporter.Common.Dict
use bitcoin_data_exporter.Common.Dict.{Dict, dict_laws}
use Prim.Native.Nat.{Ordering}
use bitcoin_data_exporter.CsvWriter.{File}
use bitcoin_data_exporter.ReorgState.Index.{Hash}
use Prim.Native.String

-- A row of block_status.csv.
pub record StatusRow : Type 0 where
  pub height : ℕ
  pub blockhash : Hash
  pub canonical : Bool

-- `_entries`, keyed by (height, blockhash), `_dirty`, and the file; a missing or an empty file has no
-- rows.
pub record BlockStatusStore : Type 0 where
  pub file : List StatusRow
  pub entries : Dict (ℕ × Hash) Bool
  pub dirty : Bool

unfoldable pub load_rows : List StatusRow → Dict (ℕ × Hash) Bool → Dict (ℕ × Hash) Bool
load_rows [] d = d
load_rows (r ∷ rs) d = load_rows rs (Dict.insert (r.height, r.blockhash) r.canonical d)

-- `__init__` and `_load`
unfoldable pub open_status : List StatusRow → BlockStatusStore
unfolding load_rows
open_status rows = record { file = rows; entries = load_rows rows []; dirty = false }

-- Python's `!=` between a looked-up value and a Bool.
unfoldable pub differs : Option Bool → Bool → Bool
differs none c = true
differs (some true) c = not c
differs (some false) c = c

unfoldable pub put_canonical : ℕ → Hash → Bool → BlockStatusStore → BlockStatusStore
put_canonical h b c s = record s { entries = Dict.insert (h, b) c s.entries; dirty = true }

unfoldable pub set_canonical : ℕ → Hash → Bool → BlockStatusStore → BlockStatusStore
unfolding differs put_canonical
set_canonical h b c s = if differs (Dict.get (h, b) s.entries) c then put_canonical h b c s else s

unfoldable pub set_canonical_if_present : ℕ → Hash → Bool → BlockStatusStore → BlockStatusStore
unfolding differs put_canonical
set_canonical_if_present h b c s =
    if Dict.has (h, b) s.entries && differs (Dict.get (h, b) s.entries) c
    then put_canonical h b c s
    else s

-- The order of Python's `sorted` on the pairs (height, blockhash); strings go by code points.
unfoldable pub before : ℕ × Hash → ℕ × Hash → Bool
before (g, a) (h, b) =
    ltb g h || (g == h && elim (String.compare a b) [ Ordering.lt ↦ true | _ ↦ false ])

unfoldable pub insert_entry : (ℕ × Hash) × Bool → Dict (ℕ × Hash) Bool → Dict (ℕ × Hash) Bool
unfolding before
insert_entry e [] = e ∷ []
insert_entry (j, v) ((i, w) ∷ d) =
    let rest = insert_entry (j, v) d in if before j i then (j, v) ∷ (i, w) ∷ d else (i, w) ∷ rest

-- `sorted(self._entries.items())`; no two entries have the same key.
unfoldable pub sorted_entries : Dict (ℕ × Hash) Bool → Dict (ℕ × Hash) Bool
unfolding insert_entry
sorted_entries [] = []
sorted_entries (e ∷ d) = insert_entry e (sorted_entries d)

unfoldable pub status_rows : Dict (ℕ × Hash) Bool → List StatusRow
status_rows [] = []
status_rows (((h, b), c) ∷ d) = record { height = h; blockhash = b; canonical = c } ∷ status_rows d

-- `flush`; the file is replaced as a whole.
unfoldable pub flush : BlockStatusStore → BlockStatusStore
unfolding sorted_entries status_rows
flush s =
    if s.dirty then record s { file = status_rows (sorted_entries s.entries); dirty = false } else s
