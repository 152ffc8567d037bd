-- ===== src/ReorgState/Seed.antt =====
-- `seed_index_from_blocks_csv` of rpc/reorg_state.py (under btc_parser_app): an index from the rows of
-- blocks.csv that are still on disk.
use bitcoin_data_exporter.Common.{
  ℕ, Option, none, some, List, [], ◌∷◌, ◌++◌, ltb, if◌then◌else◌, nat_eq, string_eq,
}
use bitcoin_data_exporter.Common.Dict
use bitcoin_data_exporter.Common.Dict.{Dict, dict_laws}
use bitcoin_data_exporter.CsvWriter.{Dir, File, rows_of, all_parts}
use bitcoin_data_exporter.Catchup.{BlockEvent}
use bitcoin_data_exporter.ReorgState.Index
use bitcoin_data_exporter.ReorgState.Index.{
  Hash, IndexRow, IndexSize, IndexStore, known, is_outdated, needs_export, new_row, add,
}

unfoldable pub or_empty : Option Hash → Hash
or_empty none = ""
or_empty (some h) = h

module _ {R : Type 0} where
  unfoldable pub rows_of_all : List (File (BlockEvent R)) → List (BlockEvent R)
  unfolding rows_of
  rows_of_all [] = []
  rows_of_all (f ∷ fs) = rows_of f ++ rows_of_all fs

  -- Every row that is found, by part number; where both folders have a number, the part under
  -- export_blocks_csv counts.
  unfoldable pub found_rows : Dir (BlockEvent R) → Dir (BlockEvent R) → List (BlockEvent R)
  unfolding rows_of_all all_parts
  found_rows state export = rows_of_all (all_parts (Dict.update export state))

  unfoldable pub add_rows : List (BlockEvent R) → IndexStore → IndexStore
  unfolding or_empty
  add_rows [] ix = ix
  add_rows (e ∷ es) ix = add_rows es (add e.height e.hash (or_empty e.previousblockhash) 1 ix)

  unfoldable pub higher : BlockEvent R → Option (ℕ × Hash) → Option (ℕ × Hash)
  higher e none = some (e.height, e.hash)
  higher e (some (n, h)) = if ltb n e.height then some (e.height, e.hash) else some (n, h)

  -- `frame.sort("height").row(-1)`; among rows of the same height, the last one.
  unfoldable pub top_row : List (BlockEvent R) → Option (ℕ × Hash)
  unfolding higher
  top_row [] = none
  top_row (e ∷ es) = higher e (top_row es)

  module _ ⦃z : IndexSize⦄ where
    unfoldable pub seed_rows : List (BlockEvent R) → IndexStore → Option (ℕ × Hash) × IndexStore
    unfolding add_rows top_row
    seed_rows [] ix = (none, ix)
    seed_rows (e ∷ es) ix = (top_row (e ∷ es), Index.flush (add_rows (e ∷ es) ix))

    -- `seed_index_from_blocks_csv`
    unfoldable pub seed_index_from_blocks_csv :
        Dir (BlockEvent R) → Dir (BlockEvent R) → IndexStore → Option (ℕ × Hash) × IndexStore
    unfolding found_rows seed_rows
    seed_index_from_blocks_csv state export ix = seed_rows (found_rows state export) ix
