-- ===== src/Tests/State.antt =====
-- Runs of the code of rpc/reorg_state.py (under btc_parser_app) on small stores.
use bitcoin_data_exporter.Common.{
  ◌≡◌, refl, inr, true, false, List, [], ◌∷◌, arith, if◌then◌else◌, ◌==◌, nat_eq, string_eq,
  pair_eq, length,
}
use bitcoin_data_exporter.Common.Dict
use bitcoin_data_exporter.Common.Dict.{Dict, dict_laws}
use bitcoin_data_exporter.CsvWriter.Parts.{all_rows}
use bitcoin_data_exporter.ReorgState.Index
use bitcoin_data_exporter.ReorgState.Index.{
  Hash, IndexRow, IndexFile, IndexSize, IndexStore, register_all, open_store, known, get_row,
  needs_export, add, new_row, earliest_stale, current_index_schema_version,
}
use bitcoin_data_exporter.ReorgState.Index.Durable.{IsDurable, flush_reload}
use bitcoin_data_exporter.ReorgState.Index.Staging.{IsNewer, needs_export-flush-add}
use bitcoin_data_exporter.ReorgState.Index.Stale.{Answers, RemembersRightly, earliest_stale_lem}
use bitcoin_data_exporter.ReorgState.Status
use bitcoin_data_exporter.ReorgState.Status.{BlockStatusStore, open_status, load_rows}
use bitcoin_data_exporter.ReorgState.Status.Durable.{
  IsSynced, Op, mark, confirm, persist, steps, said_all, flush-reload,
}

instance index_size : IndexSize
index_size = record { bytes = λ _. 0 }

-- A store with one block staged and none on file.
abbrev staged_store : IndexStore
staged_store = record {
  parts = [];
  by_hash = [];
  pending = ("b0", new_row 0 "b0" "" 2) ∷ [];
  current_part = 1;
  all_current = false;
}

staged-IsDurable : IsDurable staged_store
unfolding register_all new_row all_rows
staged-IsDurable = record {
  consecutive = tt;
  last = inr (refl, refl);
  positive = omega arith;
  loaded = λ h. refl;
  staged = (refl, tt);
}

flush-length : length (Index.flush staged_store).parts ≡ 1
unfolding Index.flush Dict.insert Dict.get
flush-length = refl

flush_reload_example :
    ((h : Hash)
      → get_row h (open_store (Index.flush staged_store).parts)
        ≡ get_row h (Index.flush staged_store))
    × ((open_store (Index.flush staged_store).parts).current_part
        ≡ (Index.flush staged_store).current_part)
flush_reload_example = flush_reload staged_store staged-IsDurable (omega (arith, flush-length))

staged-IsNewer : IsNewer staged_store
unfolding Dict.get
staged-IsNewer = record { unique = (refl, tt); newer = λ h r q e f. absurd (ground arith) }

abbrev first_hash : Hash
first_hash = "b0"

abbrev second_hash : Hash
second_hash = "b1"

needs_export-flush-add_example :
    needs_export first_hash
      (Index.flush (add 1 second_hash first_hash current_index_schema_version staged_store))
    ≡ (if first_hash == second_hash
        then false
        else needs_export first_hash (Index.flush staged_store))
needs_export-flush-add_example =
    needs_export-flush-add first_hash 1 second_hash first_hash staged_store staged-IsNewer

-- Two blocks on file, one of version 1.
abbrev stale_store : IndexStore
stale_store = record {
  parts = [];
  by_hash = ("b0", new_row 0 "b0" "" 2) ∷ ("b1", new_row 1 "b1" "b0" 1) ∷ [];
  pending = [];
  current_part = 1;
  all_current = false;
}

stale-Remembers : RemembersRightly stale_store
stale-Remembers = λ e. absurd (ground arith)

earliest_stale_lem_example :
    Answers (earliest_stale stale_store).0 stale_store.by_hash
    × RemembersRightly (earliest_stale stale_store).1
    × ((earliest_stale stale_store).1.by_hash ≡ stale_store.by_hash)
earliest_stale_lem_example = earliest_stale_lem stale_store stale-Remembers

abbrev empty_status : BlockStatusStore
empty_status = record { file = []; entries = []; dirty = false }

empty-IsSynced : IsSynced empty_status
unfolding load_rows
empty-IsSynced = record { nodup = tt; clean = λ _ k. refl }

abbrev some_ops : List Op
some_ops = mark 5 "b5" false ∷ persist ∷ confirm 5 "b5" true ∷ confirm 6 "b6" true ∷ []

flush-reload_example :
    Dict.get (5, "b5") (open_status (Status.flush (steps some_ops empty_status)).file).entries
    ≡ said_all (5, "b5") some_ops (Dict.get (5, "b5") empty_status.entries)
flush-reload_example = flush-reload (5, "b5") some_ops empty_status empty-IsSynced
