-- ===== src/ReorgState/Index/Staging.antt =====
-- What `add` stages and `flush` makes visible.
use bitcoin_data_exporter.Common.{
  ℕ, ◌<◌, ◌≡◌, false, some, arith, if◌then◌else◌, or_else, ◌==◌, nat_eq, string_eq,
}
use bitcoin_data_exporter.Common.Dict
use bitcoin_data_exporter.Common.Dict.{Dict, dict_laws}
use bitcoin_data_exporter.ReorgState.Index.{
  Hash, IndexRow, current_index_schema_version, IndexSize, IndexStore, new_row, known, is_outdated,
  needs_export, add, flush,
}

-- What `add` keeps of the staged rows: one for each hash, and always newer than the one on file.
pub record IsNewer (ix : IndexStore) : Type 0 where
  pub unique : Dict.NodupKeys ix.pending
  pub newer :
      (h : Hash) (r q : IndexRow)
      → Dict.get h ix.pending ≡ some r
      → Dict.get h ix.by_hash ≡ some q
      → q.schema_version < r.schema_version

pub add-IsNewer :
    (n : ℕ) (h prev : Hash) (version : ℕ) (ix : IndexStore)
    → IsNewer ix
    → IsNewer (add n h prev version ix)
unfolding add
add-IsNewer n h prev version ix v = record {
  unique = ground (arith, Dict.insert-NodupKeys h (new_row n h prev version) ix.pending v.unique);
  newer = λ k r q e f. grind (arith, dict_laws, v.newer k r q);
}

module _ ⦃z : IndexSize⦄ where
  pub known-flush :
      (k : Hash) (ix : IndexStore)
      → IsNewer ix
      → known k (flush ix) ≡ or_else (Dict.get k ix.pending) (Dict.get k ix.by_hash)
  unfolding known flush
  known-flush k ix v =
      ground
        (arith, Dict.get-update k ix.pending ix.by_hash v.unique, Dict.get-nil {V = IndexRow} k)

  known_after :
      (k : Hash) (n : ℕ) (h prev : Hash) (ix : IndexStore)
      → IsNewer ix
      → let ix' = add n h prev current_index_schema_version ix in
        is_outdated (or_else (Dict.get k ix'.pending) (Dict.get k ix'.by_hash)) ≡ (
          if k == h
          then false
          else is_outdated (or_else (Dict.get k ix.pending) (Dict.get k ix.by_hash)))
  unfolding add is_outdated
  known_after k n h prev ix v = grind (arith, dict_laws, v.newer k)

  -- Where a hash is staged at most once, and only at a version above the one on file: after a block has
  -- been added at the current version and a flush, it needs no export, and every other block needs one
  -- exactly if it would without the `add`.
  pub needs_export-flush-add :
      (k : Hash) (n : ℕ) (h prev : Hash) (ix : IndexStore)
      → IsNewer ix
      → needs_export k (flush (add n h prev current_index_schema_version ix))
        ≡ (if k == h then false else needs_export k (flush ix))
  unfolding needs_export
  needs_export-flush-add k n h prev ix v = rw (known-flush k ix v) (
      rw
        (known-flush k (add n h prev current_index_schema_version ix)
          (add-IsNewer n h prev current_index_schema_version ix v))
        (known_after k n h prev ix v))
