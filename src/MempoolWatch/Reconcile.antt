-- ===== src/MempoolWatch/Reconcile.antt =====
-- The life cycle of a transaction across a reconcile with the mempool.
use bitcoin_data_exporter.Common.{
  ℕ, ◌≡◌, refl, inl, inr, Option, none, some, List, [], ◌∷◌, Bool-cases, nat_eq, string_eq,
  contains,
}
use bitcoin_data_exporter.Common.Dict
use bitcoin_data_exporter.Common.Dict.{Dict, dict_laws}
use bitcoin_data_exporter.ReorgState.Index.{Hash}
use bitcoin_data_exporter.MempoolWatch.{
  Txid, FlaggedTx, in_mempool, Watcher, Answers, minus, common, all_txids, on_added,
  check_confirmed_depth, find_confirming_block, settle, reconcile_entry, reconcile_entries,
  check_new, first_of, reconcile,
}
use bitcoin_data_exporter.MempoolWatch.LifeCycle.{
  AllAt, status-cases, on_added-AllAt, on_left_unmined-AllAt, mark_confirmed-AllAt,
  check_depths-AllAt,
}

module _ {D : Type 0} (a : Answers D) (block_at : ℕ → Hash × List Txid) (max_scan : ℕ)
    (mempool : List Txid) where
  settle-AllAt :
      (t : Txid) (e : FlaggedTx D) (found : Option (Hash × ℕ)) (w : Watcher D)
      → Dict.get t w.store ≡ some e
      → e.status ≡ in_mempool
      → AllAt w
      → AllAt (settle a t e found w)
  unfolding settle
  settle-AllAt t e none w g s i = on_left_unmined-AllAt a t e w g s i
  settle-AllAt t e (some (h, height)) w g s i = mark_confirmed-AllAt t e h height w g s i

  reconcile_entry-AllAt :
      (t : Txid) (o : Option (FlaggedTx D)) (w : Watcher D)
      → Dict.get t w.store ≡ o
      → AllAt w
      → AllAt (reconcile_entry a block_at max_scan mempool t o w)
  unfolding reconcile_entry
  reconcile_entry-AllAt t none w g i = i
  reconcile_entry-AllAt t (some e) w g i = elim (status-cases e.status) [
    | inr s ↦ simp s i
    | inl s ↦ elim (Bool-cases (contains mempool t)) [
      | inl q ↦ simp (s, q) i
      | inr q ↦
          simp (s, q)
            (settle-AllAt t e (find_confirming_block block_at max_scan w.tip_height t e) w g s i)
    ]
  ]

  reconcile_entries-AllAt :
      (ts : List Txid) (w : Watcher D)
      → AllAt w
      → AllAt (reconcile_entries a block_at max_scan mempool ts w)
  unfolding reconcile_entries
  reconcile_entries-AllAt [] w i = i
  reconcile_entries-AllAt (t ∷ ts) w i =
      reconcile_entries-AllAt ts
        (reconcile_entry a block_at max_scan mempool t (Dict.get t w.store) w)
        (reconcile_entry-AllAt t (Dict.get t w.store) w refl i)

  check_new-AllAt : (ts : List Txid) (w : Watcher D) → AllAt w → AllAt (check_new a ts w)
  unfolding check_new
  check_new-AllAt [] w i = i
  check_new-AllAt (t ∷ ts) w i =
      check_new-AllAt ts (on_added t (a.fetch t none) w) (on_added-AllAt t (a.fetch t none) w i)

  -- Where the rows exported of each transaction follow its life cycle and lead to where the store has it,
  -- this is so after a reconcile with any snapshot of the mempool, any tip and any blocks, stopped on its
  -- way or not.
  pub reconcile-AllAt :
      (forget tip : ℕ) (stop_after : Option ℕ) (w : Watcher D)
      → AllAt w
      → AllAt (reconcile a block_at max_scan forget mempool tip stop_after w)
  unfolding reconcile check_confirmed_depth
  reconcile-AllAt forget tip (some n) w i =
      check_new-AllAt (first_of n (minus mempool w.checked))
        (record w { tip_height = tip; checked = common w.checked mempool }) i
  reconcile-AllAt forget tip none w i =
      let w1 = record w { tip_height = tip; checked = common w.checked mempool } in
      let w2 = check_new a (minus mempool w.checked) w1 in
      let w3 = reconcile_entries a block_at max_scan mempool (all_txids w2.store) w2 in
      check_depths-AllAt a forget (all_txids w3.store) w3 (
        reconcile_entries-AllAt (all_txids w2.store) w2
          (check_new-AllAt (minus mempool w.checked) w1 i))
