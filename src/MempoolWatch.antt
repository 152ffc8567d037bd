-- ===== src/MempoolWatch.antt =====
-- rpc/mempool_watch.py and rpc/mempool_watch_state.py (under btc_parser_app): the store of flagged
-- transactions and the handlers of `MempoolWatcher`. The answers of the node that a handler asks for are
-- given with the event; a call that raises out of a handler is not modelled.
pub mod LifeCycle
pub mod Reconcile
use bitcoin_data_exporter.Common.{
  ℕ, zero, suc, ◌+◌, ◌-◌, ◌*◌, ◌≤◌, ◌<◌, min, max, String, ◌≡◌, refl, sym, ap, ◌∙◌, ◌≢◌, ◌⊎◌, inl,
  inr, Bool, true, false, not, ◌&&◌, ◌||◌, Option, none, some, List, [], ◌∷◌, ◌++◌, map, append-nil,
  append_assoc, arith, ltb, leb, if◌then◌else◌, Bool-cases, Option-cases, is_some, or_else, Eq,
  ◌==◌, nat_eq, string_eq, contains, length, is_empty, length-append, filter, All, All-append,
  max_or,
}
use bitcoin_data_exporter.Common.Dict
use bitcoin_data_exporter.Common.Dict.{Dict, dict_laws}
use bitcoin_data_exporter.ReorgState.Index.{Hash}

abbrev pub Txid : Type 0
Txid = String

pub data TxStatus : Type 0 where
  in_mempool : TxStatus
  confirmed : TxStatus

-- `details` stands for the fields that no handler reads: the time, fee, size and matches.
pub record FlaggedTx (D : Type 0) : Type 0 where
  pub txid : Txid
  pub first_seen_height : ℕ
  pub details : D
  pub inputs : List (Txid × ℕ)
  pub status : TxStatus
  pub block_hash : Option Hash
  pub block_height : Option ℕ

-- The `event` column of an exported row.
pub data TxEvent : Type 0 where
  seen : TxEvent
  replaced : Txid → TxEvent
  removed : TxEvent
  was_confirmed : TxEvent
  unconfirmed : TxEvent

-- The store, the sets of the watcher, and the rows exported.
pub record Watcher (D : Type 0) : Type 0 where
  pub store : Dict Txid (FlaggedTx D)
  pub checked : List Txid
  pub unfetched : List Txid
  pub tip_height : ℕ
  pub exported : List (Txid × TxEvent)

-- A transaction as fetched: the fields of its entry, and whether anything in it matches the list.
pub record Fetched (D : Type 0) : Type 0 where
  pub details : D
  pub inputs : List (Txid × ℕ)
  pub matched : Bool

-- What the node answers during one event: the transaction that spends one of these inputs, if one does;
-- the confirmations of a block, none where it is off the active chain; a block's height and
-- transactions; a transaction.
pub record Answers (D : Type 0) : Type 0 where
  pub spender : Txid → List (Txid × ℕ) → Option Txid
  pub confirmations : Hash → Option ℕ
  pub block_txids : Hash → ℕ × List Txid
  pub fetch : Txid → Option Hash → Option (Fetched D)

unfoldable pub without : Txid → List Txid → List Txid
without t [] = []
without t (x ∷ xs) = let rest = without t xs in if t == x then rest else x ∷ rest

-- `xs - ys`
unfoldable pub minus : List Txid → List Txid → List Txid
minus [] ys = []
minus (x ∷ xs) ys = let rest = minus xs ys in if contains ys x then rest else x ∷ rest

-- `xs & ys`
unfoldable pub common : List Txid → List Txid → List Txid
common [] ys = []
common (x ∷ xs) ys = let rest = common xs ys in if contains ys x then x ∷ rest else rest

unfoldable pub departure : Option Txid → TxEvent
departure none = removed
departure (some t) = replaced t

-- An event of the `sequence` topic; an added transaction comes with what was fetched of it, or not at
-- all where it was checked before the batch.
pub data Event (D : Type 0) : Type 0 where
  added : Txid → Option (Option (Fetched D)) → Event D
  left : Txid → Event D
  connected : Hash → Event D
  disconnected : Hash → Event D

-- The heights from a height down, n of them.
unfoldable pub scan_down : (ℕ → Hash × List Txid) → Txid → ℕ → ℕ → Option (Hash × ℕ)
scan_down block_at t zero height = none
scan_down block_at t (suc n) height =
    let rest = scan_down block_at t n (height - 1) in
    if contains (block_at height).1 t then some ((block_at height).0, height) else rest

unfoldable pub first_of : ℕ → List Txid → List Txid
first_of zero ts = []
first_of (suc n) [] = []
first_of (suc n) (t ∷ ts) = t ∷ first_of n ts

module _ {D : Type 0} where
  unfoldable pub all_txids : Dict Txid (FlaggedTx D) → List Txid
  all_txids [] = []
  all_txids ((t, _) ∷ d) = t ∷ all_txids d

  -- `_export`
  unfoldable pub export : Txid → TxEvent → Watcher D → Watcher D
  export t e w = record w { exported = w.exported ++ (t, e) ∷ [] }

  -- `store.put`, `store.remove`
  unfoldable pub put : FlaggedTx D → Watcher D → Watcher D
  put e w = record w { store = Dict.insert e.txid e w.store }

  unfoldable pub remove : Txid → Watcher D → Watcher D
  remove t w = record w { store = Dict.erase t w.store }

  unfoldable pub new_entry : Txid → Fetched D → ℕ → FlaggedTx D
  new_entry t f height = record {
    txid = t;
    first_seen_height = height;
    details = f.details;
    inputs = f.inputs;
    status = in_mempool;
    block_hash = none;
    block_height = none;
  }

  -- `_on_added`
  unfoldable pub on_added : Txid → Option (Fetched D) → Watcher D → Watcher D
  unfolding export put new_entry
  on_added t none w = w
  on_added t (some f) w =
      let w' = record w { checked = t ∷ w.checked } in
      if not f.matched || Dict.has t w.store
      then w'
      else put (new_entry t f w.tip_height) (export t seen w')

  -- `_on_left_unmined`
  unfoldable pub on_left_unmined : Answers D → Txid → FlaggedTx D → Watcher D → Watcher D
  unfolding export remove departure
  on_left_unmined a t e w =
      remove t (export t (departure (if is_empty e.inputs then none else a.spender t e.inputs)) w)

  unfoldable pub left_if_waiting : Answers D → Txid → Option (FlaggedTx D) → Watcher D → Watcher D
  unfolding on_left_unmined
  left_if_waiting a t none w = w
  left_if_waiting a t (some e) w = elim e.status [
    | in_mempool ↦ on_left_unmined a t e w
    | confirmed ↦ w
  ]

  -- `_on_removed`
  unfoldable pub on_removed : Answers D → Txid → Watcher D → Watcher D
  unfolding left_if_waiting without
  on_removed a t w =
      left_if_waiting a t (Dict.get t w.store) (record w { checked = without t w.checked })

  -- `_mark_confirmed`
  unfoldable pub mark_confirmed : Txid → FlaggedTx D → Hash → ℕ → Watcher D → Watcher D
  unfolding export
  mark_confirmed t e h height w =
      let w' = export t was_confirmed w in
      record w' {
        store =
            Dict.insert t
              (record e { status = confirmed; block_hash = some h; block_height = some height })
              w'.store;
      }

  unfoldable pub confirm_if_waiting : Hash → ℕ → Txid → Option (FlaggedTx D) → Watcher D → Watcher D
  unfolding mark_confirmed
  confirm_if_waiting h height t none w = w
  confirm_if_waiting h height t (some e) w = elim e.status [
    | in_mempool ↦ mark_confirmed t e h height w
    | confirmed ↦ w
  ]

  -- The entries are walked by their ids: an entry of the list that was taken is the object in the store.
  unfoldable pub confirm_all : Hash → ℕ → List Txid → List Txid → Watcher D → Watcher D
  unfolding confirm_if_waiting
  confirm_all h height in_block [] w = w
  confirm_all h height in_block (t ∷ ts) w =
      confirm_all h height in_block ts
        (if contains in_block t then confirm_if_waiting h height t (Dict.get t w.store) w else w)

  unfoldable pub unconfirm : Txid → FlaggedTx D → Watcher D → Watcher D
  unfolding export
  unconfirm t e w =
      let w' = export t unconfirmed w in
      record w' {
        store =
            Dict.insert t (record e { status = in_mempool; block_hash = none; block_height = none })
              w'.store;
      }

  unfoldable pub by_depth : ℕ → Txid → FlaggedTx D → Option ℕ → Watcher D → Watcher D
  unfolding unconfirm remove
  by_depth forget t e none w = unconfirm t e w
  by_depth forget t e (some n) w = if leb forget n then remove t w else w

  unfoldable pub check_block :
      Answers D → ℕ → Txid → FlaggedTx D → Option Hash → Watcher D → Watcher D
  unfolding by_depth
  check_block a forget t e none w = w
  check_block a forget t e (some h) w = by_depth forget t e (a.confirmations h) w

  unfoldable pub check_depth : Answers D → ℕ → Txid → Option (FlaggedTx D) → Watcher D → Watcher D
  unfolding check_block
  check_depth a forget t none w = w
  check_depth a forget t (some e) w = elim e.status [
    | in_mempool ↦ w
    | confirmed ↦ check_block a forget t e e.block_hash w
  ]

  unfoldable pub check_depths : Answers D → ℕ → List Txid → Watcher D → Watcher D
  unfolding check_depth
  check_depths a forget [] w = w
  check_depths a forget (t ∷ ts) w =
      check_depths a forget ts (check_depth a forget t (Dict.get t w.store) w)

  -- `_check_confirmed_depth`
  unfoldable pub check_confirmed_depth : Answers D → ℕ → Watcher D → Watcher D
  unfolding check_depths all_txids
  check_confirmed_depth a forget w = check_depths a forget (all_txids w.store) w

  unfoldable pub add_mined : Answers D → Hash → List Txid → Watcher D → Watcher D
  unfolding on_added
  add_mined a h [] w = w
  add_mined a h (t ∷ ts) w = add_mined a h ts (on_added t (a.fetch t (some h)) w)

  -- `_on_block_connected`
  unfoldable pub on_block_connected : Answers D → ℕ → Hash → Watcher D → Watcher D
  unfolding add_mined minus common confirm_all all_txids check_confirmed_depth
  on_block_connected a forget h w =
      let (height, in_block) = a.block_txids h in
      let w1 = record w { tip_height = max w.tip_height height } in
      let w2 = add_mined a h (common w.unfetched in_block) w1 in
      let w3 = record w2 {
        unfetched = minus w2.unfetched in_block;
        checked = minus w2.checked in_block;
      } in
      check_confirmed_depth a forget (confirm_all h height in_block (all_txids w3.store) w3)

  unfoldable pub take_added : Txid → Option (Option (Fetched D)) → Watcher D → Watcher D
  unfolding on_added
  take_added t none w = w
  take_added t (some none) w = record w { unfetched = t ∷ w.unfetched }
  take_added t (some (some f)) w = on_added t (some f) w

  -- One turn of the loop of `handle_events`.
  unfoldable pub handle_event : Answers D → ℕ → Event D → Watcher D → Watcher D
  unfolding take_added on_removed without on_block_connected check_confirmed_depth
  handle_event a forget (added t f) w = take_added t f w
  handle_event a forget (left t) w = on_removed a t (record w { unfetched = without t w.unfetched })
  handle_event a forget (connected h) w = on_block_connected a forget h w
  handle_event a forget (disconnected h) w = check_confirmed_depth a forget w

  -- `handle_events`, each event with the node's answers at its time.
  unfoldable pub handle_events : ℕ → List (Answers D × Event D) → Watcher D → Watcher D
  unfolding handle_event
  handle_events forget [] w = w
  handle_events forget ((a, e) ∷ es) w = handle_events forget es (handle_event a forget e w)

  -- `_find_confirming_block`; a block that is asked for twice is the same, as from the cache.
  unfoldable pub find_confirming_block :
      (ℕ → Hash × List Txid) → ℕ → ℕ → Txid → FlaggedTx D → Option (Hash × ℕ)
  unfolding scan_down
  find_confirming_block block_at max_scan tip t e =
      let lowest = max e.first_seen_height (tip + 1 - max_scan) in
      scan_down block_at t (tip + 1 - lowest) tip

  unfoldable pub settle : Answers D → Txid → FlaggedTx D → Option (Hash × ℕ) → Watcher D → Watcher D
  unfolding on_left_unmined mark_confirmed
  settle a t e none w = on_left_unmined a t e w
  settle a t e (some (h, height)) w = mark_confirmed t e h height w

  unfoldable pub reconcile_entry :
      Answers D
      → (ℕ → Hash × List Txid)
      → ℕ
      → List Txid
      → Txid
      → Option (FlaggedTx D)
      → Watcher D
      → Watcher D
  unfolding settle find_confirming_block
  reconcile_entry a block_at max_scan mempool t none w = w
  reconcile_entry a block_at max_scan mempool t (some e) w = elim e.status [
    | confirmed ↦ w
    | in_mempool ↦
        if contains mempool t
        then w
        else settle a t e (find_confirming_block block_at max_scan w.tip_height t e) w
  ]

  unfoldable pub reconcile_entries :
      Answers D → (ℕ → Hash × List Txid) → ℕ → List Txid → List Txid → Watcher D → Watcher D
  unfolding reconcile_entry
  reconcile_entries a block_at max_scan mempool [] w = w
  reconcile_entries a block_at max_scan mempool (t ∷ ts) w =
      reconcile_entries a block_at max_scan mempool ts
        (reconcile_entry a block_at max_scan mempool t (Dict.get t w.store) w)

  unfoldable pub check_new : Answers D → List Txid → Watcher D → Watcher D
  unfolding on_added
  check_new a [] w = w
  check_new a (t ∷ ts) w = check_new a ts (on_added t (a.fetch t none) w)

  -- `reconcile` over the snapshot and the tip; a stop comes after some of the new transactions.
  unfoldable pub reconcile :
      Answers D → (ℕ → Hash × List Txid) → ℕ → ℕ → List Txid → ℕ → Option ℕ → Watcher D → Watcher D
  unfolding minus common check_new first_of reconcile_entries all_txids check_confirmed_depth
  reconcile a block_at max_scan forget mempool tip (some stop_after) w =
      let w1 = record w { tip_height = tip; checked = common w.checked mempool } in
      check_new a (first_of stop_after (minus mempool w.checked)) w1
  reconcile a block_at max_scan forget mempool tip none w =
      let w1 = record w { tip_height = tip; checked = common w.checked mempool } in
      let w2 = check_new a (minus mempool w.checked) w1 in
      check_confirmed_depth a forget
        (reconcile_entries a block_at max_scan mempool (all_txids w2.store) w2)
