-- ===== src/Ingest/Reorg.antt =====
-- `_recover_from_reorg` of rpc/ingest.py (under btc_parser_app): the walk back to the common ancestor.
pub mod Walks
pub mod Ancestor
pub mod Frame
use bitcoin_data_exporter.Common.{
  ℕ, zero, suc, ◌+◌, ◌-◌, ◌*◌, ◌≤◌, ◌<◌, min, max, String, ◌≡◌, refl, sym, ap, ◌∙◌, ◌≢◌, ◌⊎◌, inl,
  inr, Bool, true, false, not, ◌&&◌, ◌||◌, Option, none, some, List, [], ◌∷◌, ◌++◌, map, append-nil,
  append_assoc, arith, ltb, leb, if◌then◌else◌, Bool-cases, Option-cases, is_some, or_else, Eq,
  ◌==◌, nat_eq, string_eq, pair_eq, contains, length, is_empty, length-append, filter, All,
  All-append, max_or,
}
use bitcoin_data_exporter.Common.Dict
use bitcoin_data_exporter.Common.Dict.{Dict, dict_laws}
use bitcoin_data_exporter.Common.{Result, returned, raised, Failure, runtime_error}
use bitcoin_data_exporter.ReorgState.Index.{Hash, IndexRow, IndexStore, get_row}
use bitcoin_data_exporter.ReorgState.Status
use bitcoin_data_exporter.ReorgState.Status.{
  BlockStatusStore, set_canonical, differs, put_canonical,
}
use bitcoin_data_exporter.Ingest.{Node, RpcConfig, Action, LogRow, Daemon, ask}

-- What one turn of the walk finds.
pub data Verdict : Type 0 where
  failed : Failure → Verdict
  ancestor : Hash → Verdict
  further : Hash → Hash → Verdict

-- Where the walk ended: the common ancestor, the detached blocks from the lowest up, and the hashes
-- that were asked for on the way.
pub record Walk : Type 0 where
  pub ancestor_height : ℕ
  pub ancestor_hash : Hash
  pub detached : List (ℕ × Hash)
  pub live_hash_at_height : Dict ℕ Hash

unfoldable pub compare_live : Hash → Result Hash → Verdict
compare_live prev (raised e) = failed e
compare_live prev (returned live) = if live == prev then ancestor live else further prev live

-- The detached blocks are marked, the lowest first.
unfoldable pub mark_detached : List (ℕ × Hash) → BlockStatusStore → BlockStatusStore
mark_detached [] s = s
mark_detached ((h, b) ∷ rest) s = mark_detached rest (set_canonical h b false s)

unfoldable pub detached_rows : List (ℕ × Hash) → List LogRow
detached_rows [] = []
detached_rows ((h, b) ∷ rest) =
    record { action = Action.detached; height = h; blockhash = b } ∷ detached_rows rest

-- `range(low, low + n)`
unfoldable pub range_from : ℕ → ℕ → List ℕ
range_from low zero = []
range_from low (suc n) = low ∷ range_from (low + 1) n

abbrev pub attached_row : ℕ → Hash → LogRow
attached_row h b = record { action = Action.attached; height = h; blockhash = b }

unfoldable pub with_row : ℕ → Hash → Result (List LogRow) → Result (List LogRow)
with_row h b (raised e) = raised e
with_row h b (returned rows) = returned (attached_row h b ∷ rows)

module _ {R : Type 0} (node : Node R) where
  unfoldable pub examine_row : ℕ → Option IndexRow → Daemon R → Verdict × Daemon R
  unfolding compare_live ask
  examine_row height none d = (failed runtime_error, d)
  examine_row height (some row) d =
      if leb height 0 || row.previousblockhash == ""
      then (failed runtime_error, d)
      else (let (live, d') = ask (λ t. node.block_hash t (height - 1)) d in
          (compare_live row.previousblockhash live, d'))

  -- What a turn does with its verdict: it fails, it stops at the ancestor, or it goes on with the block
  -- before.
  unfoldable pub turn :
      (Hash → Hash → Daemon R → Result Walk × Daemon R)
      → ℕ
      → List (ℕ × Hash)
      → Dict ℕ Hash
      → Verdict × Daemon R
      → Result Walk × Daemon R
  turn go_on height detached lives (failed e, d) = (raised e, d)
  turn go_on height detached lives (ancestor live, d) = (
    returned (record {
      ancestor_height = height - 1;
      ancestor_hash = live;
      detached = detached;
      live_hash_at_height = Dict.insert (height - 1) live lives;
    }),
    d,
  )
  turn go_on height detached lives (further prev live, d) = go_on prev live d

  -- The `while` loop. `allowed` is what max_reorg_depth leaves: once it is used up, the block just
  -- detached is one too many.
  unfoldable pub walk_back :
      ℕ → ℕ → Hash → List (ℕ × Hash) → Dict ℕ Hash → Daemon R → Result Walk × Daemon R
  unfolding examine_row turn
  walk_back zero height h above lives d = (raised runtime_error, d)
  walk_back (suc allowed) height h above lives d =
      let detached = (height, h) ∷ above in
      turn
        (λ prev live d'.
          walk_back allowed (height - 1) prev detached (Dict.insert (height - 1) live lives) d')
        height detached lives (examine_row height (get_row h d.index) d)

  -- `live_hash_at_height.get(h) or get_block_hash(rpc_config, h)`
  unfoldable pub live_hash : ℕ → Option Hash → Daemon R → Result Hash × Daemon R
  unfolding ask
  live_hash h none d = ask (λ t. node.block_hash t h) d
  live_hash h (some b) d = if b == "" then ask (λ t. node.block_hash t h) d else (returned b, d)

  unfoldable pub attach :
      ℕ
      → (Daemon R → Result (List LogRow) × Daemon R)
      → Result Hash × Daemon R
      → Result (List LogRow) × Daemon R
  unfolding with_row
  attach h others (raised e, d) = (raised e, d)
  attach h others (returned b, d) = let (rows, d') = others d in (with_row h b rows, d')

  unfoldable pub attached_rows : List ℕ → Dict ℕ Hash → Daemon R → Result (List LogRow) × Daemon R
  unfolding live_hash attach
  attached_rows [] lives d = (returned [], d)
  attached_rows (h ∷ hs) lives d =
      attach h (attached_rows hs lives) (live_hash h (Dict.get h lives) d)

  unfoldable pub write_log :
      Walk → List LogRow → Result (List LogRow) × Daemon R → Result (ℕ × Hash) × Daemon R
  write_log w rows (raised e, d) = (raised e, d)
  write_log w rows (returned more, d) = (
    returned (w.ancestor_height, w.ancestor_hash),
    record d {
      block_status = Status.flush d.block_status;
      reorg_logs = d.reorg_logs ++ (rows ++ more) ∷ [];
    },
  )

  unfoldable pub record_reorg : ℕ → Result Walk × Daemon R → Result (ℕ × Hash) × Daemon R
  unfolding mark_detached detached_rows attached_rows range_from write_log
  record_reorg current_height (raised e, d) = (raised e, d)
  record_reorg current_height (returned w, d) =
      let marked = record d { block_status = mark_detached w.detached d.block_status } in
      let lowest = w.ancestor_height + 1 in
      write_log w (detached_rows w.detached) (
        attached_rows (range_from lowest (current_height + 1 - lowest)) w.live_hash_at_height
          marked)

  -- `_recover_from_reorg`
  unfoldable pub recover_from_reorg : RpcConfig → ℕ → Hash → Daemon R → Result (ℕ × Hash) × Daemon R
  unfolding walk_back record_reorg
  recover_from_reorg config current_height current_hash d =
      record_reorg current_height
        (walk_back config.max_reorg_depth current_height current_hash [] [] d)
