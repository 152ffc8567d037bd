-- ===== src/Ingest/Reorg/Frame.antt =====
-- `_recover_from_reorg` writes no rows of blocks.csv.
use bitcoin_data_exporter.Common.{
  ℕ, zero, suc, ◌+◌, ◌-◌, ◌≡◌, refl, ◌∙◌, inl, inr, ◌||◌, Option, none, some, List, [], ◌∷◌, leb,
  Bool-cases, ◌==◌, nat_eq, string_eq,
}
use bitcoin_data_exporter.Common.Dict
use bitcoin_data_exporter.Common.Dict.{Dict, dict_laws}
use bitcoin_data_exporter.Common.{Result, returned, raised}
use bitcoin_data_exporter.ReorgState.Index.{Hash, IndexRow, get_row}
use bitcoin_data_exporter.Ingest.{Node, RpcConfig, LogRow, Daemon, ask}
use bitcoin_data_exporter.Ingest.Reorg.{
  Verdict, failed, ancestor, further, Walk, mark_detached, examine_row, turn, walk_back,
  record_reorg, write_log, attached_rows, attach, range_from, detached_rows, live_hash,
  recover_from_reorg,
}

module _ {R : Type 0} (node : Node R) where
  abbrev SameRows : Daemon R → Daemon R → Type 0
  SameRows d d' = d'.blocks ≡ d.blocks

  examine_row-rows :
      (height : ℕ) (o : Option IndexRow) (d : Daemon R) → SameRows d (examine_row node height o d).1
  unfolding examine_row ask
  examine_row-rows height none d = refl
  examine_row-rows height (some row) d =
      elim (Bool-cases (leb height 0 || row.previousblockhash == "")) [
        | inl e ↦ simp e refl
        | inr e ↦ simp e refl
      ]

  turn-rows :
      (go_on : Hash → Hash → Daemon R → Result Walk × Daemon R) (height : ℕ)
      → (ds : List (ℕ × Hash)) (lives : Dict ℕ Hash) (d : Daemon R) (v : Verdict × Daemon R)
      → ((prev live : Hash) (e : Daemon R) → SameRows e (go_on prev live e).1)
      → SameRows d v.1
      → SameRows d (turn node go_on height ds lives v).1
  unfolding turn
  turn-rows go_on height ds lives d (failed e, d') f same = same
  turn-rows go_on height ds lives d (ancestor live, d') f same = same
  turn-rows go_on height ds lives d (further prev live, d') f same = f prev live d' ∙ same

  walk_back-rows :
      (allowed height : ℕ) (h : Hash) (above : List (ℕ × Hash)) (lives : Dict ℕ Hash) (d : Daemon R)
      → SameRows d (walk_back node allowed height h above lives d).1
  unfolding walk_back
  walk_back-rows zero height h above lives d = refl
  walk_back-rows (suc allowed) height h above lives d =
      turn-rows _ height ((height, h) ∷ above) lives d
        (examine_row node height (get_row h d.index) d)
        (λ prev live e.
          walk_back-rows allowed (height - 1) prev ((height, h) ∷ above)
            (Dict.insert (height - 1) live lives) e)
        (examine_row-rows height (get_row h d.index) d)

  live_hash-rows : (h : ℕ) (o : Option Hash) (d : Daemon R) → SameRows d (live_hash node h o d).1
  unfolding live_hash ask
  live_hash-rows h none d = refl
  live_hash-rows h (some b) d = elim (Bool-cases (b == "")) [
    | inl e ↦ simp e refl
    | inr e ↦ simp e refl
  ]

  attach-rows :
      (h : ℕ) (others : Daemon R → Result (List LogRow) × Daemon R) (d : Daemon R)
      → (answer : Result Hash × Daemon R) → ((e : Daemon R) → SameRows e (others e).1)
      → SameRows d answer.1
      → SameRows d (attach node h others answer).1
  unfolding attach
  attach-rows h others d (raised e, d') f same = same
  attach-rows h others d (returned b, d') f same = f d' ∙ same

  attached_rows-rows :
      (hs : List ℕ) (lives : Dict ℕ Hash) (d : Daemon R)
      → SameRows d (attached_rows node hs lives d).1
  unfolding attached_rows
  attached_rows-rows [] lives d = refl
  attached_rows-rows (h ∷ hs) lives d =
      attach-rows h (attached_rows node hs lives) d (live_hash node h (Dict.get h lives) d)
        (attached_rows-rows hs lives) (live_hash-rows h (Dict.get h lives) d)

  write_log-rows :
      (w : Walk) (rows : List LogRow) (more : Result (List LogRow) × Daemon R)
      → SameRows more.1 (write_log node w rows more).1
  unfolding write_log
  write_log-rows w rows (raised e, d) = refl
  write_log-rows w rows (returned more, d) = refl

  record_reorg-rows :
      (height : ℕ) (walk : Result Walk × Daemon R)
      → SameRows walk.1 (record_reorg node height walk).1
  unfolding record_reorg
  record_reorg-rows height (raised e, d) = refl
  record_reorg-rows height (returned w, d) =
      let marked = record d { block_status = mark_detached w.detached d.block_status } in
      let hs = range_from (w.ancestor_height + 1) (height + 1 - (w.ancestor_height + 1)) in
      write_log-rows w (detached_rows w.detached)
        (attached_rows node hs w.live_hash_at_height marked)
      ∙ attached_rows-rows hs w.live_hash_at_height marked

  pub recover_from_reorg-rows :
      (config : RpcConfig) (height : ℕ) (h : Hash) (d : Daemon R)
      → SameRows d (recover_from_reorg node config height h d).1
  unfolding recover_from_reorg
  recover_from_reorg-rows config height h d =
      record_reorg-rows height (walk_back node config.max_reorg_depth height h [] [] d)
      ∙ walk_back-rows config.max_reorg_depth height h [] [] d
