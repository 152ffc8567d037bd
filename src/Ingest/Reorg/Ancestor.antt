-- ===== src/Ingest/Reorg/Ancestor.antt =====
-- What `_recover_from_reorg` (rpc/ingest.py under btc_parser_app) returns, and what it marks.
use bitcoin_data_exporter.Common.{
  ℕ, ◌+◌, ◌-◌, ◌≤◌, ◌≡◌, refl, sym, ap, ◌∙◌, inl, inr, false, Option, none, some, List, [], ◌∷◌,
  arith, if◌then◌else◌, Bool-cases, ◌==◌, nat_eq, string_eq, pair_eq, contains, length,
}
use bitcoin_data_exporter.Common.Dict
use bitcoin_data_exporter.Common.Dict.{Dict, dict_laws}
use bitcoin_data_exporter.Common.{subst, Result, returned, raised}
use bitcoin_data_exporter.ReorgState.Index.{Hash}
use bitcoin_data_exporter.ReorgState.Status.{BlockStatusStore, open_status, set_canonical, flush}
use bitcoin_data_exporter.ReorgState.Status.Durable.{
  IsSynced, step, said, mark, step-IsSynced, step-said, flush-IsSynced, flush-entries, flush-clean,
}
use bitcoin_data_exporter.Ingest.{Node, RpcConfig, LogRow, Daemon, ask}
use bitcoin_data_exporter.Ingest.Reorg.{
  Walk, mark_detached, walk_back, record_reorg, write_log, attached_rows, attach, range_from,
  detached_rows, live_hash, recover_from_reorg,
}
use bitcoin_data_exporter.Ingest.Reorg.Walks.{
  IsChain, last_block, WasLive, SameStores, IsFound, IsWalk, walk_back-IsWalk,
}

module _ {R : Type 0} (node : Node R) where
  get-mark :
      (k : ℕ × Hash) (h : ℕ) (b : Hash) (s : BlockStatusStore)
      → Dict.get k (set_canonical h b false s).entries
        ≡ (if k == (h, b) then some false else Dict.get k s.entries)
  unfolding step said
  get-mark k h b s = step-said k (mark h b false) s

  mark_detached_lem :
      (k : ℕ × Hash) (ds : List (ℕ × Hash)) (s : BlockStatusStore)
      → Dict.get k (mark_detached ds s).entries
        ≡ (if contains ds k then some false else Dict.get k s.entries)
  unfolding mark_detached
  mark_detached_lem k [] s = refl
  mark_detached_lem k ((h, b) ∷ ds) s =
      mark_detached_lem k ds (set_canonical h b false s) ∙ ground (arith, get-mark k h b s)

  live_hash-same :
      (h : ℕ) (o : Option Hash) (d : Daemon R) → SameStores node d (live_hash node h o d).1
  unfolding live_hash ask
  live_hash-same h none d = (refl, refl)
  live_hash-same h (some b) d = elim (Bool-cases (b == "")) [
    | inl e ↦ simp e (refl, refl)
    | inr e ↦ simp e (refl, refl)
  ]

  attach-same :
      (h : ℕ) (others : Daemon R → Result (List LogRow) × Daemon R) (d : Daemon R)
      → (answer : Result Hash × Daemon R) → ((e : Daemon R) → SameStores node e (others e).1)
      → SameStores node d answer.1
      → SameStores node d (attach node h others answer).1
  unfolding attach
  attach-same h others d (raised e, d') f same = same
  attach-same h others d (returned b, d') f same =
      let same' = f d' in (same'.0 ∙ same.0, same'.1 ∙ same.1)

  attached_rows-same :
      (hs : List ℕ) (lives : Dict ℕ Hash) (d : Daemon R)
      → SameStores node d (attached_rows node hs lives d).1
  unfolding attached_rows
  attached_rows-same [] lives d = (refl, refl)
  attached_rows-same (h ∷ hs) lives d =
      attach-same h (attached_rows node hs lives) d (live_hash node h (Dict.get h lives) d)
        (attached_rows-same hs lives) (live_hash-same h (Dict.get h lives) d)

  -- What a recovery that returns has done, with how the flags were written.
  pub record IsWritten (depth : ℕ) (current : ℕ × Hash) (d d' : Daemon R) (found : ℕ × Hash)
      : Type 0 where
    pub detached : List (ℕ × Hash)
    pub chain : IsChain d.index found detached
    pub current_last : last_block found detached ≡ current
    pub depth_bound : length detached ≤ depth
    pub was_live : WasLive node found.0 found.1
    pub flags :
        (k : ℕ × Hash)
        → Dict.get k d'.block_status.entries
          ≡ (if contains detached k then some false else Dict.get k d.block_status.entries)
    pub flushed : d'.block_status.dirty ≡ false
    pub stored : d'.block_status ≡ flush (mark_detached detached d.block_status)

  abbrev pub Writes : ℕ → ℕ × Hash → Daemon R → Result (ℕ × Hash) × Daemon R → Type 0
  Writes depth current d (raised e, d') = d'.index ≡ d.index
  Writes depth current d (returned found, d') =
      IsWritten depth current d d' found × (d'.index ≡ d.index)

  write_log-Writes :
      (depth : ℕ) (current : ℕ × Hash) (w : Walk) (rows : List LogRow) (d m : Daemon R)
      → (more : Result (List LogRow) × Daemon R) → IsFound node d.index current [] depth w
      → m.index ≡ d.index
      → m.block_status ≡ mark_detached w.detached d.block_status
      → SameStores node m more.1
      → Writes depth current d (write_log node w rows more)
  unfolding write_log
  write_log-Writes depth current w rows d m (raised e, d') f i b same = same.0 ∙ i
  write_log-Writes depth current w rows d m (returned more, d') f i b same = (
    record {
      detached = w.detached;
      chain = f.chain;
      current_last = f.start_last;
      depth_bound = f.depth_bound;
      was_live = f.was_live;
      flags = λ k.
          ap (Dict.get k) (flush-entries d'.block_status)
          ∙ ap (λ s. Dict.get k s.entries) (same.1 ∙ b)
          ∙ mark_detached_lem k w.detached d.block_status;
      flushed = flush-clean d'.block_status;
      stored = ap flush (same.1 ∙ b);
    },
    same.0 ∙ i,
  )

  record_reorg-Writes :
      (depth height : ℕ) (h : Hash) (d : Daemon R) (walk : Result Walk × Daemon R)
      → IsWalk node d.index (height, h) [] depth walk.0
      → SameStores node d walk.1
      → Writes depth (height, h) d (record_reorg node height walk)
  unfolding record_reorg
  record_reorg-Writes depth height h d (raised e, d') f same = same.0
  record_reorg-Writes depth height h d (returned w, d') f same =
      let marked = record d' { block_status = mark_detached w.detached d'.block_status } in
      let hs = range_from (w.ancestor_height + 1) (height + 1 - (w.ancestor_height + 1)) in
      write_log-Writes depth (height, h) w (detached_rows w.detached) d marked
        (attached_rows node hs w.live_hash_at_height marked) f same.0
        (ap (mark_detached w.detached) same.1) (attached_rows-same hs w.live_hash_at_height marked)

  -- The same, with how the flags were written.
  pub recover_from_reorg-Writes :
      (config : RpcConfig) (height : ℕ) (h : Hash) (d : Daemon R)
      → Writes config.max_reorg_depth (height, h) d (recover_from_reorg node config height h d)
  unfolding recover_from_reorg
  recover_from_reorg-Writes config height h d =
      let (walk, same) = walk_back-IsWalk node config.max_reorg_depth height h [] [] d tt in
      record_reorg-Writes config.max_reorg_depth height h d
        (walk_back node config.max_reorg_depth height h [] [] d)
        (subst
          (λ n.
            IsWalk node d.index (height, h) [] n
              (walk_back node config.max_reorg_depth height h [] [] d).0)
          (omega arith) walk)
        same

  mark_detached-IsSynced :
      (ds : List (ℕ × Hash)) (s : BlockStatusStore) → IsSynced s → IsSynced (mark_detached ds s)
  unfolding mark_detached step
  mark_detached-IsSynced [] s i = i
  mark_detached-IsSynced ((h, b) ∷ ds) s i =
      mark_detached-IsSynced ds (set_canonical h b false s) (step-IsSynced (mark h b false) s i)

  -- What a recovery that returns has done: the blocks it has detached, and for every block the flag that the
  -- store has in memory, and that a restart reads back from the file.
  pub record IsRecovered (depth : ℕ) (current : ℕ × Hash) (d d' : Daemon R) (found : ℕ × Hash)
      : Type 0 where
    pub detached : List (ℕ × Hash)
    pub chain : IsChain d.index found detached
    pub current_last : last_block found detached ≡ current
    pub depth_bound : length detached ≤ depth
    pub was_live : WasLive node found.0 found.1
    pub flags :
        (k : ℕ × Hash)
        → Dict.get k d'.block_status.entries
          ≡ (if contains detached k then some false else Dict.get k d.block_status.entries)
    pub on_disk :
        (k : ℕ × Hash)
        → Dict.get k (open_status d'.block_status.file).entries
          ≡ (if contains detached k then some false else Dict.get k d.block_status.entries)

  abbrev pub Recovers : ℕ → ℕ × Hash → Daemon R → Result (ℕ × Hash) × Daemon R → Type 0
  Recovers depth current d (raised e, d') = d'.index ≡ d.index
  Recovers depth current d (returned found, d') =
      IsRecovered depth current d d' found × (d'.index ≡ d.index)

  Writes-Recovers :
      (depth : ℕ) (current : ℕ × Hash) (d : Daemon R) (r : Result (ℕ × Hash) × Daemon R)
      → IsSynced d.block_status
      → Writes depth current d r
      → Recovers depth current d r
  unfolding open_status
  Writes-Recovers depth current d (raised e, d') i w = w
  Writes-Recovers depth current d (returned found, d') i (w, same) =
      let synced : IsSynced d'.block_status =
        subst IsSynced (sym w.stored)
          (flush-IsSynced _ (mark_detached-IsSynced w.detached d.block_status i)) in
      (
        record {
          detached = w.detached;
          chain = w.chain;
          current_last = w.current_last;
          depth_bound = w.depth_bound;
          was_live = w.was_live;
          flags = w.flags;
          on_disk = λ k. synced.clean w.flushed k ∙ w.flags k;
        },
        same,
      )

  -- From a synced store of flags: where `_recover_from_reorg` returns a block, there are at most
  -- max_reorg_depth detached blocks, each on record as the one that follows the one before it, from right
  -- above the returned block up to the one at the pointer; the node answered with the returned block's hash
  -- at its height; and exactly these blocks have been marked non-canonical, in memory and in the file that a
  -- restart reads. The index stays as it is in every case.
  pub recover_from_reorg-Recovers :
      (config : RpcConfig) (height : ℕ) (h : Hash) (d : Daemon R)
      → IsSynced d.block_status
      → Recovers config.max_reorg_depth (height, h) d (recover_from_reorg node config height h d)
  recover_from_reorg-Recovers config height h d i =
      Writes-Recovers config.max_reorg_depth (height, h) d
        (recover_from_reorg node config height h d) i (recover_from_reorg-Writes config height h d)
