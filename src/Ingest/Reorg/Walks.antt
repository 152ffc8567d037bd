-- ===== src/Ingest/Reorg/Walks.antt =====
-- What the walk back of `_recover_from_reorg` (rpc/ingest.py under btc_parser_app) finds.
use bitcoin_data_exporter.Common.{
  ℕ, zero, suc, ◌+◌, ◌-◌, ◌≤◌, ◌<◌, ◌≡◌, refl, sym, ◌∙◌, inl, inr, ◌||◌, Option, none, some, List,
  [], ◌∷◌, arith, leb, Bool-cases, ◌==◌, nat_eq, string_eq, pair_eq, length,
}
use bitcoin_data_exporter.Common.Dict
use bitcoin_data_exporter.Common.Dict.{Dict, dict_laws}
use bitcoin_data_exporter.Common.{subst, Result, returned, raised}
use bitcoin_data_exporter.ReorgState.Index.{Hash, IndexRow, IndexStore, get_row}
use bitcoin_data_exporter.Ingest.{Node, Daemon, ask}
use bitcoin_data_exporter.Ingest.Reorg.{
  Verdict, failed, ancestor, further, Walk, compare_live, examine_row, turn, walk_back,
}

-- The block is on record, with that block before it.
abbrev pub Follows : IndexStore → Hash → Hash → Type 0
Follows ix h prev = (r : IndexRow) × (get_row h ix ≡ some r) × (r.previousblockhash ≡ prev)

-- Blocks from the lowest up, each on record as the one that follows the one before it.
abbrev pub IsChain : IndexStore → ℕ × Hash → List (ℕ × Hash) → Type 0
IsChain ix (n, prev) [] = Unit
IsChain ix (n, prev) ((m, h) ∷ rest) = (m ≡ n + 1) × Follows ix h prev × IsChain ix (m, h) rest

abbrev pub last_block : ℕ × Hash → List (ℕ × Hash) → ℕ × Hash
last_block b [] = b
last_block b (c ∷ rest) = last_block c rest

module _ {R : Type 0} (node : Node R) where
  -- The node said so at some time.
  abbrev pub WasLive : ℕ → Hash → Type 0
  WasLive n h = (t : ℕ) × (node.block_hash t n ≡ returned h)

  abbrev pub IsVerdict : IndexStore → ℕ → Hash → Verdict → Type 0
  IsVerdict ix height h (failed e) = Unit
  IsVerdict ix height h (ancestor live) =
      (0 < height) × Follows ix h live × WasLive (height - 1) live
  IsVerdict ix height h (further prev live) = (0 < height) × Follows ix h prev

  -- What the walk leaves alone.
  abbrev pub SameStores : Daemon R → Daemon R → Type 0
  SameStores d d' = (d'.index ≡ d.index) × (d'.block_status ≡ d.block_status)

  compare_live-IsVerdict :
      (ix : IndexStore) (height t : ℕ) (h : Hash) (row : IndexRow) (answer : Result Hash)
      → get_row h ix ≡ some row
      → 0 < height
      → node.block_hash t (height - 1) ≡ answer
      → IsVerdict ix height h (compare_live row.previousblockhash answer)
  unfolding compare_live
  compare_live-IsVerdict ix height t h row (raised e) g p a = tt
  compare_live-IsVerdict ix height t h row (returned live) g p a =
      elim (Bool-cases (live == row.previousblockhash)) [
        | inl e ↦ simp e (p, (row, g, ground arith), (t, a))
        | inr e ↦ simp e (p, (row, g, refl))
      ]

  examine_row-IsVerdict :
      (height : ℕ) (h : Hash) (o : Option IndexRow) (d : Daemon R)
      → get_row h d.index ≡ o
      → let (verdict, d') = examine_row node height o d in
        IsVerdict d.index height h verdict × SameStores d d'
  unfolding examine_row ask
  examine_row-IsVerdict height h none d g = (tt, (refl, refl))
  examine_row-IsVerdict height h (some row) d g =
      elim (Bool-cases (leb height 0 || row.previousblockhash == "")) [
        | inl e ↦ simp e (tt, (refl, refl))
        | inr e ↦ simp e (
          compare_live-IsVerdict d.index height d.clock h row (node.block_hash d.clock (height - 1))
              g (ground arith) refl,
          (refl, refl),
        )
      ]

  -- What a walk that returns has found, for the block where it started and those detached above.
  pub record IsFound (ix : IndexStore) (start : ℕ × Hash) (above : List (ℕ × Hash)) (depth : ℕ)
      (w : Walk) : Type 0 where
    pub chain : IsChain ix (w.ancestor_height, w.ancestor_hash) w.detached
    pub start_last :
        last_block (w.ancestor_height, w.ancestor_hash) w.detached ≡ last_block start above
    pub depth_bound : length w.detached ≤ depth
    pub was_live : WasLive w.ancestor_height w.ancestor_hash

  abbrev pub IsWalk : IndexStore → ℕ × Hash → List (ℕ × Hash) → ℕ → Result Walk → Type 0
  IsWalk ix start above depth (raised e) = Unit
  IsWalk ix start above depth (returned w) = IsFound ix start above depth w

  turn-IsWalk :
      (go_on : Hash → Hash → Daemon R → Result Walk × Daemon R) (allowed height : ℕ) (h : Hash)
      → (above : List (ℕ × Hash)) (lives : Dict ℕ Hash) (d : Daemon R) (verdict : Verdict)
      → (d' : Daemon R)
      → ((prev live : Hash)
          → 0 < height
          → Follows d.index h prev
          → let (result, d'') = go_on prev live d' in
            IsWalk d.index
              (height - 1, prev)
              ((height, h) ∷ above)
              (allowed + suc (length above))
              result
            × SameStores d d'')
      → IsChain d.index (height, h) above
      → IsVerdict d.index height h verdict
      → SameStores d d'
      → let (result, d'') = turn node go_on height ((height, h) ∷ above) lives (verdict, d') in
        IsWalk d.index (height, h) above (suc allowed + length above) result × SameStores d d''
  unfolding turn
  turn-IsWalk go_on allowed height h above lives d (failed e) d' f c v same = (tt, same)
  turn-IsWalk go_on allowed height h above lives d (ancestor live) d' f c (p, follows, was) same = (
    record {
      chain = (omega (arith, p), follows, c);
      start_last = refl;
      depth_bound = omega arith;
      was_live = was;
    },
    same,
  )
  turn-IsWalk go_on allowed height h above lives d (further prev live) d' f c (p, follows) same =
      let (walk, same') = f prev live p follows in (deepen (go_on prev live d').0 walk, same')
    where
      deepen :
          (r : Result Walk)
          → IsWalk d.index (height - 1, prev) ((height, h) ∷ above) (allowed + suc (length above)) r
          → IsWalk d.index (height, h) above (suc allowed + length above) r
      deepen (raised e) w = tt
      deepen (returned w) i = record {
        chain = i.chain;
        start_last = i.start_last;
        depth_bound = omega (arith, i.depth_bound);
        was_live = i.was_live;
      }

  pub walk_back-IsWalk :
      (allowed height : ℕ) (h : Hash) (above : List (ℕ × Hash)) (lives : Dict ℕ Hash) (d : Daemon R)
      → IsChain d.index (height, h) above
      → let (result, d') = walk_back node allowed height h above lives d in
        IsWalk d.index (height, h) above (allowed + length above) result × SameStores d d'
  unfolding walk_back
  walk_back-IsWalk zero height h above lives d c = (tt, (refl, refl))
  walk_back-IsWalk (suc allowed) height h above lives d c =
      let (verdict, d') = examine_row node height (get_row h d.index) d in
      let (v, same) = examine_row-IsVerdict height h (get_row h d.index) d refl in
      turn-IsWalk _ allowed height h above lives d verdict d'
        (λ prev live p follows.
          let (walk, same') =
            walk_back-IsWalk allowed (height - 1) prev ((height, h) ∷ above)
              (Dict.insert (height - 1) live lives) d'
              (subst (λ ix. IsChain ix (height - 1, prev) ((height, h) ∷ above)) (sym same.0)
                (omega (arith, p), follows, c)) in
          (
            subst
                (λ ix.
                  IsWalk ix (height - 1, prev) ((height, h) ∷ above)
                    (allowed + length ((height, h) ∷ above))
                    (walk_back node allowed (height - 1) prev ((height, h) ∷ above)
                      (Dict.insert (height - 1) live lives) d').0)
                same.0 walk,
            (same'.0 ∙ same.0, same'.1 ∙ same.1),
          ))
        c v same
