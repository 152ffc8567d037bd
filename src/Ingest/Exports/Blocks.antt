-- ===== src/Ingest/Exports/Blocks.antt =====
-- Every block that the index shows as exported has its row in the parts of blocks.csv: one block.
use bitcoin_data_exporter.Common.{
  ℕ, suc, ◌≡◌, refl, inl, inr, Bool, not, Option, List, [], ◌∷◌, ◌++◌, Bool-cases, nat_eq,
  string_eq,
}
use bitcoin_data_exporter.Common.{subst, Result, returned, raised}
use bitcoin_data_exporter.ReorgState.Index.{Hash, needs_export, current_index_schema_version, add}
use bitcoin_data_exporter.Catchup.{BlockEvent, ParsedBlock}
use bitcoin_data_exporter.Ingest.{
  Node, Buffers, Daemon, ask, timed_event, buffer_export, finish_parsed, finish_indexed,
  process_hash, process_height, process_prefetched,
}
use bitcoin_data_exporter.Ingest.Cover.{IsCovered, add-IsCovered}

-- The event of a block carries the block's hash.
pub record IsHonest {R : Type 0} (node : Node R) : Type 0 where
  pub parsed :
      (t : ℕ) (h : Hash) (p : ParsedBlock R)
      → node.parse_block t h ≡ returned p
      → p.block_event.hash ≡ p.block_hash
  pub worker_parsed :
      (h : Hash) (p : ParsedBlock R)
      → node.worker_parse h ≡ returned p
      → p.block_event.hash ≡ p.block_hash

module _ {R : Type 0} (old : Hash → Bool) where
  -- The daemon is covered, with these rows in the buffer.
  abbrev pub Covers : List (BlockEvent R) → Daemon R → Type 0
  Covers rows d = IsCovered old d.index d.blocks rows

  abbrev pub CoversBuffers : Buffers R × Daemon R → Type 0
  CoversBuffers (b, d) = Covers b.blocks d

  pub buffer-Covers :
      (p : ParsedBlock R) (prev_time : Option ℕ) (bd : Buffers R × Daemon R)
      → p.block_event.hash ≡ p.block_hash
      → CoversBuffers bd
      → CoversBuffers (buffer_export p prev_time bd)
  unfolding buffer_export timed_event
  buffer-Covers p prev_time (b, d) honest c =
      subst
        (λ h.
          IsCovered old (add p.height h p.previousblockhash current_index_schema_version d.index)
            d.blocks (b.blocks ++ timed_event p prev_time ∷ []))
        honest
        (add-IsCovered old p.height p.previousblockhash current_index_schema_version
          (timed_event p prev_time) d.index d.blocks b.blocks c)

  pub prefetched-Covers :
      (p : ParsedBlock R) (prev_time : Option ℕ) (bd : Buffers R × Daemon R)
      → p.block_event.hash ≡ p.block_hash
      → CoversBuffers bd
      → CoversBuffers (process_prefetched p prev_time bd).1
  unfolding process_prefetched
  prefetched-Covers p prev_time (b, d) honest c =
      elim (Bool-cases (needs_export p.block_hash d.index)) [
        | inl e ↦ simp e (buffer-Covers p prev_time (b, d) honest c)
        | inr e ↦ simp e c
      ]

  pub finish_parsed-Covers :
      (height : ℕ) (h : Hash) (prev_time : Option ℕ) (b : Buffers R)
      → (answer : Result (ParsedBlock R) × Daemon R)
      → ((p : ParsedBlock R) → answer.0 ≡ returned p → p.block_event.hash ≡ p.block_hash)
      → Covers b.blocks answer.1
      → CoversBuffers (finish_parsed height h prev_time b answer).1
  unfolding finish_parsed
  finish_parsed-Covers height h prev_time b (raised e, d) honest c = c
  finish_parsed-Covers height h prev_time b (returned p, d) honest c =
      buffer-Covers p prev_time (b, d) (honest p refl) c

  pub finish_indexed-Covers :
      (height : ℕ) (h : Hash) (b : Buffers R) (answer : Result ℕ × Daemon R)
      → Covers b.blocks answer.1
      → CoversBuffers (finish_indexed height h b answer).1
  unfolding finish_indexed
  finish_indexed-Covers height h b (raised e, d) c = c
  finish_indexed-Covers height h b (returned time, d) c = c

  pub process_hash-Covers :
      (node : Node R)
      → IsHonest node
      → (height : ℕ) (prev_time : Option ℕ) (b : Buffers R) (answer : Result Hash × Daemon R)
      → Covers b.blocks answer.1
      → CoversBuffers (process_hash node height prev_time b answer).1
  unfolding process_hash ask
  process_hash-Covers node honest height prev_time b (raised e, d) c = c
  process_hash-Covers node honest height prev_time b (returned h, d) c =
      elim (Bool-cases (not (needs_export h d.index))) [
        | inl e ↦ simp e (
            finish_indexed-Covers height h b
              (node.header_time d.clock h, record d { clock = suc d.clock }) c)
        | inr e ↦ simp e (
            finish_parsed-Covers height h prev_time b
              (node.parse_block d.clock h, record d { clock = suc d.clock })
              (honest.parsed d.clock h) c)
      ]

  pub process_height-Covers :
      (node : Node R)
      → IsHonest node
      → (height : ℕ) (prev_time : Option ℕ) (bd : Buffers R × Daemon R) → CoversBuffers bd
      → CoversBuffers (process_height node height prev_time bd).1
  unfolding process_height ask
  process_height-Covers node honest height prev_time (b, d) c =
      process_hash-Covers node honest height prev_time b
        (node.block_hash d.clock height, record d { clock = suc d.clock }) c
