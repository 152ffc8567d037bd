-- ===== src/Ingest/Prefetched.antt =====
-- A block that the ingest loop fetches itself and one that a worker has fetched (rpc/ingest.py under
-- btc_parser_app).
use bitcoin_data_exporter.Common.{
  ℕ, suc, ◌≡◌, refl, inl, inr, Option, Bool-cases, nat_eq, string_eq,
}
use bitcoin_data_exporter.Common.{returned}
use bitcoin_data_exporter.ReorgState.Index.{needs_export}
use bitcoin_data_exporter.Catchup.{ParsedBlock}
use bitcoin_data_exporter.Ingest.{
  Node, Buffers, Daemon, ask, finish_parsed, finish_indexed, process_hash, process_height,
  process_prefetched,
}

module _ {R : Type 0} where
  -- What the node says of the height of a block, one call after the other, is what a worker has made of it.
  pub record Matches (node : Node R) (clock : ℕ) (p : ParsedBlock R) : Type 0 where
    pub hash : node.block_hash clock p.height ≡ returned p.block_hash
    pub time : node.header_time (suc clock) p.block_hash ≡ returned p.block_time
    pub block : node.parse_block (suc clock) p.block_hash ≡ returned p

  -- The daemon after two more calls.
  abbrev pub asked_twice : Daemon R → Daemon R
  asked_twice d = record d { clock = suc (suc d.clock) }

  -- `_process_height` does with a block what `_process_prefetched` does with the same block from a worker:
  -- the same rows are buffered, the same index row is staged, the same flag is set, and the same hash and
  -- time come back. The condition is that the node's answers are those that the worker got; the two RPC
  -- calls are all that differs.
  pub process_height-prefetched :
      (node : Node R) (p : ParsedBlock R) (prev_time : Option ℕ) (b : Buffers R) (d : Daemon R)
      → Matches node d.clock p
      → process_height node p.height prev_time (b, d)
        ≡ (let r = process_prefetched p prev_time (b, asked_twice d) in (returned r.0, r.1))
  unfolding process_height process_hash ask finish_parsed finish_indexed process_prefetched
  process_height-prefetched node p prev_time b d m =
      elim (Bool-cases (needs_export p.block_hash d.index)) [
        | inl e ↦ simp (m.hash, e, m.block) refl
        | inr e ↦ simp (m.hash, e, m.time) refl
      ]
