-- ===== src/Ingest/Exports.antt =====
-- Every block that the index shows as exported has its row in the parts of blocks.csv: the passes.
pub mod Blocks
pub mod Pool
use bitcoin_data_exporter.Common.{
  ℕ, zero, suc, ◌+◌, ◌-◌, ◌*◌, ◌≡◌, refl, sym, inl, inr, Bool, true, false, not, ◌&&◌, Option, none,
  some, List, [], ◌∷◌, ◌++◌, ltb, leb, Bool-cases, ◌==◌, nat_eq, string_eq, length, All, All-append,
}
use bitcoin_data_exporter.Common.{
  ◌%◌, subst, Result, returned, raised, runtime_error, rpc_cli_error,
}
use bitcoin_data_exporter.CsvWriter.{Csv}
use bitcoin_data_exporter.ReorgState.Index.{
  Hash, IndexSize, needs_export, current_index_schema_version, add,
}
use bitcoin_data_exporter.ReorgState.Seed.{found_rows, seed_index_from_blocks_csv}
use bitcoin_data_exporter.Catchup.{
  prefetch_per_worker, iter_parsed_blocks, BlockEvent, ParsedBlock, Prefetch, expect_height,
  parse_at, fetch_and_parse, fill, submit_next, next_block,
}
use bitcoin_data_exporter.Ingest.{
  Node, RpcConfig, read_pointer, Buffers, Daemon, ask, and_then, Outcome, timed_event,
  buffer_export, finish_parsed, finish_indexed, process_hash, process_height, process_prefetched,
  drain,
}
use bitcoin_data_exporter.Ingest.Reorg.{range_from, recover_from_reorg}
use bitcoin_data_exporter.Ingest.Reorg.Ancestor.{Writes, recover_from_reorg-Writes}
use bitcoin_data_exporter.Ingest.Reorg.Frame.{recover_from_reorg-rows}
use bitcoin_data_exporter.Ingest.Cover.{
  IsCovered, add-IsCovered, discard-IsCovered, flush-IsCovered, seed-IsCovered, stale-IsCovered,
}
use bitcoin_data_exporter.Ingest.Pass.{
  Start, Plan, Loop, Turn, goes_on, ends, breaks, flush_all, checkpoint, finish_pass, write_last,
  maybe_checkpoint, close_pool, after_block, after_next, worker, process_next, take_height,
  differs_from, follow, round, rounds, check_current, time_before, plan_pass, run_loop, go_from,
  pass_to, run_one_pass, after_pass, cycle, open_pool, write_latest, or_seed, find_current, rewind,
}
use bitcoin_data_exporter.Ingest.Exports.Blocks.{
  Covers, CoversBuffers, IsHonest, buffer-Covers, finish_indexed-Covers, finish_parsed-Covers,
  prefetched-Covers, process_hash-Covers, process_height-Covers,
}
use bitcoin_data_exporter.Ingest.Exports.Pool.{
  IsHonestNext, IsHonestPool, IsHonestResult, expect-IsHonest, fill-IsHonest, next-IsHonest,
  parse_at-IsHonest, parsed-IsHonest, submit-IsHonest, worker-IsHonest,
}

-- What holds after a round, after a call before the loop, and after a pass. Where an exception leaves
-- the loop, the buffer is lost and the rows that were in it are only known to exist.
module _ {R : Type 0} (old : Hash → Bool) where
  abbrev pub CoversLoop : Loop R → Type 0
  CoversLoop l = Covers old l.buffers.blocks l.daemon × IsHonestPool l.prefetched

  abbrev pub CoversTurn : Turn R → Type 0
  CoversTurn (goes_on l) = CoversLoop l
  CoversTurn (ends l) = CoversLoop l
  CoversTurn (breaks e d) = (rows : List (BlockEvent R)) × Covers old rows d

  abbrev pub CoversPass : {A : Type 0} → Result A × Daemon R → Type 0
  CoversPass (returned a, d) = Covers old [] d
  CoversPass (raised e, d) = (rows : List (BlockEvent R)) × Covers old rows d

  and_then-Covers :
      {A B : Type 0} (m : Result A × Daemon R) (k : A → Daemon R → Result B × Daemon R)
      → CoversPass m
      → ((a : A) (d : Daemon R) → Covers old [] d → CoversPass (k a d))
      → CoversPass (and_then m k)
  unfolding and_then
  and_then-Covers (raised e, d) k c f = c
  and_then-Covers (returned a, d) k c f = f a d c

  either-Covers : {A : Type 0} (r : Result A) (d : Daemon R) → Covers old [] d → CoversPass (r, d)
  either-Covers (returned a) d c = c
  either-Covers (raised e) d c = ([], c)

  ask-Covers :
      {A : Type 0} (question : ℕ → Result A) (d : Daemon R)
      → Covers old [] d
      → CoversPass (ask question d)
  unfolding ask
  ask-Covers question d c = either-Covers (question d.clock) (record d { clock = suc d.clock }) c

  module _ ⦃z : IndexSize⦄ ⦃cr : Csv R⦄ ⦃ce : Csv (BlockEvent R)⦄ where
    flush_all-Covers :
        (atomic : Bool) (b : Buffers R) (d : Daemon R)
        → Covers old b.blocks d
        → Covers old [] (flush_all atomic b d)
    unfolding flush_all drain
    flush_all-Covers atomic b d c = flush-IsCovered old atomic d.index d.blocks b.blocks c

    checkpoint-Covers :
        (atomic : Bool) (l : Loop R) → CoversLoop l → CoversLoop (checkpoint atomic l)
    unfolding checkpoint
    checkpoint-Covers atomic l (c, p) = (flush_all-Covers atomic l.buffers l.daemon c, p)

    write_last-Covers :
        (height : ℕ) (o : Option Hash) (d : Daemon R)
        → Covers old [] d
        → Covers old [] (write_last height o d)
    unfolding write_last
    write_last-Covers height none d c = c
    write_last-Covers height (some h) d c = c

    finish_pass-Covers : (plan : Plan) (l : Loop R) → CoversLoop l → CoversPass (finish_pass plan l)
    unfolding finish_pass
    finish_pass-Covers plan l (c, p) =
        write_last-Covers (l.next - 1) l.last_hash (flush_all plan.atomic_mode l.buffers l.daemon)
          (flush_all-Covers plan.atomic_mode l.buffers l.daemon c)

    module _ (node : Node R) (honest : IsHonest node) (config : RpcConfig) where
      maybe_checkpoint-Covers :
          (plan : Plan) (l : Loop R)
          → CoversLoop l
          → CoversTurn (maybe_checkpoint node config plan l)
      unfolding maybe_checkpoint
      maybe_checkpoint-Covers plan l c = elim (Bool-cases plan.atomic_mode) [
        | inl e ↦ simp e (checkpoint-Covers true l c)
        | inr e ↦ elim (Bool-cases (config.batch_size == 0)) [
          | inl f ↦ simp (e, f) (l.buffers.blocks, c.0)
          | inr f ↦ elim (Bool-cases (l.processed % config.batch_size == 0)) [
            | inl g ↦ simp (e, f, g) (checkpoint-Covers false l c)
            | inr g ↦ simp (e, f, g) c
          ]
        ]
      ]

      close_pool-IsHonest :
          (plan : Plan) (height : ℕ) (p : Option (Prefetch (ParsedBlock R)))
          → IsHonestPool p
          → IsHonestPool (close_pool node config plan height p)
      unfolding close_pool
      close_pool-IsHonest plan height p h = elim (Bool-cases (height + 1 == plan.parallel_stop)) [
        | inl e ↦ simp e tt
        | inr e ↦ simp e h
      ]

      after_block-Covers :
          (plan : Plan) (height : ℕ) (p : Option (Prefetch (ParsedBlock R))) (processed : ℕ)
          → (outcome : Outcome R) → IsHonestPool p
          → CoversBuffers old outcome.1
          → CoversTurn (after_block node config plan height p processed outcome)
      unfolding after_block
      after_block-Covers plan height p processed (raised e, (b, d)) h c = (b.blocks, c)
      after_block-Covers plan height p processed (returned (hash, time), (b, d)) h c =
          maybe_checkpoint-Covers plan
            (record {
              next = height + 1;
              last_hash = some hash;
              prev_time = some time;
              processed = processed + 1;
              prefetched = close_pool node config plan height p;
              buffers = b;
              daemon = d;
            })
            (c, close_pool-IsHonest plan height p h)

      after_next-Covers :
          (plan : Plan) (l : Loop R)
          (o : Option (Result (ParsedBlock R) × Prefetch (ParsedBlock R)))
          → IsHonestNext o
          → CoversLoop l
          → CoversTurn (after_next node config plan l o)
      unfolding after_next
      after_next-Covers plan l none h c = (l.buffers.blocks, c.0)
      after_next-Covers plan l (some (raised e, p)) h c = (l.buffers.blocks, c.0)
      after_next-Covers plan l (some (returned parsed, p)) h c =
          elim (Bool-cases (differs_from l.last_hash parsed.previousblockhash)) [
            | inl e ↦ simp e c
            | inr e ↦ simp e (
                after_block-Covers plan l.next (some p) l.processed
                  (
                    returned (process_prefetched parsed l.prev_time (l.buffers, l.daemon)).0,
                    (process_prefetched parsed l.prev_time (l.buffers, l.daemon)).1,
                  )
                  h.1 (prefetched-Covers old parsed l.prev_time (l.buffers, l.daemon) h.0 c.0))
          ]

      process_next-Covers :
          (plan : Plan) (l : Loop R) → CoversLoop l → CoversTurn (process_next node config plan l)
      unfolding process_next
      process_next-Covers plan l c =
          after_block-Covers plan l.next l.prefetched l.processed
            (process_height node l.next l.prev_time (l.buffers, l.daemon)) c.1
            (process_height-Covers old node honest l.next l.prev_time (l.buffers, l.daemon) c.0)

      take_height-Covers :
          (plan : Plan) (l : Loop R) (p : Option (Prefetch (ParsedBlock R)))
          → IsHonestPool p
          → CoversLoop l
          → CoversTurn (take_height node config plan l p)
      unfolding take_height
      take_height-Covers plan l none h c = process_next-Covers plan l c
      take_height-Covers plan l (some p) h c = elim (Bool-cases (ltb l.next plan.parallel_stop)) [
        | inl e ↦ simp e (
            after_next-Covers plan l (next_block (worker node config) p)
              (next-IsHonest (worker node config) (worker-IsHonest node honest) p.pending
                p.to_submit h)
              c)
        | inr e ↦ simp e (process_next-Covers plan l c)
      ]

      round-Covers :
          (plan : Plan) (l : Loop R) → CoversLoop l → CoversTurn (round node config plan l)
      unfolding round
      round-Covers plan l c = elim (Bool-cases (node.stopping l.next)) [
        | inl e ↦ simp e c
        | inr e ↦ simp e (take_height-Covers plan l l.prefetched c.1 c)
      ]

      follow-Covers :
          (go_on : Loop R → Result Bool × Daemon R) (plan : Plan) (t : Turn R)
          → ((l : Loop R) → CoversLoop l → CoversPass (go_on l))
          → CoversTurn t
          → CoversPass (follow node config go_on plan t)
      unfolding follow
      follow-Covers go_on plan (goes_on l) f c = f l c
      follow-Covers go_on plan (ends l) f c = finish_pass-Covers plan l c
      follow-Covers go_on plan (breaks e d) f c = c

      rounds-Covers :
          (plan : Plan) (n : ℕ) (l : Loop R)
          → CoversLoop l
          → CoversPass (rounds node config plan n l)
      unfolding rounds
      rounds-Covers plan zero l c = finish_pass-Covers plan l c
      rounds-Covers plan (suc n) l c =
          follow-Covers (rounds node config plan n) plan (round node config plan l)
            (rounds-Covers plan n) (round-Covers plan l c)

      same-Covers :
          (d d' : Daemon R)
          → Covers old [] d
          → d'.index ≡ d.index
          → d'.blocks ≡ d.blocks
          → Covers old [] d'
      same-Covers d d' c i b =
          subst (λ ix. IsCovered old ix d'.blocks []) (sym i)
            (subst (λ s. IsCovered old d.index s []) (sym b) c)

      recovered-Covers :
          (depth : ℕ) (current : ℕ × Hash) (d : Daemon R) (r : Result (ℕ × Hash) × Daemon R)
          → Covers old [] d
          → Writes node depth current d r
          → r.1.blocks ≡ d.blocks
          → CoversPass r
      recovered-Covers depth current d (raised e, d') c same b = ([], same-Covers d d' c same b)
      recovered-Covers depth current d (returned found, d') c same b = same-Covers d d' c same.1 b

      recover-Covers :
          (height : ℕ) (h : Hash) (d : Daemon R)
          → Covers old [] d
          → CoversPass (recover_from_reorg node config height h d)
      recover-Covers height h d c =
          recovered-Covers config.max_reorg_depth (height, h) d
            (recover_from_reorg node config height h d) c
            (recover_from_reorg-Writes node config height h d)
            (recover_from_reorg-rows node config height h d)

      check_current-Covers :
          (o : Option (ℕ × Hash)) (d : Daemon R)
          → Covers old [] d
          → CoversPass (check_current node config o d)
      unfolding check_current
      check_current-Covers none d c = c
      check_current-Covers (some (height, h)) d c =
          and_then-Covers (ask (λ t. node.block_hash t height) d) _
            (ask-Covers (λ t. node.block_hash t height) d c)
            (λ live d' c'. elim (Bool-cases (live == h)) [
              | inl e ↦ simp e c'
              | inr e ↦ simp e (
                  and_then-Covers (recover_from_reorg node config height h d') _
                    (recover-Covers height h d' c') (λ found d'' c''. c''))
            ])

      time_before-Covers :
          (o : Option Hash) (d : Daemon R)
          → Covers old [] d
          → CoversPass (time_before node config o d)
      unfolding time_before
      time_before-Covers none d c = c
      time_before-Covers (some h) d c =
          and_then-Covers (ask (λ t. node.header_time t h) d) _
            (ask-Covers (λ t. node.header_time t h) d c) (λ time d' c'. c')

      open_pool-IsHonest : (plan : Plan) (s : Start) → IsHonestPool (open_pool node config plan s)
      unfolding open_pool iter_parsed_blocks
      open_pool-IsHonest plan s =
          elim (Bool-cases (
            ltb 1 config.catchup_workers
            && (not plan.atomic_mode
                && ltb (prefetch_per_worker * config.catchup_workers)
                    (plan.parallel_stop - s.next)))) [
                      | inl e ↦ simp e (
                          fill-IsHonest (worker node config) (worker-IsHonest node honest)
                            (prefetch_per_worker * config.catchup_workers)
                            (range_from s.next (plan.parallel_stop - s.next)) [] tt)
                      | inr e ↦ simp e tt
                    ]

      run_loop-Covers :
          (plan : Plan) (s : Start) (time : Option ℕ) (d : Daemon R)
          → Covers old [] d
          → CoversPass (run_loop node config plan s time d)
      unfolding run_loop
      run_loop-Covers plan s time d c =
          rounds-Covers plan (plan.latest_height + 1 - s.next) _ (c, open_pool-IsHonest plan s)

      go_from-Covers :
          (tip latest : ℕ) (s : Start) (d : Daemon R)
          → Covers old [] d
          → CoversPass (go_from node config tip latest (s, d))
      unfolding go_from
      go_from-Covers tip latest s d c = elim (Bool-cases (ltb latest s.next)) [
        | inl e ↦ simp e c
        | inr e ↦ simp e (
            and_then-Covers (time_before node config s.hash d) _ (time_before-Covers s.hash d c)
              (λ time d' c'. run_loop-Covers (plan_pass node config tip latest s) s time d' c'))
      ]

      or_seed-Covers :
          (o : Option (ℕ × Hash)) (d : Daemon R) → Covers old [] d → Covers old [] (or_seed o d).1
      unfolding or_seed seed_index_from_blocks_csv
      or_seed-Covers none d c =
          seed-IsCovered old (found_rows d.blocks.disk.state d.blocks.disk.export) d.index d.blocks
            c
      or_seed-Covers (some current) d c = c

      pass_to-Covers :
          (tip latest : ℕ) (h : Hash) (d : Daemon R)
          → Covers old [] d
          → CoversPass (pass_to node config tip latest h d)
      unfolding pass_to find_current rewind
      pass_to-Covers tip latest h d c =
          let d' = write_latest latest h d in
          let found = or_seed (read_pointer d'.current) d' in
          and_then-Covers (check_current node config found.0 found.1) _
            (check_current-Covers found.0 found.1 (or_seed-Covers (read_pointer d'.current) d' c))
            (λ s d'' c''.
              go_from-Covers tip latest (rewind s d'').0 (rewind s d'').1
                (stale-IsCovered old d''.index d''.blocks c''))

      run_one_pass-Covers :
          (d : Daemon R) → Covers old [] d → CoversPass (run_one_pass node config d)
      unfolding run_one_pass
      run_one_pass-Covers d c =
          and_then-Covers (ask node.block_count d) _ (ask-Covers node.block_count d c) (λ tip d' c'.
            elim (Bool-cases (ltb tip config.reorg_confirmations)) [
              | inl e ↦ simp e c'
              | inr e ↦
                  let latest = tip - config.reorg_confirmations in
                  simp e (
                    and_then-Covers (ask (λ t. node.block_hash t latest) d') _
                      (ask-Covers (λ t. node.block_hash t latest) d' c')
                      (λ h d'' c''. pass_to-Covers tip latest h d'' c''))
            ])

      after_pass-Covers :
          (r : Result Bool × Daemon R) → CoversPass r → CoversPass (after_pass node config r)
      unfolding after_pass
      after_pass-Covers (returned b, d) c = c
      after_pass-Covers (raised rpc_cli_error, d) (rows, c) =
          discard-IsCovered old d.index d.blocks rows c
      after_pass-Covers (raised runtime_error, d) c = c

      -- Where a pass and what `run_rpc_ingest` makes of its outcome leave the process running, every block
      -- that the index on file shows at the current schema version was exported before or has its row in
      -- the parts of blocks.csv, and no index row of the current version is staged: whatever the node
      -- answers, wherever an RPC call fails or a stop comes, in each of the writing modes and with each
      -- number of workers. The condition is that this held before, and that a parsed block carries its own
      -- hash; and it says nothing of a pass after which the process ends.
      pub cycle-IsCovered :
          (d : Daemon R) → IsCovered old d.index d.blocks [] → CoversPass (cycle node config d)
      unfolding cycle
      cycle-IsCovered d c = after_pass-Covers (run_one_pass node config d) (run_one_pass-Covers d c)
