-- ===== src/Ingest/Pass.antt =====
-- `_run_one_pass` and the cycle of `run_rpc_ingest` of rpc/ingest.py (under btc_parser_app). A height
-- that Python counts as the current one is given by the next one, which is one more: there is no height
-- -1 to write.
use bitcoin_data_exporter.Common.{
  ℕ, zero, suc, ◌+◌, ◌-◌, ◌*◌, min, max, Bool, true, false, not, ◌&&◌, Option, none, some, ltb, leb,
  if◌then◌else◌, ◌==◌, nat_eq, string_eq,
}
use bitcoin_data_exporter.Common.{
  ◌%◌, Result, returned, raised, Failure, runtime_error, rpc_cli_error,
}
use bitcoin_data_exporter.CsvWriter.{Csv}
use bitcoin_data_exporter.ReorgState.Index
use bitcoin_data_exporter.ReorgState.Status
use bitcoin_data_exporter.ReorgState.Index.{
  Hash, IndexRow, IndexSize, earliest_stale, discard_pending,
}
use bitcoin_data_exporter.ReorgState.Seed.{seed_index_from_blocks_csv}
use bitcoin_data_exporter.Catchup.{
  prefetch_per_worker, BlockEvent, ParsedBlock, Prefetch, fetch_and_parse, next_block,
  iter_parsed_blocks,
}
use bitcoin_data_exporter.Ingest.{
  Node, RpcConfig, read_pointer, Buffers, Daemon, ask, and_then, no_buffers, Outcome,
  process_height, process_prefetched, drain,
}
use bitcoin_data_exporter.Ingest.Reorg.{recover_from_reorg, range_from}

-- Where a pass goes on from: the next height, and the hash of the block before it.
pub record Start : Type 0 where
  pub next : ℕ
  pub hash : Option Hash

-- What a pass has settled before its loop.
pub record Plan : Type 0 where
  pub latest_height : ℕ
  pub atomic_mode : Bool
  -- one more than `parallel_end`
  pub parallel_stop : ℕ

-- The variables of the loop.
pub record Loop (R : Type 0) : Type 0 where
  pub next : ℕ
  pub last_hash : Option Hash
  pub prev_time : Option ℕ
  pub processed : ℕ
  pub prefetched : Option (Prefetch (ParsedBlock R))
  pub buffers : Buffers R
  pub daemon : Daemon R

-- After one height: on with the next one, the end of the loop, or an exception, with which the buffers
-- are lost.
pub data Turn (R : Type 0) : Type 0 where
  goes_on : Loop R → Turn R
  ends : Loop R → Turn R
  breaks : Failure → Daemon R → Turn R

unfoldable pub non_empty : Hash → Option Hash
non_empty h = if h == "" then none else some h

unfoldable pub differs_from : Option Hash → Hash → Bool
differs_from none h = false
differs_from (some last) h = not (h == last)

unfoldable pub rewind_to : Start → Option IndexRow → Start
unfolding non_empty
rewind_to s none = s
rewind_to s (some stale) =
    if ltb stale.height s.next
    then record { next = stale.height; hash = non_empty stale.previousblockhash }
    else s

module _ {R : Type 0} where
  -- `write_pointer(current_path, ...)`
  unfoldable pub write_current : ℕ → Option Hash → Daemon R → Daemon R
  write_current height h d = record d { current = some (record { height = height; blockhash = h }) }

  unfoldable pub write_latest : ℕ → Hash → Daemon R → Daemon R
  write_latest height h d = record d {
    latest = some (record { height = height; blockhash = some h });
  }

  module _ ⦃z : IndexSize⦄ where
    unfoldable pub seed_current : Daemon R → Option (ℕ × Hash) × Daemon R
    unfolding seed_index_from_blocks_csv
    seed_current d =
        let (found, ix) =
          seed_index_from_blocks_csv d.blocks.disk.state d.blocks.disk.export d.index in
        (found, record d { index = ix })

    unfoldable pub or_seed : Option (ℕ × Hash) → Daemon R → Option (ℕ × Hash) × Daemon R
    unfolding seed_current
    or_seed none d = seed_current d
    or_seed (some current) d = (some current, d)

    -- The pointer, or what the index can be seeded with.
    unfoldable pub find_current : Daemon R → Option (ℕ × Hash) × Daemon R
    unfolding or_seed
    find_current d = or_seed (read_pointer d.current) d

  unfoldable pub rewind : Start → Daemon R → Start × Daemon R
  unfolding rewind_to
  rewind s d =
      let (stale, ix) = earliest_stale d.index in (rewind_to s stale, record d { index = ix })

  module _ ⦃z : IndexSize⦄ ⦃c : Csv R⦄ ⦃ce : Csv (BlockEvent R)⦄ where
    -- Rows first, then the index, then the flags.
    unfoldable pub flush_all : Bool → Buffers R → Daemon R → Daemon R
    unfolding drain
    flush_all atomic b d =
        let d' = drain atomic b d in
        record d' { index = Index.flush d'.index; block_status = Status.flush d'.block_status }

    -- The pointer comes last.
    unfoldable pub checkpoint : Bool → Loop R → Loop R
    unfolding flush_all write_current no_buffers
    checkpoint atomic l = record l {
      buffers = no_buffers;
      daemon = write_current (l.next - 1) l.last_hash (flush_all atomic l.buffers l.daemon);
    }

    unfoldable pub write_last : ℕ → Option Hash → Daemon R → Daemon R
    unfolding write_current
    write_last height none d = d
    write_last height (some h) d = write_current height (some h) d

    -- After the loop.
    unfoldable pub finish_pass : Plan → Loop R → Result Bool × Daemon R
    unfolding flush_all write_last
    finish_pass plan l = (
      returned (ltb plan.latest_height l.next),
      write_last (l.next - 1) l.last_hash (flush_all plan.atomic_mode l.buffers l.daemon),
    )

    module _ (node : Node R) (config : RpcConfig) where
      -- `atomic_mode or processed % rpc_config.batch_size == 0`
      unfoldable pub maybe_checkpoint : Plan → Loop R → Turn R
      unfolding checkpoint
      maybe_checkpoint plan l =
          if plan.atomic_mode
          then goes_on (checkpoint true l)
          else if config.batch_size == 0
          then breaks runtime_error l.daemon
          else if l.processed % config.batch_size == 0
          then goes_on (checkpoint false l)
          else goes_on l

      -- The pool is closed after the last block of the parallel range.
      unfoldable pub close_pool :
          Plan → ℕ → Option (Prefetch (ParsedBlock R)) → Option (Prefetch (ParsedBlock R))
      close_pool plan height prefetched =
          if height + 1 == plan.parallel_stop then none else prefetched

      unfoldable pub after_block :
          Plan → ℕ → Option (Prefetch (ParsedBlock R)) → ℕ → Outcome R → Turn R
      unfolding maybe_checkpoint close_pool
      after_block plan height prefetched processed (raised e, (b, d)) = breaks e d
      after_block plan height prefetched processed (returned (h, time), (b, d)) =
          maybe_checkpoint plan (record {
            next = height + 1;
            last_hash = some h;
            prev_time = some time;
            processed = processed + 1;
            prefetched = close_pool plan height prefetched;
            buffers = b;
            daemon = d;
          })

      -- A block from the workers. One that does not build on the last block ends the loop.
      unfoldable pub after_next :
          Plan → Loop R → Option (Result (ParsedBlock R) × Prefetch (ParsedBlock R)) → Turn R
      unfolding after_block differs_from
      after_next plan l none = breaks runtime_error l.daemon
      after_next plan l (some (raised e, p)) = breaks e l.daemon
      after_next plan l (some (returned parsed, p)) =
          if differs_from l.last_hash parsed.previousblockhash
          then ends l
          else (let (done, bd) = process_prefetched parsed l.prev_time (l.buffers, l.daemon) in
              after_block plan l.next (some p) l.processed (returned done, bd))

      abbrev pub worker : ℕ → Result (ParsedBlock R)
      worker = fetch_and_parse node.worker_hash node.worker_parse

      unfoldable pub process_next : Plan → Loop R → Turn R
      unfolding after_block
      process_next plan l =
          after_block plan l.next l.prefetched l.processed
            (process_height node l.next l.prev_time (l.buffers, l.daemon))

      unfoldable pub take_height : Plan → Loop R → Option (Prefetch (ParsedBlock R)) → Turn R
      unfolding after_next process_next
      take_height plan l none = process_next plan l
      take_height plan l (some p) =
          if ltb l.next plan.parallel_stop
          then after_next plan l (next_block worker p)
          else process_next plan l

      -- One round of the `for` loop.
      unfoldable pub round : Plan → Loop R → Turn R
      unfolding take_height
      round plan l = if node.stopping l.next then ends l else take_height plan l l.prefetched

      unfoldable pub follow :
          (Loop R → Result Bool × Daemon R) → Plan → Turn R → Result Bool × Daemon R
      unfolding finish_pass
      follow go_on plan (goes_on l) = go_on l
      follow go_on plan (ends l) = finish_pass plan l
      follow go_on plan (breaks e d) = (raised e, d)

      -- The rounds of n heights, and what follows them.
      unfoldable pub rounds : Plan → ℕ → Loop R → Result Bool × Daemon R
      unfolding round finish_pass follow
      rounds plan zero l = finish_pass plan l
      rounds plan (suc n) l = follow (rounds plan n) plan (round plan l)

      unfoldable pub check_current : Option (ℕ × Hash) → Daemon R → Result Start × Daemon R
      unfolding ask and_then recover_from_reorg
      check_current none d = (returned (record { next = 0; hash = none }), d)
      check_current (some (height, h)) d =
          and_then (ask (λ t. node.block_hash t height) d) (λ live d'.
            if live == h
            then (returned (record { next = suc height; hash = some h }), d')
            else (and_then (recover_from_reorg node config height h d') (λ found d''.
                (returned (record { next = suc found.0; hash = some found.1 }), d''))))

      unfoldable pub time_before : Option Hash → Daemon R → Result (Option ℕ) × Daemon R
      unfolding ask and_then
      time_before none d = (returned none, d)
      time_before (some h) d =
          and_then (ask (λ t. node.header_time t h) d) (λ time d'. (returned (some time), d'))

      unfoldable pub plan_pass : ℕ → ℕ → Start → Plan
      plan_pass tip latest s = record {
        latest_height = latest;
        atomic_mode = leb (latest + 1 - s.next) (max config.reorg_confirmations 1);
        parallel_stop = min (latest + 1) (tip + 1 - config.max_reorg_depth);
      }

      -- The prefetching iterator, where the backlog is worth it.
      unfoldable pub open_pool : Plan → Start → Option (Prefetch (ParsedBlock R))
      unfolding iter_parsed_blocks range_from
      open_pool plan s =
          if ltb 1 config.catchup_workers
            && (not plan.atomic_mode
                && ltb (prefetch_per_worker * config.catchup_workers) (plan.parallel_stop - s.next))
          then some (
              iter_parsed_blocks worker (range_from s.next (plan.parallel_stop - s.next))
                config.catchup_workers)
          else none

      unfoldable pub run_loop : Plan → Start → Option ℕ → Daemon R → Result Bool × Daemon R
      unfolding rounds open_pool no_buffers
      run_loop plan s prev_time d = rounds plan (plan.latest_height + 1 - s.next) (record {
        next = s.next;
        last_hash = s.hash;
        prev_time = prev_time;
        processed = 0;
        prefetched = open_pool plan s;
        buffers = no_buffers;
        daemon = d;
      })

      -- Nothing is left to do, or the loop runs.
      unfoldable pub go_from : ℕ → ℕ → Start × Daemon R → Result Bool × Daemon R
      unfolding write_current time_before run_loop plan_pass and_then
      go_from tip latest (s, d) =
          if ltb latest s.next
          then (let d' = write_current (s.next - 1) s.hash d in
              (returned true, record d' { block_status = Status.flush d'.block_status }))
          else and_then (time_before s.hash d)
              (λ time d'. run_loop (plan_pass tip latest s) s time d')

      unfoldable pub pass_to : ℕ → ℕ → Hash → Daemon R → Result Bool × Daemon R
      unfolding write_latest find_current check_current rewind go_from and_then
      pass_to tip latest h d =
          let (current, d') = find_current (write_latest latest h d) in
          and_then (check_current current d') (λ s d''. go_from tip latest (rewind s d''))

      -- `_run_one_pass`
      unfoldable pub run_one_pass : Daemon R → Result Bool × Daemon R
      unfolding ask and_then pass_to
      run_one_pass d = and_then (ask node.block_count d) (λ tip d'.
          if ltb tip config.reorg_confirmations
          then (returned true, d')
          else (let latest = tip - config.reorg_confirmations in
              and_then (ask (λ t. node.block_hash t latest) d') (pass_to tip latest)))

      -- What `run_rpc_ingest` makes of a pass: after an RPC error the staged index rows are discarded and
      -- the loop goes on; any other exception ends the process.
      unfoldable pub after_pass : Result Bool × Daemon R → Result Bool × Daemon R
      after_pass (returned caught_up, d) = (returned caught_up, d)
      after_pass (raised rpc_cli_error, d) =
          (returned true, record d { index = discard_pending d.index })
      after_pass (raised runtime_error, d) = (raised runtime_error, d)

      unfoldable pub cycle : Daemon R → Result Bool × Daemon R
      unfolding run_one_pass after_pass
      cycle d = after_pass (run_one_pass d)
