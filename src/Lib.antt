-- ===== src/Lib.antt =====
-- A verification library of the exporter of Bitcoin data (btc_parser_app). It models the parts that keep
-- state on disk and in memory, and proves what a crash, a restart, a reorg of the chain or a failing
-- call may and may not do to the exported data.
--
-- The parts, and how they interact. `rpc-ingest` (btc_parser_app/rpc/ingest.py) follows a node: each pass
-- asks for the tip, checks the pointer current.csv against the chain, recovers from a reorg, and walks
-- the heights up to the tip, one block after another, or with workers that fetch ahead
-- (btc_parser_app/rpc/catchup.py). It buffers rows, writes them to four part sequencers
-- (btc_parser_app/rpc/part_writer.py), and only then makes durable the index of exported blocks, the
-- flags of reorged blocks and the pointer (btc_parser_app/rpc/reorg_state.py). Parts are numbered files
-- (btc_parser_app/common/csv_writer.py). Two other services keep a registry of stale blocks
-- (btc_parser_app/rpc/stale_blocks.py) and watch the mempool (btc_parser_app/rpc/mempool_watch.py).
--
-- Which file models what. A definition has the name of its function; a method's object is a record that
-- is passed and returned, and a test, a loop or a branch of a method that proofs speak of is a helper.
-- - Common: Booleans, lists, results, and Python's `dict` with the laws that proofs go by.
-- - CsvWriter: common/csv_writer.py. A folder's parts of one CSV are a dictionary from numbers to lines.
-- - PartWriter: rpc/part_writer.py. `PartSequencer` carries its disk and, in `passed`, the states that
--   the disk went through, which are those that a crash between two steps can leave.
-- - ReorgState: rpc/reorg_state.py: Index (`IndexStore`), Status (`BlockStatusStore`), Seed.
-- - Catchup: rpc/catchup.py. A future is the outcome that its worker comes to.
-- - Ingest: rpc/ingest.py: the steps for a block, Reorg (`_recover_from_reorg`), Pass (`_run_one_pass` and
--   the cycle of `run_rpc_ingest`). `Daemon` is all that the process holds between two calls.
-- - StaleBlocks: rpc/stale_blocks.py, rpc/stale_blocks_state.py, and the check of common/block_header.py.
-- - ZmqSequence: rpc/zmq_sequence.py.
-- - BlockParser: rpc/block_parser.py: Inputs, Outputs, Transaction (`aggregate_transaction`), Totals and
--   Aggregate (`aggregate_block`); Rows compares the exported rows with one another; Pools is
--   rpc/mining_pools.py; Parsed has `build_parsed_block` of rpc/catchup.py and the node whose blocks it
--   parses.
-- - RpcClient: the retries of rpc/client.py, and Http, its kept-alive connection.
-- - Sanctions: rpc/sanctions_list.py; Matches is `match_tx` of rpc/mempool_watch.py.
-- - ApiClient: api/client.py; RateLimiter is api/rate_limiter.py.
-- - PriceGap: api/price_gap_backfill.py.
-- - MempoolWatch: rpc/mempool_watch.py and rpc/mempool_watch_state.py.
-- - Tests: runs at concrete inputs.
--
-- Bounds and fuel. Loops are recursion on a list or on a number that the code itself counts: the heights
-- that are left in a pass, and what max_reorg_depth leaves of a walk back, which raises when it is used
-- up, as the code does, the attempts of a call, the steps of a backfill. The digits of a product are counted
-- with the product itself as fuel. Part numbers in file names have six digits, so what reads parts back is
-- stated below part 1000000. Heights before the first block do not occur: the next height stands for the
-- current one.
--
-- What is outside. The node's answers are a parameter that may answer differently at every call, as are
-- the stop event, the outcomes of the workers, the sizes of lines and files, and the hash of a header.
-- The ingest model takes the parsed blocks of any node, and BlockParser.Parsed gives it the real ones. What
-- the parser computes in floats goes through a record of operations, `Floats`. White space and case
-- are those of ASCII texts. The threads of the API poller, configuration, logging and the dashboards are
-- not modelled. An atomic replacement of a file is one durable step, and so is appending rows to a file, in
-- the price gap backfill one row: a crash in the middle of a line, and what `read_csv_lenient` drops after
-- it, is not modelled.
pub mod ApiClient
pub mod BlockParser
pub mod Catchup
pub mod Common
pub mod CsvWriter
pub mod Ingest
pub mod MempoolWatch
pub mod PartWriter
pub mod PriceGap
pub mod ReorgState
pub mod RpcClient
pub mod Sanctions
pub mod StaleBlocks
pub mod Tests
pub mod ZmqSequence
