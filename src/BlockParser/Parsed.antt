-- ===== src/BlockParser/Parsed.antt =====
-- `build_parsed_block` of rpc/catchup.py (under btc_parser_app): what the ingest loop takes of a block.
use bitcoin_data_exporter.Common.{ℕ, String, ◌≡◌, refl, Bool, Option, map, arith, nat_eq, string_eq}
use bitcoin_data_exporter.Common.{subst, Result, returned, raised}
use bitcoin_data_exporter.ReorgState.Seed.{or_empty}
use bitcoin_data_exporter.Catchup.{BlockEvent, ParsedBlock}
use bitcoin_data_exporter.Ingest.{Node}
use bitcoin_data_exporter.Ingest.Exports.Blocks.{IsHonest}
use bitcoin_data_exporter.BlockParser.{Block, ParserConfig, Floats}
use bitcoin_data_exporter.BlockParser.Pools.{PoolMatcher}
use bitcoin_data_exporter.BlockParser.Inputs.{InputEvent}
use bitcoin_data_exporter.BlockParser.Outputs.{OutputEvent}
use bitcoin_data_exporter.BlockParser.Transaction.{TxEvent}
use bitcoin_data_exporter.BlockParser.Aggregate.{BlockColumns, BlockAggregate, aggregate_block}

-- A row of one of the four CSV files.
pub data Row (F C : Type 0) : Type 0 where
  block_row : BlockColumns F C → Row F C
  tx_row : TxEvent F → Row F C
  input_row : InputEvent → Row F C
  output_row : OutputEvent → Row F C

module _ {F C : Type 0} where
  abbrev pub as_row : BlockEvent (BlockColumns F C) → BlockEvent (Row F C)
  as_row e = record {
    height = e.height;
    hash = e.hash;
    previousblockhash = e.previousblockhash;
    time_since_prev_block_sec = e.time_since_prev_block_sec;
    columns = block_row e.columns;
  }

  unfoldable pub parsed_of : Block C → BlockAggregate F C → ParsedBlock (Row F C)
  unfolding or_empty
  parsed_of block a = record {
    height = block.height;
    block_hash = block.hash;
    previousblockhash = or_empty block.previousblockhash;
    block_time = block.time;
    block_event = as_row a.block_event;
    transactions = map tx_row a.tx_events;
    inputs = map input_row a.input_events;
    outputs = map output_row a.output_events;
  }

-- The answers of the node as they come: blocks that are still to be parsed.
pub record RawNode (C : Type 0) : Type 0 where
  pub block_count : ℕ → Result ℕ
  pub block_hash : ℕ → ℕ → Result String
  pub header_time : ℕ → String → Result ℕ
  pub block : ℕ → String → Result (Block C)
  pub worker_hash : ℕ → Result String
  pub worker_block : String → Result (Block C)
  pub stopping : ℕ → Bool

module _ {F C : Type 0} ⦃fl : Floats F⦄ (config : ParserConfig) (matcher : Option PoolMatcher) where
  -- `build_parsed_block`
  unfoldable pub build_parsed_block : Block C → ParsedBlock (Row F C)
  unfolding aggregate_block parsed_of
  build_parsed_block block = parsed_of block (aggregate_block config matcher block)

  -- `parse_block`, over the answer of `get_block`.
  unfoldable pub parse_block : Result (Block C) → Result (ParsedBlock (Row F C))
  unfolding build_parsed_block
  parse_block (raised e) = raised e
  parse_block (returned block) = returned (build_parsed_block block)

  -- The node as the ingest loop uses it.
  unfoldable pub parsing : RawNode C → Node (Row F C)
  unfolding parse_block
  parsing raw = record {
    block_count = raw.block_count;
    block_hash = raw.block_hash;
    header_time = raw.header_time;
    parse_block = λ t h. parse_block (raw.block t h);
    worker_hash = raw.worker_hash;
    worker_parse = λ h. parse_block (raw.worker_block h);
    stopping = raw.stopping;
  }

  parse-hash :
      (r : Result (Block C)) (p : ParsedBlock (Row F C))
      → parse_block r ≡ returned p
      → p.block_event.hash ≡ p.block_hash
  unfolding parse_block build_parsed_block parsed_of aggregate_block
  parse-hash (raised e) p q = absurd (ground arith)
  parse-hash (returned b) p q =
      subst (λ c. c.block_event.hash ≡ c.block_hash) (same (build_parsed_block b) p q) refl
    where
      same : (c p : ParsedBlock (Row F C)) → returned c ≡ returned p → c ≡ p
      same c p e = cc

  pub parsing-IsHonest : (raw : RawNode C) → IsHonest (parsing raw)
  unfolding parsing
  parsing-IsHonest raw = record {
    parsed = λ t h p e. parse-hash (raw.block t h) p e;
    worker_parsed = λ h p e. parse-hash (raw.worker_block h) p e;
  }
