-- ===== src/Ingest.antt =====
-- rpc/ingest.py (under btc_parser_app): the loop that follows the node. This file has the state, the
-- calls of the node, and the steps for one block.
pub mod Reorg
pub mod Pass
pub mod Exports
pub mod Cover
pub mod Prefetched
use bitcoin_data_exporter.Common.{
  ℕ, zero, suc, ◌+◌, ◌-◌, ◌*◌, ◌≤◌, ◌<◌, min, max, String, ◌≡◌, refl, sym, ap, ◌∙◌, ◌≢◌, ◌⊎◌, inl,
  inr, Bool, true, false, not, ◌&&◌, ◌||◌, Option, none, some, List, [], ◌∷◌, ◌++◌, map, append-nil,
  append_assoc, arith, ltb, leb, if◌then◌else◌, Bool-cases, Option-cases, is_some, or_else, Eq,
  ◌==◌, nat_eq, string_eq, contains, length, is_empty, length-append, filter, All, All-append,
  max_or,
}
use bitcoin_data_exporter.Common.Dict
use bitcoin_data_exporter.Common.Dict.{Dict, dict_laws}
use bitcoin_data_exporter.Common.{ℤ, difference, Result, returned, raised, Failure, rpc_cli_error}
use bitcoin_data_exporter.CsvWriter.{Csv}
use bitcoin_data_exporter.PartWriter.{PartSequencer, write_batched, write_atomic}
use bitcoin_data_exporter.ReorgState.Index.{
  Hash, IndexSize, IndexStore, current_index_schema_version, needs_export, add,
}
use bitcoin_data_exporter.ReorgState.Status.{BlockStatusStore, set_canonical_if_present}
use bitcoin_data_exporter.Catchup.{BlockEvent, ParsedBlock}

-- The node behind the RPC calls. A call's answer may depend on when it is made: the first argument
-- counts the calls before it. `stopping` is the stop event at the time a height is taken up.
pub record Node (R : Type 0) : Type 0 where
  pub block_count : ℕ → Result ℕ
  pub block_hash : ℕ → ℕ → Result Hash
  pub header_time : ℕ → Hash → Result ℕ
  pub parse_block : ℕ → Hash → Result (ParsedBlock R)
  pub worker_hash : ℕ → Result Hash
  pub worker_parse : Hash → Result (ParsedBlock R)
  pub stopping : ℕ → Bool

-- `config.rpc`
pub record RpcConfig : Type 0 where
  pub reorg_confirmations : ℕ
  pub max_reorg_depth : ℕ
  pub batch_size : ℕ
  pub catchup_workers : ℕ

-- The one row of current.csv or latest.csv. A hash that is None is an empty field.
pub record Pointer : Type 0 where
  pub height : ℕ
  pub blockhash : Option Hash

-- `read_pointer` takes the field through `str`.
unfoldable pub read_hash : Option Hash → Hash
read_hash none = "None"
read_hash (some h) = h

unfoldable pub read_pointer : Option Pointer → Option (ℕ × Hash)
unfolding read_hash
read_pointer none = none
read_pointer (some p) = some (p.height, read_hash p.blockhash)

pub data Action : Type 0 where
  detached : Action
  attached : Action

-- A row of an audit log under reorg/.
pub record LogRow : Type 0 where
  pub action : Action
  pub height : ℕ
  pub blockhash : Hash

-- `batch_buffers`. A frame is the list of its rows; a block without rows adds none.
pub record Buffers (R : Type 0) : Type 0 where
  pub blocks : List (BlockEvent R)
  pub transactions : List (List R)
  pub inputs : List (List R)
  pub outputs : List (List R)

-- What the process holds between two calls: its stores and sequencers, the pointer files, the audit
-- logs, and the number of RPC calls made.
pub record Daemon (R : Type 0) : Type 0 where
  pub clock : ℕ
  pub index : IndexStore
  pub block_status : BlockStatusStore
  pub current : Option Pointer
  pub latest : Option Pointer
  pub reorg_logs : List (List LogRow)
  pub blocks : PartSequencer (BlockEvent R)
  pub transactions : PartSequencer R
  pub inputs : PartSequencer R
  pub outputs : PartSequencer R

unfoldable pub since : ℕ → Option ℕ → Option ℤ
since block_time none = none
since block_time (some prev_time) = some (difference block_time prev_time)

-- The outcome of a block: its hash and its time.
abbrev pub Outcome : Type 0 → Type 0
Outcome R = Result (Hash × ℕ) × (Buffers R × Daemon R)

unfoldable pub write : {A : Type 0} ⦃ca : Csv A⦄ → Bool → List A → PartSequencer A → PartSequencer A
write atomic rows s = if atomic then write_atomic rows s else write_batched rows s

module _ {R : Type 0} where
  -- One RPC call.
  unfoldable pub ask : {A : Type 0} → (ℕ → Result A) → Daemon R → Result A × Daemon R
  ask call d = (call d.clock, record d { clock = suc d.clock })

  -- What follows a call that may raise.
  unfoldable pub and_then :
      {A B : Type 0}
      → Result A × Daemon R
      → (A → Daemon R → Result B × Daemon R)
      → Result B × Daemon R
  and_then (raised e, d) rest = (raised e, d)
  and_then (returned a, d) rest = rest a d

  unfoldable pub no_buffers : Buffers R
  no_buffers = record { blocks = []; transactions = []; inputs = []; outputs = [] }

  -- `if frame.height: ...append(frame)`
  unfoldable pub add_frame : List R → List (List R) → List (List R)
  add_frame [] frames = frames
  add_frame (r ∷ rows) frames = frames ++ (r ∷ rows) ∷ []

  unfoldable pub timed_event : ParsedBlock R → Option ℕ → BlockEvent R
  unfolding since
  timed_event parsed prev_time = record parsed.block_event {
    time_since_prev_block_sec = since parsed.block_time prev_time;
  }

  unfoldable pub buffer_rows : ParsedBlock R → Option ℕ → Buffers R → Buffers R
  unfolding timed_event add_frame
  buffer_rows parsed prev_time b = record {
    blocks = b.blocks ++ timed_event parsed prev_time ∷ [];
    transactions = add_frame parsed.transactions b.transactions;
    inputs = add_frame parsed.inputs b.inputs;
    outputs = add_frame parsed.outputs b.outputs;
  }

  -- `_buffer_export`
  unfoldable pub buffer_export :
      ParsedBlock R → Option ℕ → Buffers R × Daemon R → Buffers R × Daemon R
  unfolding buffer_rows
  buffer_export parsed prev_time (b, d) = (
    buffer_rows parsed prev_time b,
    record d {
      index =
          add parsed.height parsed.block_hash parsed.previousblockhash current_index_schema_version
            d.index;
    },
  )

  unfoldable pub confirm : ℕ → Hash → Daemon R → Daemon R
  confirm height h d = record d {
    block_status = set_canonical_if_present height h true d.block_status;
  }

  unfoldable pub finish_parsed :
      ℕ → Hash → Option ℕ → Buffers R → Result (ParsedBlock R) × Daemon R → Outcome R
  unfolding buffer_export confirm
  finish_parsed height h prev_time b (raised e, d) = (raised e, (b, d))
  finish_parsed height h prev_time b (returned parsed, d) =
      let (b', d') = buffer_export parsed prev_time (b, d) in
      (returned (h, parsed.block_time), (b', confirm height h d'))

  unfoldable pub finish_indexed : ℕ → Hash → Buffers R → Result ℕ × Daemon R → Outcome R
  unfolding confirm
  finish_indexed height h b (raised e, d) = (raised e, (b, d))
  finish_indexed height h b (returned time, d) = (returned (h, time), (b, confirm height h d))

  module _ (node : Node R) where
    unfoldable pub process_hash : ℕ → Option ℕ → Buffers R → Result Hash × Daemon R → Outcome R
    unfolding ask finish_parsed finish_indexed
    process_hash height prev_time b (raised e, d) = (raised e, (b, d))
    process_hash height prev_time b (returned h, d) =
        if not (needs_export h d.index)
        then finish_indexed height h b (ask (λ t. node.header_time t h) d)
        else finish_parsed height h prev_time b (ask (λ t. node.parse_block t h) d)

    -- `_process_height`
    unfoldable pub process_height : ℕ → Option ℕ → Buffers R × Daemon R → Outcome R
    unfolding process_hash ask
    process_height height prev_time (b, d) =
        process_hash height prev_time b (ask (λ t. node.block_hash t height) d)

  -- `_process_prefetched`
  unfoldable pub process_prefetched :
      ParsedBlock R → Option ℕ → Buffers R × Daemon R → (Hash × ℕ) × (Buffers R × Daemon R)
  unfolding buffer_export confirm
  process_prefetched parsed prev_time (b, d) =
      let (b', d') =
        if needs_export parsed.block_hash d.index
        then buffer_export parsed prev_time (b, d)
        else (b, d) in
      ((parsed.block_hash, parsed.block_time), (b', confirm parsed.height parsed.block_hash d'))

  unfoldable pub concat_frames : List (List R) → List R
  concat_frames [] = []
  concat_frames (f ∷ fs) = f ++ concat_frames fs

  module _ ⦃c : Csv R⦄ ⦃ce : Csv (BlockEvent R)⦄ where
    -- `_drain`; the buffers are empty after it.
    unfoldable pub drain : Bool → Buffers R → Daemon R → Daemon R
    unfolding write concat_frames
    drain atomic b d = record d {
      blocks = write atomic b.blocks d.blocks;
      transactions = write atomic (concat_frames b.transactions) d.transactions;
      inputs = write atomic (concat_frames b.inputs) d.inputs;
      outputs = write atomic (concat_frames b.outputs) d.outputs;
    }
