-- ===== src/Tests/Passes.antt =====
-- Runs of the code of rpc/ingest.py (under btc_parser_app) on a small chain.
use bitcoin_data_exporter.Common.{
  ℕ, zero, suc, ◌≡◌, refl, inl, Bool, false, ◌||◌, none, some, [], ◌∷◌, arith, ◌==◌, nat_eq,
  string_eq, pair_eq,
}
use bitcoin_data_exporter.Common.Dict
use bitcoin_data_exporter.Common.Dict.{Dict, dict_laws}
use bitcoin_data_exporter.Common.{subst, returned}
use bitcoin_data_exporter.CsvWriter.{Csv, File}
use bitcoin_data_exporter.PartWriter.{PartSequencer, initial_state}
use bitcoin_data_exporter.PartWriter.Log.{IsSound}
use bitcoin_data_exporter.ReorgState.Index.{Hash, IndexSize, new_row}
use bitcoin_data_exporter.Catchup.{BlockEvent, ParsedBlock}
use bitcoin_data_exporter.Ingest.{
  Node, RpcConfig, Daemon, Buffers, no_buffers, process_height, process_prefetched,
}
use bitcoin_data_exporter.Ingest.Prefetched.{Matches, asked_twice, process_height-prefetched}
use bitcoin_data_exporter.Ingest.Reorg.{recover_from_reorg}
use bitcoin_data_exporter.ReorgState.Status
use bitcoin_data_exporter.ReorgState.Status.Durable.{IsSynced}
use bitcoin_data_exporter.Ingest.Reorg.Ancestor.{Recovers, recover_from_reorg-Recovers}
use bitcoin_data_exporter.Ingest.Cover.{IsCovered}
use bitcoin_data_exporter.Ingest.Exports.Blocks.{IsHonest}
use bitcoin_data_exporter.Ingest.Exports.{CoversPass, cycle-IsCovered}
use bitcoin_data_exporter.Ingest.Pass.{cycle}

instance csv_row : Csv ℕ
csv_row = record { header_bytes = 6; row_bytes = λ _. 3; header_pos = omega arith }

instance csv_block : Csv (BlockEvent ℕ)
csv_block = record { header_bytes = 6; row_bytes = λ _. 3; header_pos = omega arith }

instance pub index_size : IndexSize
index_size = record { bytes = λ _. 0 }

abbrev block_event : Hash → BlockEvent ℕ
block_event h = record {
  height = 1;
  hash = h;
  previousblockhash = some "g";
  time_since_prev_block_sec = none;
  columns = 0;
}

abbrev a_block : Hash → ParsedBlock ℕ
a_block h = record {
  height = 1;
  block_hash = h;
  previousblockhash = "g";
  block_time = 20;
  block_event = block_event h;
  transactions = 1 ∷ [];
  inputs = [];
  outputs = [];
}

-- The chain g, b, b, ...
abbrev pub hash_at : ℕ → Hash
hash_at zero = "g"
hash_at (suc n) = "b"

abbrev node : Node ℕ
node = record {
  block_count = λ t. returned 1;
  block_hash = λ t n. returned (hash_at n);
  header_time = λ t h. returned 20;
  parse_block = λ t h. returned (a_block h);
  worker_hash = λ n. returned (hash_at n);
  worker_parse = λ h. returned (a_block h);
  stopping = λ n. false;
}

parsed_hash :
    (h : Hash) (p : ParsedBlock ℕ)
    → returned (a_block h) ≡ returned p
    → p.block_event.hash ≡ p.block_hash
parsed_hash h p e = subst (λ q. q.block_event.hash ≡ q.block_hash) (same (a_block h) p e) refl
  where
    same : (q p : ParsedBlock ℕ) → returned q ≡ returned p → q ≡ p
    same q p e = cc

node-IsHonest : IsHonest node
node-IsHonest = record { parsed = λ t h p e. parsed_hash h p e; worker_parsed = parsed_hash }

abbrev pub config : RpcConfig
config = record {
  reorg_confirmations = 0;
  max_reorg_depth = 6;
  batch_size = 10;
  catchup_workers = 1;
}

abbrev pub fresh : {A : Type 0} → PartSequencer A
fresh = record {
  current_part = 0;
  part_is_open = false;
  max_part_bytes = 100;
  disk = record { state = []; export = []; seq = none };
  passed = [];
}

-- Block c has been exported on top of g; the chain now has b there.
abbrev pub daemon : {R : Type 0} → Daemon R
daemon = record {
  clock = 0;
  index = record {
    parts = [];
    by_hash = ("g", new_row 0 "g" "" 2) ∷ ("c", new_row 1 "c" "g" 2) ∷ [];
    pending = [];
    current_part = 1;
    all_current = false;
  };
  block_status = record { file = []; entries = []; dirty = false };
  current = some (record { height = 1; blockhash = some "c" });
  latest = none;
  reorg_logs = [];
  blocks = fresh;
  transactions = fresh;
  inputs = fresh;
  outputs = fresh;
}

daemon-IsSynced : IsSynced (daemon {R = ℕ}).block_status
unfolding Status.load_rows
daemon-IsSynced = record { nodup = tt; clean = λ _ k. refl }

recover_from_reorg-Recovers_example :
    Recovers node 6 (1, "c") daemon (recover_from_reorg node config 1 "c" daemon)
recover_from_reorg-Recovers_example =
    recover_from_reorg-Recovers node config 1 "c" daemon daemon-IsSynced

none_at : {A : Type 0} (n : ℕ) (f : File A) → Dict.get n [] ≡ some f → ⊥
none_at {A = A} n f e = absurd (ground (arith, e, Dict.get-nil {V = File A} n))

fresh-IsSound : (A : Type 0) ⦃c : Csv A⦄ → IsSound (fresh {A = A})
unfolding initial_state Dict.get
fresh-IsSound A = record {
  numbered = record {
    exported_below = λ n f e. absurd (none_at n f e);
    open_absent = λ o. refl;
    open_pos = λ o. absurd (ground arith);
  };
  tidy = record {
    state_closed = λ o n. refl;
    state_open = λ n ne. refl;
    state_headed = λ n f e. absurd (none_at n f e);
    export_headed = λ n f e. absurd (none_at n f e);
  };
  resumes = refl;
}

-- Both blocks were exported before, in parts that are gone.
abbrev pub was_exported : Hash → Bool
was_exported h = h == "g" || h == "c"

pub daemon-IsCovered :
    (R : Type 0) ⦃c : Csv (BlockEvent R)⦄
    → let d = daemon {R = R} in IsCovered was_exported d.index d.blocks []
unfolding Dict.get
daemon-IsCovered R = record {
  sound = fresh-IsSound (BlockEvent R);
  unique = tt;
  durable = λ h r g cur. inl (ground arith);
  staged = λ h r g cur. absurd (ground arith);
}

cycle-IsCovered_example : CoversPass was_exported (cycle node config daemon)
cycle-IsCovered_example =
    cycle-IsCovered was_exported node node-IsHonest config daemon (daemon-IsCovered ℕ)

no_rows : Buffers ℕ
unfolding no_buffers
no_rows = no_buffers

node-Matches : Matches node 0 (a_block "b")
node-Matches = record { hash = refl; time = refl; block = refl }

process_height-prefetched_example : process_height node 1 (some 10) (no_rows, daemon) ≡ (
    let r = process_prefetched (a_block "b") (some 10) (no_rows, asked_twice daemon) in
    (returned r.0, r.1))
process_height-prefetched_example =
    process_height-prefetched node (a_block "b") (some 10) no_rows daemon node-Matches
