-- ===== src/Tests/Watch.antt =====
-- Runs of the catch-up, the stale blocks, the message counters and the mempool watch (under
-- btc_parser_app/rpc) on small inputs.
use bitcoin_data_exporter.Common.{
  ℕ, ◌+◌, ◌*◌, ◌≤◌, ◌≡◌, refl, inl, true, false, ◌||◌, none, some, List, [], ◌∷◌, arith,
  if◌then◌else◌, ◌==◌, nat_eq, string_eq, length, All, filter,
}
use bitcoin_data_exporter.Common.Dict
use bitcoin_data_exporter.Common.Dict.{Dict, dict_laws}
use bitcoin_data_exporter.Common.{Result, returned, raised, rpc_cli_error}
use bitcoin_data_exporter.Catchup.{prefetch_per_worker, iter_parsed_blocks, take_blocks}
use bitcoin_data_exporter.Catchup.Order.{
  sequential, iter_parsed_blocks-sequential, advance, iter_parsed_blocks-bound,
}
use bitcoin_data_exporter.StaleBlocks.{header_only, or_none}
use bitcoin_data_exporter.StaleBlocks.{
  HeaderCodec, Tip, HeaderRow, Ledger, run_node_poll, run_github_pull,
}
use bitcoin_data_exporter.StaleBlocks.Reported.{AllReported}
use bitcoin_data_exporter.StaleBlocks.Sightings.{Tracks}
use bitcoin_data_exporter.StaleBlocks.Tracked.{status_of, is_open, is_proven, polls-Tracks}
use bitcoin_data_exporter.ZmqSequence.{Message, Subscriber, SequenceEvent, take_gap, drain_queue}
use bitcoin_data_exporter.ZmqSequence.Gaps.{AreBytes, has_gap, counters, take_gap-receive_batch}
use bitcoin_data_exporter.ReorgState.Index.{Hash}
use bitcoin_data_exporter.MempoolWatch.Reconcile.{reconcile-AllAt}
use bitcoin_data_exporter.MempoolWatch.{
  Txid, reconcile, Watcher, Answers, Fetched, Event, added, left, connected, disconnected,
}
use bitcoin_data_exporter.MempoolWatch.LifeCycle.{AllAt, follow}

-- Height 3 fails.
abbrev fetch_some : ℕ → Result ℕ
fetch_some n = if n == 3 then raised rpc_cli_error else returned (n + 100)

abbrev five_heights : List ℕ
five_heights = 1 ∷ 2 ∷ 3 ∷ 4 ∷ 5 ∷ []

iter_parsed_blocks-sequential_example :
    take_blocks fetch_some 5 (iter_parsed_blocks fetch_some five_heights 2)
    ≡ sequential fetch_some five_heights
iter_parsed_blocks-sequential_example =
    iter_parsed_blocks-sequential fetch_some five_heights 2 5 (omega arith)

iter_parsed_blocks-bound_example :
    length (advance fetch_some 2 (iter_parsed_blocks fetch_some five_heights 1)).pending
    ≤ prefetch_per_worker * 1
iter_parsed_blocks-bound_example =
    iter_parsed_blocks-bound fetch_some 2 five_heights 1 (omega arith)

-- A header of one letter, which is its hash.
instance codec : HeaderCodec
codec = record { header_hash = λ t. some t; lower = λ h. h }

abbrev no_ledger : Ledger
no_ledger = record { registry = record { file = []; entries = []; dirty = false }; exported = [] }

no_ledger-AllReported : AllReported no_ledger
unfolding Dict.get
no_ledger-AllReported = λ h. refl

abbrev some_tips : List Tip
some_tips =
    record {
      hash = "a";
      height = 7;
      status = "headers-only";
      branchlen = some 1;
      header = raised rpc_cli_error;
    }
    ∷ []

abbrev some_headers : List HeaderRow
some_headers = record { height = 7; blockhash = "a"; header_hex = "a" } ∷ []

polls-Tracks_example :
    let l =
      (run_github_pull "t"
        (returned some_headers)
        (run_node_poll "t" (returned some_tips) no_ledger).1).1 in
    AllReported l
    × All
        (λ t. Tracks l t.hash (status_of "t" (or_none t.header) t.hash))
        (filter is_open some_tips)
    × All (λ r. Tracks l r.blockhash header_only) (filter (is_proven "t") some_headers)
polls-Tracks_example =
    polls-Tracks "t" (returned some_tips) (returned some_headers) no_ledger no_ledger-AllReported

abbrev counted : ℕ → Message
counted n = record { on_topic = true; body = some []; counter = some (n ∷ 0 ∷ 0 ∷ 0 ∷ []) }

-- The last counter of 32 bits.
abbrev full : Message
full = record { on_topic = true; body = some []; counter = some (255 ∷ 255 ∷ 255 ∷ 255 ∷ []) }

abbrev some_messages : List Message
some_messages = full ∷ counted 0 ∷ counted 1 ∷ counted 3 ∷ []

some_messages_bytes : All (λ m. AreBytes m.counter) some_messages
some_messages_bytes = (
  (omega arith, (omega arith, (omega arith, (omega arith, tt)))),
  (
    (omega arith, (omega arith, (omega arith, (omega arith, tt)))),
    (
      (omega arith, (omega arith, (omega arith, (omega arith, tt)))),
      ((omega arith, (omega arith, (omega arith, (omega arith, tt)))), tt),
    ),
  ),
)

abbrev subscriber : Subscriber
subscriber = record { last_counter = none; gap_detected = false }

abbrev no_events : List SequenceEvent
no_events = []

-- No counter is left out where they start again at 0.
wraps_test :
    (take_gap (drain_queue 10 (full ∷ counted 0 ∷ []) (no_events, subscriber)).0.1).0 ≡ false
unfolding take_gap drain_queue nat_eq
wraps_test = refl

take_gap-receive_batch_example :
    let ((events, t), rest) = drain_queue 10 some_messages (no_events, subscriber) in
    (rest ≡ [])
    × ((take_gap t).0 ≡ (has_gap none (counters some_messages) || false))
    × ((take_gap t).1.gap_detected ≡ false)
take_gap-receive_batch_example =
    take_gap-receive_batch some_messages no_events subscriber 10 some_messages_bytes tt
      (omega arith)

abbrev fetched : Fetched ℕ
fetched = record { details = 0; inputs = []; matched = true }

abbrev answers : Answers ℕ
answers = record {
  spender = λ t inputs. none;
  confirmations = λ h. none;
  block_txids = λ h. (5, "t" ∷ []);
  fetch = λ t h. some fetched;
}

abbrev watcher : Watcher ℕ
watcher = record { store = []; checked = []; unfetched = []; tip_height = 4; exported = [] }

watcher-AllAt : AllAt watcher
unfolding Dict.get follow
watcher-AllAt = λ k. inl refl

abbrev some_events : List (Answers ℕ × Event ℕ)
some_events =
    (answers, added "t" (some (some fetched)))
    ∷ (answers, connected "b")
    ∷ (answers, disconnected "b")
    ∷ (answers, left "t")
    ∷ []

abbrev block_at : ℕ → Hash × List Txid
block_at n = ("b", "t" ∷ [])

reconcile-AllAt_example : AllAt (reconcile answers block_at 10 6 ("u" ∷ []) 5 none watcher)
reconcile-AllAt_example =
    reconcile-AllAt answers block_at 10 ("u" ∷ []) 6 5 none watcher watcher-AllAt
