-- ===== src/ZmqSequence.antt =====
-- rpc/zmq_sequence.py (under btc_parser_app): the messages of the node's `sequence` topic. Bytes are
-- numbers below 256.
pub mod Gaps
use bitcoin_data_exporter.Common.{
  ℕ, zero, suc, ◌+◌, ◌-◌, ◌*◌, ◌≤◌, ◌<◌, min, max, String, ◌≡◌, refl, sym, ap, ◌∙◌, ◌≢◌, ◌⊎◌, inl,
  inr, Bool, true, false, not, ◌&&◌, ◌||◌, Option, none, some, List, [], ◌∷◌, ◌++◌, map, append-nil,
  append_assoc, arith, ltb, leb, if◌then◌else◌, Bool-cases, Option-cases, is_some, or_else, Eq,
  ◌==◌, nat_eq, string_eq, contains, length, is_empty, length-append, filter, All, All-append,
  max_or,
}
use bitcoin_data_exporter.Common.Dict
use bitcoin_data_exporter.Common.Dict.{Dict, dict_laws}
use bitcoin_data_exporter.Common.{◌%◌, ◌^◌}

abbrev pub Bytes : Type 0
Bytes = List ℕ

-- `hash_hex` stands for the 32 bytes that it is the hex of.
pub record SequenceEvent : Type 0 where
  pub label : ℕ
  pub hash : Bytes
  pub mempool_sequence : Option ℕ

abbrev pub label_added : ℕ
label_added = 65

abbrev pub label_removed : ℕ
label_removed = 82

-- `body[:n]`, `body[n:]`
unfoldable pub take_bytes : ℕ → Bytes → Bytes
take_bytes zero bs = []
take_bytes (suc n) [] = []
take_bytes (suc n) (b ∷ bs) = b ∷ take_bytes n bs

unfoldable pub drop_bytes : ℕ → Bytes → Bytes
drop_bytes zero bs = bs
drop_bytes (suc n) [] = []
drop_bytes (suc n) (b ∷ bs) = drop_bytes n bs

-- `int.from_bytes(bs, "little")`
unfoldable pub from_little : Bytes → ℕ
from_little [] = 0
from_little (b ∷ bs) = b + 256 * from_little bs

unfoldable pub parse_tail : Bytes → Bytes → Option SequenceEvent
unfolding from_little take_bytes drop_bytes
parse_tail body [] = none
parse_tail body (label ∷ rest) = some (record {
  label = label;
  hash = take_bytes 32 body;
  mempool_sequence =
      if (label == label_added || label == label_removed) && leb 41 (length body)
      then some (from_little (take_bytes 8 rest))
      else none;
})

-- `parse_sequence_body`; none where it raises ValueError.
unfoldable pub parse_sequence_body : Bytes → Option SequenceEvent
unfolding parse_tail drop_bytes
parse_sequence_body body =
    if ltb (length body) 33 then none else parse_tail body (drop_bytes 32 body)

pub record Subscriber : Type 0 where
  pub last_counter : Option ℕ
  pub gap_detected : Bool

unfoldable pub jumps : Option ℕ → ℕ → Bool
jumps none counter = false
jumps (some last) counter = not (counter == (last + 1) % 2 ^ 32)

unfoldable pub count : ℕ → Subscriber → Subscriber
unfolding jumps
count counter s = record {
  last_counter = some counter;
  gap_detected = jumps s.last_counter counter || s.gap_detected;
}

-- `_check_counter`
unfoldable pub check_counter : Option Bytes → Subscriber → Subscriber
unfolding count from_little
check_counter none s = s
check_counter (some raw) s = if length raw == 4 then count (from_little raw) s else s

-- `take_gap`
unfoldable pub take_gap : Subscriber → Bool × Subscriber
take_gap s = (s.gap_detected, record s { gap_detected = false })

-- The frames of a message: whether the topic is the right one, the body, and the counter frame.
pub record Message : Type 0 where
  pub on_topic : Bool
  pub body : Option Bytes
  pub counter : Option Bytes

unfoldable pub add_event : Option SequenceEvent → List SequenceEvent → List SequenceEvent
add_event none events = events
add_event (some e) events = events ++ e ∷ []

unfoldable pub receive :
    Bool
    → Option Bytes
    → Option Bytes
    → List SequenceEvent × Subscriber
    → List SequenceEvent × Subscriber
unfolding check_counter add_event parse_sequence_body
receive false body counter (events, s) = (events, s)
receive true none counter (events, s) = (events, s)
receive true (some body) counter (events, s) =
    (add_event (parse_sequence_body body) events, check_counter counter s)

-- The `while` loop of `receive_batch` over the messages that are queued, and the messages left.
unfoldable pub drain_queue :
    ℕ
    → List Message
    → List SequenceEvent × Subscriber
    → (List SequenceEvent × Subscriber) × List Message
unfolding receive
drain_queue max_events [] es = (es, [])
drain_queue max_events (m ∷ ms) es =
    let rest = drain_queue max_events ms (receive m.on_topic m.body m.counter es) in
    if ltb (length es.0) max_events then rest else (es, m ∷ ms)

-- `receive_batch`, where the poll finds a message.
unfoldable pub receive_batch :
    ℕ → List Message → Subscriber → (List SequenceEvent × Subscriber) × List Message
unfolding drain_queue
receive_batch max_events queue s = drain_queue max_events queue ([], s)
