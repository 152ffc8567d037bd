-- ===== src/ZmqSequence/Gaps.antt =====
-- The counter check against the sequence of counters.
use bitcoin_data_exporter.Common.{
  ℕ, ◌+◌, ◌≤◌, ◌<◌, ◌≡◌, refl, sym, ap, ◌∙◌, inl, inr, Bool, true, false, not, ◌||◌, Option, none,
  some, List, [], ◌∷◌, ◌++◌, arith, lt→ltb, if◌then◌else◌, Bool-cases, ◌==◌, nat_eq, string_eq,
  length, length-append, All,
}
use bitcoin_data_exporter.Common.{◌%◌}
use bitcoin_data_exporter.ZmqSequence.{
  Bytes, from_little, Subscriber, jumps, count, check_counter, take_gap, Message, SequenceEvent,
  receive, add_event, parse_sequence_body, drain_queue,
}

-- The counters that a list of messages carries: of those on the topic, with a body and four bytes.
abbrev pub carried : Bool → Option Bytes → Option Bytes → List ℕ
carried false body counter = []
carried true none counter = []
carried true (some body) none = []
carried true (some body) (some raw) = if length raw == 4 then from_little raw ∷ [] else []

abbrev pub counters : List Message → List ℕ
counters [] = []
counters (m ∷ ms) = carried m.on_topic m.body m.counter ++ counters ms

-- The counter after a counter; after the last number of 32 bits it starts at 0 again.
abbrev pub next_counter : ℕ → ℕ
next_counter n = if n == 4294967295 then 0 else n + 1

-- Some counter is not the one after the counter before it.
abbrev pub has_gap : Option ℕ → List ℕ → Bool
has_gap last [] = false
has_gap none (c ∷ cs) = has_gap (some c) cs
has_gap (some last) (c ∷ cs) = not (c == next_counter last) || has_gap (some c) cs

abbrev pub last_of : Option ℕ → List ℕ → Option ℕ
last_of last [] = last
last_of last (c ∷ cs) = last_of (some c) cs

-- Taking up a list of counters.
abbrev pub Took : Subscriber → List ℕ → Subscriber → Type 0
Took s cs t =
    (t.last_counter ≡ last_of s.last_counter cs)
    × (t.gap_detected ≡ (has_gap s.last_counter cs || s.gap_detected))

Took-then : (cs ds : List ℕ) (s t u : Subscriber) → Took s cs t → Took t ds u → Took s (cs ++ ds) u
Took-then cs ds s t u (a, b) (c, d) = (
  c ∙ ap (λ l. last_of l ds) a ∙ sym (last_append cs ds s.last_counter),
  d
      ∙ ap (λ l. has_gap l ds || t.gap_detected) a
      ∙ ap (λ g. has_gap (last_of s.last_counter cs) ds || g) b
      ∙ gap_append cs ds s.last_counter s.gap_detected,
)
  where
    last_append : (cs ds : List ℕ) (l : Option ℕ) → last_of l (cs ++ ds) ≡ last_of (last_of l cs) ds
    last_append [] ds l = refl
    last_append (c ∷ cs) ds l = last_append cs ds (some c)

    gap_append :
        (cs ds : List ℕ) (l : Option ℕ) (g : Bool)
        → (has_gap (last_of l cs) ds || (has_gap l cs || g)) ≡ (has_gap l (cs ++ ds) || g)
    gap_append [] ds l g = refl
    gap_append (c ∷ cs) ds none g = gap_append cs ds (some c) g
    gap_append (c ∷ cs) ds (some l) g = ground (arith, gap_append cs ds (some c) g)

-- A frame of bytes, and a counter of 32 bits.
abbrev pub AreBytes : Option Bytes → Type 0
AreBytes none = Unit
AreBytes (some bs) = All (λ b. b < 256) bs

abbrev pub InRange : Option ℕ → Type 0
InRange none = Unit
InRange (some n) = n < 4294967296

from_little-InRange :
    (bs : Bytes) → length bs ≡ 4 → AreBytes (some bs) → InRange (some (from_little bs))
unfolding from_little
from_little-InRange [] h all = omega (arith, h)
from_little-InRange (a ∷ []) h all = absurd (omega (arith, h))
from_little-InRange (a ∷ b ∷ []) h all = absurd (omega (arith, h))
from_little-InRange (a ∷ b ∷ c ∷ []) h all = absurd (omega (arith, h))
from_little-InRange (a ∷ b ∷ c ∷ d ∷ []) h all =
    omega (arith, all.0, all.1.0, all.1.1.0, all.1.1.1.0)
from_little-InRange (a ∷ b ∷ c ∷ d ∷ e ∷ bs) h all = absurd (omega (arith, h))

jumps_lem :
    (last : Option ℕ) (c : ℕ) (g : Bool)
    → InRange last
    → (jumps last c || g) ≡ (has_gap last (c ∷ []) || g)
unfolding jumps
jumps_lem none c g h = refl
jumps_lem (some last) c g h = ground (arith, wrapped last h)
  where
    wrapped : (n : ℕ) → n < 4294967296 → (n + 1) % 4294967296 ≡ next_counter n
    wrapped n h = ground (arith, h)

receive-Took :
    (topic : Bool) (body counter : Option Bytes) (es : List SequenceEvent) (s : Subscriber)
    → AreBytes counter
    → InRange s.last_counter
    → let t = (receive topic body counter (es, s)).1 in
      Took s (carried topic body counter) t × InRange t.last_counter
unfolding receive check_counter count
receive-Took false body counter es s b r = ((refl, refl), r)
receive-Took true none counter es s b r = ((refl, refl), r)
receive-Took true (some body) none es s b r = ((refl, refl), r)
receive-Took true (some body) (some raw) es s b r = elim (Bool-cases (length raw == 4)) [
  | inl e ↦ simp e (
    (refl, jumps_lem s.last_counter (from_little raw) s.gap_detected r),
    from_little-InRange raw (ground (arith, e)) b,
  )
  | inr e ↦ simp e ((refl, refl), r)
]

add_event-length :
    (o : Option SequenceEvent) (es : List SequenceEvent) → length (add_event o es) ≤ length es + 1
unfolding add_event
add_event-length none es = omega arith
add_event-length (some e) es = omega (arith, length-append es (e ∷ []))

receive-length :
    (topic : Bool) (body counter : Option Bytes) (es : List SequenceEvent) (s : Subscriber)
    → length (receive topic body counter (es, s)).0 ≤ length es + 1
unfolding receive
receive-length false body counter es s = omega arith
receive-length true none counter es s = omega arith
receive-length true (some body) counter es s = add_event-length (parse_sequence_body body) es

drain-Took :
    (max_events : ℕ) (ms : List Message) (es : List SequenceEvent × Subscriber)
    → All (λ m. AreBytes m.counter) ms
    → InRange es.1.last_counter
    → length es.0 + length ms ≤ max_events
    → let (bs, left) = drain_queue max_events ms es in (left ≡ []) × Took es.1 (counters ms) bs.1
unfolding drain_queue
drain-Took max_events [] es b r l = (refl, (refl, refl))
drain-Took max_events (m ∷ ms) (es, s) (b, bs) r l =
    let es' = receive m.on_topic m.body m.counter (es, s) in
    let (first, range) = receive-Took m.on_topic m.body m.counter es s b r in
    let (done, took) =
      drain-Took max_events ms es' bs range
        (omega (arith, l, receive-length m.on_topic m.body m.counter es s)) in
    rw (lt→ltb (length es) max_events (omega (arith, l))) (
      done,
      Took-then (carried m.on_topic m.body m.counter) (counters ms) s es'.1
          (drain_queue max_events ms es').0.1 first took,
    )

-- Where the counter frames are bytes, the last counter has 32 bits, and the events so far and the queued
-- messages are within the limit: the loop of a batch takes up every queued message, and `take_gap` then
-- answers true exactly where a gap was noted before or some four-byte counter in the messages on the topic
-- is not the one after the counter before it, where 0 comes after 2^32 - 1; it clears the note.
pub take_gap-receive_batch :
    (ms : List Message) (es : List SequenceEvent) (s : Subscriber) (max_events : ℕ)
    → All (λ m. AreBytes m.counter) ms
    → InRange s.last_counter
    → length es + length ms ≤ max_events
    → let ((events, t), left) = drain_queue max_events ms (es, s) in
      (left ≡ [])
      × ((take_gap t).0 ≡ (has_gap s.last_counter (counters ms) || s.gap_detected))
      × ((take_gap t).1.gap_detected ≡ false)
unfolding take_gap
take_gap-receive_batch ms es s max_events b r l =
    let (done, took) = drain-Took max_events ms (es, s) b r l in (done, took.1, refl)
