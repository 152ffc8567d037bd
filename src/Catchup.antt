-- ===== src/Catchup.antt =====
-- rpc/catchup.py (under btc_parser_app): blocks fetched and parsed ahead by a pool of workers, and
-- yielded in the order of their heights.
pub mod Order
use bitcoin_data_exporter.Common.{
  ℕ, zero, suc, ◌+◌, ◌-◌, ◌*◌, ◌≤◌, ◌<◌, min, max, String, ◌≡◌, refl, sym, ap, ◌∙◌, ◌≢◌, ◌⊎◌, inl,
  inr, Bool, true, false, not, ◌&&◌, ◌||◌, Option, none, some, List, [], ◌∷◌, ◌++◌, map, append-nil,
  append_assoc, arith, ltb, leb, if◌then◌else◌, Bool-cases, Option-cases, is_some, or_else, Eq,
  ◌==◌, nat_eq, string_eq, contains, length, is_empty, length-append, filter, All, All-append,
  max_or,
}
use bitcoin_data_exporter.Common.Dict
use bitcoin_data_exporter.Common.Dict.{Dict, dict_laws}
use bitcoin_data_exporter.Common.{ℤ, Result, returned, raised, Failure, runtime_error}
use bitcoin_data_exporter.ReorgState.Index.{Hash}

abbrev pub prefetch_per_worker : ℕ
prefetch_per_worker = 4

-- A row of blocks.csv: the columns that are read back, the one that the caller fills in, and the
-- others.
pub record BlockEvent (R : Type 0) : Type 0 where
  pub height : ℕ
  pub hash : Hash
  pub previousblockhash : Option Hash
  pub time_since_prev_block_sec : Option ℤ
  pub columns : R

pub record ParsedBlock (R : Type 0) : Type 0 where
  pub height : ℕ
  pub block_hash : Hash
  pub previousblockhash : Hash
  pub block_time : ℕ
  pub block_event : BlockEvent R
  pub transactions : List R
  pub inputs : List R
  pub outputs : List R

unfoldable pub expect_height : {R : Type 0} → ℕ → Result (ParsedBlock R) → Result (ParsedBlock R)
expect_height height (raised e) = raised e
expect_height height (returned parsed) =
    if parsed.height == height then returned parsed else raised runtime_error

unfoldable pub parse_at :
    {R : Type 0} → (Hash → Result (ParsedBlock R)) → ℕ → Result Hash → Result (ParsedBlock R)
unfolding expect_height
parse_at parse_block height (raised e) = raised e
parse_at parse_block height (returned h) = expect_height height (parse_block h)

-- `_fetch_and_parse`, over the answers of `get_block_hash` and `parse_block` in the worker.
unfoldable pub fetch_and_parse :
    {R : Type 0} → (ℕ → Result Hash) → (Hash → Result (ParsedBlock R)) → ℕ → Result (ParsedBlock R)
unfolding parse_at
fetch_and_parse get_block_hash parse_block height =
    parse_at parse_block height (get_block_hash height)

-- The generator between two `next` calls: the futures in `pending`, each the outcome that its
-- worker comes to, and what `to_submit` has left.
pub record Prefetch (B : Type 0) : Type 0 where
  pub pending : List (Result B)
  pub to_submit : List ℕ

module _ {B : Type 0} (fetch : ℕ → Result B) where
  -- The loop that fills the window.
  unfoldable pub fill : ℕ → List ℕ → List (Result B) → Prefetch B
  fill window [] pending = record { pending = pending; to_submit = [] }
  fill window (height ∷ rest) pending =
      let submitted = pending ++ fetch height ∷ [] in
      if leb window (length submitted)
      then record { pending = submitted; to_submit = rest }
      else fill window rest submitted

  -- `pool.submit(fetch, next_height)`, if a height is left.
  unfoldable pub submit_next : List (Result B) → List ℕ → Prefetch B
  submit_next pending [] = record { pending = pending; to_submit = [] }
  submit_next pending (height ∷ rest) = record {
    pending = pending ++ fetch height ∷ [];
    to_submit = rest;
  }

  -- One turn of the `while` loop: the oldest result, raised or yielded; `none` at the end.
  unfoldable pub next_block : Prefetch B → Option (Result B × Prefetch B)
  unfolding submit_next
  next_block p = elim p.pending [
    | [] ↦ none
    | (raised e) ∷ rest ↦ some (raised e, record { pending = []; to_submit = [] })
    | (returned b) ∷ rest ↦ some (returned b, submit_next rest p.to_submit)
  ]

  -- `iter_parsed_blocks`
  unfoldable pub iter_parsed_blocks : List ℕ → ℕ → Prefetch B
  unfolding fill
  iter_parsed_blocks heights workers = fill (prefetch_per_worker * workers) heights []

  -- All that a caller gets who takes every block, at most n of them.
  unfoldable pub take_blocks : ℕ → Prefetch B → List (Result B)
  unfolding next_block
  take_blocks zero p = []
  take_blocks (suc n) p = elim (next_block p) [ none ↦ [] | some (r, p') ↦ r ∷ take_blocks n p' ]
