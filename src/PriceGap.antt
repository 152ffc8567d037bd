-- ===== src/PriceGap.antt =====
-- api/price_gap_backfill.py (under btc_parser_app): missing minutes of prices.csv fetched one by one, with a
-- checkpoint. prices.csv is the list of its rows over all parts, which CsvWriter models.
pub mod Dates
pub mod Sound
pub mod Walks
pub mod Ends
use bitcoin_data_exporter.Common.{
  ℕ, zero, suc, ◌+◌, ◌-◌, ◌*◌, ◌≤◌, ◌<◌, min, max, String, ◌≡◌, refl, sym, ap, ◌∙◌, ◌≢◌, ◌⊎◌, inl,
  inr, Bool, true, false, not, ◌&&◌, ◌||◌, Option, none, some, List, [], ◌∷◌, ◌++◌, map, append-nil,
  append_assoc, arith, ltb, leb, if◌then◌else◌, Bool-cases, Option-cases, is_some, or_else, Eq,
  ◌==◌, nat_eq, string_eq, contains, length, is_empty, length-append, filter, All, All-append,
  max_or,
}
use bitcoin_data_exporter.Common.Dict
use bitcoin_data_exporter.Common.Dict.{Dict, dict_laws}
use bitcoin_data_exporter.Common.{◌/◌, ◌%◌}

-- A row of prices.csv; P is a price as the API gives it.
pub record Price (P : Type 0) : Type 0 where
  pub date_unix : ℕ
  pub usd : P
  pub eur : P

-- The first entry of an answer.
pub record Entry (P : Type 0) : Type 0 where
  pub time : Option ℕ
  pub usd : P
  pub eur : P

-- What `fetch_historical_price` and `_first_price` make of a request: HTTP 429, another failure, an answer
-- without prices, or its first entry.
pub data Fetched (P : Type 0) : Type 0 where
  rate_limited : Fetched P
  fetch_error : Fetched P
  no_price : Fetched P
  priced : Entry P → Fetched P

-- `fetch_historical_price` and `_first_price`: no response, or one with a status and a body that is no JSON,
-- has no prices, or has a first entry.
unfoldable pub fetched_of : {P : Type 0} → Option (ℕ × Option (Option (Entry P))) → Fetched P
fetched_of none = fetch_error
fetched_of (some (status, none)) = if status == 429 then rate_limited else fetch_error
fetched_of (some (status, some none)) =
    if status == 429 then rate_limited else if status == 200 then no_price else fetch_error
fetched_of (some (status, some (some e))) =
    if status == 429 then rate_limited else if status == 200 then priced e else fetch_error

pub data ExitCode : Type 0 where
  completed : ExitCode
  exit_rate_limited : ExitCode
  exit_failed : ExitCode

-- The two files: the rows of prices.csv, and the checkpoint with its `range_start` and `next_timestamp`.
pub record Disk (P : Type 0) : Type 0 where
  pub prices : List (Price P)
  pub checkpoint : Option (ℕ × ℕ)

-- `_Validator`, without the limits that its configuration gives.
pub record Validator : Type 0 where
  pub every : ℕ
  pub datapoints_seen : ℕ
  pub pending : Bool
  pub checked : ℕ
  pub warnings : ℕ
  pub failed : ℕ

-- The variables of `run_backfill`, and the states that its files went through: after every row that was
-- written, and after every checkpoint. A line that a crash has cut in the middle is not among them.
pub record Run (P : Type 0) : Type 0 where
  pub disk : Disk P
  pub passed : List (Disk P)
  pub existing_dates : List ℕ
  pub pending_rows : List (Price P)
  pub next_timestamp : ℕ
  pub steps_since_flush : ℕ
  pub written : ℕ
  pub validator : Validator

abbrev pub step_seconds : ℕ
step_seconds = 60

abbrev pub flush_every_steps : ℕ
flush_every_steps = 1000

-- `_existing_dates`
unfoldable pub existing_dates_of : {P : Type 0} → List (Price P) → List ℕ
existing_dates_of [] = []
existing_dates_of (p ∷ ps) = p.date_unix ∷ existing_dates_of ps

-- `_load_checkpoint`
unfoldable pub load_checkpoint : Option (ℕ × ℕ) → ℕ → ℕ
load_checkpoint none start = start
load_checkpoint (some (range_start, next)) start = if range_start == start then next else start

-- What the outside decides: the answers of the two sites for a timestamp, whether two entries are further
-- apart than the limit, whether the validator may send a request when a timestamp is observed, and whether
-- FLUSH_EVERY_SECONDS have passed when it is done.
pub record Outside (P : Type 0) : Type 0 where
  pub fetch : ℕ → Fetched P
  pub reference : ℕ → Fetched P
  pub differs : Entry P → Entry P → Bool
  pub may_validate : ℕ → Bool
  pub flush_due : ℕ → Bool

-- The next datapoint is counted, and is to be validated if it is one in `every`.
unfoldable pub count_datapoint : Validator → Validator
count_datapoint v = record v {
  pending = v.datapoints_seen % v.every == 0 || v.pending;
  datapoints_seen = v.datapoints_seen + 1;
}

-- `total_steps`
abbrev pub total_steps : ℕ → ℕ → ℕ
total_steps next end = (end - next) / step_seconds + 1

module _ {P : Type 0} where
  -- `_Validator._validate`, over the answer of the reference site.
  unfoldable pub validate : (Entry P → Entry P → Bool) → Entry P → Fetched P → Validator → Validator
  validate differs entry rate_limited v = record v { failed = v.failed + 1 }
  validate differs entry fetch_error v = record v { failed = v.failed + 1 }
  validate differs entry no_price v = record v { failed = v.failed + 1 }
  validate differs entry (priced reference) v = record v {
    checked = v.checked + 1;
    warnings = if differs entry reference then v.warnings + 1 else v.warnings;
  }

  -- `_Validator.observe`
  unfoldable pub observe : Outside P → ℕ → Entry P → Validator → Validator
  unfolding validate count_datapoint
  observe o timestamp entry v =
      let w = count_datapoint v in
      if v.every == 0
      then v
      else if w.pending && o.may_validate timestamp
      then validate o.differs entry (o.reference timestamp) (record w { pending = false })
      else w

  -- `write_rows_to_csv` puts one row after the other at the end of the file: the states that this takes the
  -- files through, of which the last one has all rows.
  unfoldable pub append_rows : Disk P → List (Price P) → List (Disk P)
  append_rows d [] = []
  append_rows d (p ∷ ps) =
      let appended : Disk P = record d { prices = d.prices ++ p ∷ [] } in
      appended ∷ append_rows appended ps

  -- `flush`: the rows first, then the checkpoint.
  unfoldable pub flush : ℕ → Run P → Run P
  unfolding append_rows
  flush start s =
      let prices = s.disk.prices ++ s.pending_rows in
      let saved : Disk P = record {
        prices = prices;
        checkpoint = some (start, s.next_timestamp);
      } in
      record s {
        disk = saved;
        passed = s.passed ++ (append_rows s.disk s.pending_rows ++ saved ∷ []);
        pending_rows = [];
        steps_since_flush = 0;
      }

  -- `pending_rows.append`, for a date that is not there yet.
  unfoldable pub add_price : Option ℕ → Entry P → Run P → Run P
  add_price none e s = s
  add_price (some date) e s = if contains s.existing_dates date then s else record s {
    pending_rows = s.pending_rows ++ record { date_unix = date; usd = e.usd; eur = e.eur } ∷ [];
    existing_dates = s.existing_dates ++ date ∷ [];
    written = s.written + 1;
  }

  -- The end of a round: the next timestamp, and a flush if it is time.
  unfoldable pub advance : Outside P → ℕ → Run P → Run P
  unfolding flush
  advance o start s =
      let t = record s {
        next_timestamp = s.next_timestamp + step_seconds;
        steps_since_flush = s.steps_since_flush + 1;
      } in
      if leb flush_every_steps t.steps_since_flush || o.flush_due s.next_timestamp
      then flush start t
      else t

  -- A round of the loop, over the answer of the site: the exit code of an early return, if there is one.
  unfoldable pub round : Outside P → ℕ → Fetched P → Run P → Option ExitCode × Run P
  unfolding advance observe add_price
  round o start rate_limited s = (some exit_rate_limited, s)
  round o start fetch_error s = (some exit_failed, s)
  round o start no_price s = (none, advance o start s)
  round o start (priced e) s =
      let v = observe o s.next_timestamp e s.validator in
      (none, advance o start (add_price e.time e (record s { validator = v })))

  abbrev pub or_on : Option ExitCode × Run P → Option ExitCode × Run P → Option ExitCode × Run P
  or_on (some code, s) rest = (some code, s)
  or_on (none, s) rest = rest

  -- `while next_timestamp <= end_timestamp`, for a number of rounds; no exit code where they do not suffice.
  unfoldable pub loop : Outside P → ℕ → ℕ → ℕ → Run P → Option ExitCode × Run P
  unfolding round
  loop o start end zero s = (if leb s.next_timestamp end then none else some completed, s)
  loop o start end (suc n) s =
      let r = round o start (o.fetch s.next_timestamp) s in
      let rest = loop o start end n r.1 in
      if leb s.next_timestamp end then or_on r rest else (some completed, s)

  unfoldable pub new_run : Disk P → ℕ → ℕ → Run P
  unfolding existing_dates_of
  new_run d next every = record {
    disk = d;
    passed = [];
    existing_dates = existing_dates_of d.prices;
    pending_rows = [];
    next_timestamp = next;
    steps_since_flush = 0;
    written = 0;
    validator = record {
      every = every;
      datapoints_seen = 0;
      pending = false;
      checked = 0;
      warnings = 0;
      failed = 0;
    };
  }

  -- The `try` block with its `finally`.
  unfoldable pub walk : Outside P → ℕ → ℕ → Run P → Option ExitCode × Run P
  unfolding loop flush
  walk o start end s =
      let r = loop o start end (total_steps s.next_timestamp end) s in (r.0, flush start r.1)

  -- `run_backfill`
  unfoldable pub run_backfill : Outside P → ℕ → ℕ → ℕ → Disk P → Option ExitCode × Run P
  unfolding load_checkpoint new_run walk
  run_backfill o start end every d =
      let s = new_run d (load_checkpoint d.checkpoint start) every in
      if ltb end start
      then (some exit_failed, s)
      else if ltb end s.next_timestamp
      then (some completed, s)
      else walk o start end s
