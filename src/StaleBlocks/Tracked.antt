-- ===== src/StaleBlocks/Tracked.antt =====
-- What a poll and a pull of rpc/stale_blocks.py (under btc_parser_app) leave in the registry and the exports:
-- every stale block they have seen.
use bitcoin_data_exporter.Common.{
  String, ◌≡◌, refl, sym, ap, ◌∙◌, Bool, true, false, not, ◌&&◌, ◌||◌, Option, none, some, List, [],
  ◌∷◌, arith, if◌then◌else◌, ◌==◌, nat_eq, string_eq, filter, All,
}
use bitcoin_data_exporter.Common.Dict
use bitcoin_data_exporter.Common.Dict.{Dict, dict_laws}
use bitcoin_data_exporter.Common.{subst, Result, returned, raised}
use bitcoin_data_exporter.ReorgState.Index.{Hash}
use bitcoin_data_exporter.StaleBlocks.{
  HeaderStatus, unusable, header_only, StaleBlockEntry, Sighting, truthy, Ledger, ingest,
  HeaderCodec, Tip, HeaderRow, or_none, or_zero, has_header, is_valid, validate_header_hash,
  checked_header, sighting_of, ingest_sighting, ingest_tips, ingest_rows, stale_tips, flush_ledger,
  run_node_poll, run_github_pull,
}
use bitcoin_data_exporter.StaleBlocks.Reported.{AllReported, flush-entries, polls-AllReported}
use bitcoin_data_exporter.StaleBlocks.Sightings.{Tracked, Tracks, ingest-Tracks, ingest-keeps}

flush-Tracks :
    (l : Ledger) (k : Hash) (status : HeaderStatus)
    → Tracks l k status
    → Tracks (flush_ledger l) k status
flush-Tracks l k status t =
    subst (λ d. Tracked status (Dict.get k d)) (sym (flush-entries l.registry)) t

All-map :
    {A : Type 0} (P Q : A → Type 0) (xs : List A) → ((x : A) → P x → Q x) → All P xs → All Q xs
All-map P Q [] f all = tt
All-map P Q (x ∷ xs) f all = (f x all.0, All-map P Q xs f all.1)

-- The lists that the node and the dataset have answered with.
abbrev pub answered : {A : Type 0} → Result (List A) → List A
answered (raised e) = []
answered (returned xs) = xs

-- A tip that is neither the active one nor invalid.
abbrev pub is_open : Tip → Bool
is_open t = not (t.status == "active") && not (t.status == "invalid")

module _ ⦃codec : HeaderCodec⦄ (now : String) where
  -- The status that a block with that header has.
  abbrev pub status_of : Option String → Hash → HeaderStatus
  status_of header h = if validate_header_hash header h then header_only else unusable

  sighting-status :
      (header : Option String) (h : Hash)
      → (if is_valid (checked_header header h) then header_only else unusable) ≡ status_of header h
  unfolding is_valid checked_header truthy validate_header_hash
  sighting-status none h = refl
  sighting-status (some t) h = ground arith

  tips-keep :
      (ts : List Tip) (l : Ledger) (k : Hash) (status : HeaderStatus)
      → Tracks l k status
      → Tracks (ingest_tips now ts l) k status
  unfolding ingest_tips ingest_sighting
  tips-keep [] l k status w = w
  tips-keep (t ∷ ts) l k status w = tips-keep ts _ k status (ingest-keeps _ l k status w)

  abbrev TracksTip : Ledger → Tip → Type 0
  TracksTip l t = Tracks l t.hash (status_of (or_none t.header) t.hash)

  seen : Tip → Sighting
  seen t =
      sighting_of t.height t.hash (or_none t.header) "own_node" (some t.status)
        (some (or_zero t.branchlen)) now

  next : Tip → Ledger → Ledger
  next t l = ingest (seen t) l

  tips-Tracks : (ts : List Tip) (l : Ledger) → All (TracksTip (ingest_tips now ts l)) ts
  unfolding ingest_tips ingest_sighting sighting_of next seen
  tips-Tracks [] l = tt
  tips-Tracks (t ∷ ts) l = (
    tips-keep ts (next t l) t.hash (status_of (or_none t.header) t.hash) (
        subst (Tracks (next t l) t.hash) (sighting-status (or_none t.header) t.hash)
          (ingest-Tracks (seen t) l)),
    tips-Tracks ts (next t l),
  )

  take_row-keeps :
      (b : Bool) (s : Sighting) (l : Ledger) (k : Hash) (status : HeaderStatus)
      → Tracks l k status
      → Tracks (if b then l else ingest s l) k status
  take_row-keeps true s l k status w = w
  take_row-keeps false s l k status w = ingest-keeps s l k status w

  rows-keep :
      (rs : List HeaderRow) (l : Ledger) (k : Hash) (status : HeaderStatus)
      → Tracks l k status
      → Tracks (ingest_rows now rs l) k status
  unfolding ingest_rows ingest_sighting
  rows-keep [] l k status w = w
  rows-keep (r ∷ rs) l k status w = rows-keep rs _ k status (take_row-keeps _ _ l k status w)

  -- A row of the dataset whose header hashes to its block.
  abbrev pub is_proven : HeaderRow → Bool
  is_proven r = validate_header_hash (some r.header_hex) r.blockhash

  -- The sighting of a row.
  row_seen : HeaderRow → Sighting
  row_seen r = sighting_of r.height r.blockhash (some r.header_hex) "github" none none now

  proven_status :
      (r : HeaderRow)
      → is_proven r ≡ true
      → (if is_valid (checked_header (some r.header_hex) r.blockhash)
          then header_only
          else unusable)
        ≡ header_only
  proven_status r h =
      sighting-status (some r.header_hex) r.blockhash
      ∙ ap (λ (b : Bool). if b then header_only else unusable) h

  has_header-Tracked : (o : Option StaleBlockEntry) → has_header o ≡ true → Tracked header_only o
  unfolding has_header
  has_header-Tracked none h = absurd (ground (arith, h))
  has_header-Tracked (some e) h = ground (arith, h)

  take_row-Tracks :
      (r : HeaderRow) (l : Ledger)
      → is_proven r ≡ true
      → Tracks
          (if has_header (Dict.get r.blockhash l.registry.entries) || not (is_proven r)
            then l
            else ingest (row_seen r) l)
          r.blockhash
          header_only
  unfolding sighting_of row_seen
  take_row-Tracks r l h =
      go (has_header (Dict.get r.blockhash l.registry.entries)) (not (is_proven r)) refl (ap not h)
    where
      go :
          (b c : Bool)
          → has_header (Dict.get r.blockhash l.registry.entries) ≡ b
          → c ≡ false
          → Tracks (if b || c then l else ingest (row_seen r) l) r.blockhash header_only
      go true c q e = has_header-Tracked (Dict.get r.blockhash l.registry.entries) q
      go false true q e = absurd (ground (arith, e))
      go false false q e =
          subst (Tracks (ingest (row_seen r) l) r.blockhash) (proven_status r h)
            (ingest-Tracks (row_seen r) l)

  abbrev TracksRow : Ledger → HeaderRow → Type 0
  TracksRow l r = Tracks l r.blockhash header_only

  rows-Tracks :
      (rs : List HeaderRow) (l : Ledger)
      → All (TracksRow (ingest_rows now rs l)) (filter is_proven rs)
  unfolding ingest_rows ingest_sighting row_seen
  rows-Tracks [] l = tt
  rows-Tracks (r ∷ rs) l = first (is_proven r) refl (rows-Tracks rs (after r l))
    where
      after : HeaderRow → Ledger → Ledger
      after r l =
          if has_header (Dict.get r.blockhash l.registry.entries) || not (is_proven r)
          then l
          else ingest (row_seen r) l

      first :
          (b : Bool)
          → is_proven r ≡ b
          → All (TracksRow (ingest_rows now rs (after r l))) (filter is_proven rs)
          → All
              (TracksRow (ingest_rows now rs (after r l)))
              (if b then r ∷ filter is_proven rs else filter is_proven rs)
      first true q rest =
          (rows-keep rs (after r l) r.blockhash header_only (take_row-Tracks r l q), rest)
      first false q rest = rest

  -- The tips that are ingested are those that are neither active nor invalid.
  stale-open : (ts : List Tip) → stale_tips ts ≡ filter is_open ts
  unfolding stale_tips
  stale-open [] = refl
  stale-open (t ∷ ts) = ground (arith, stale-open ts)

  poll-Tracks :
      (polled : Result (List Tip)) (l : Ledger)
      → All (TracksTip (run_node_poll now polled l).1) (filter is_open (answered polled))
  unfolding run_node_poll
  poll-Tracks (raised e) l = tt
  poll-Tracks (returned ts) l =
      subst (All (TracksTip (flush_ledger (ingest_tips now (stale_tips ts) l)))) (stale-open ts) (
        All-map (TracksTip (ingest_tips now (stale_tips ts) l)) _ (stale_tips ts)
          (λ t w.
            flush-Tracks (ingest_tips now (stale_tips ts) l) t.hash
              (status_of (or_none t.header) t.hash) w)
          (tips-Tracks (stale_tips ts) l))

  pull-keeps :
      (pulled : Result (List HeaderRow)) (l : Ledger) (k : Hash) (status : HeaderStatus)
      → Tracks l k status
      → Tracks (run_github_pull now pulled l).1 k status
  unfolding run_github_pull
  pull-keeps (raised e) l k status w = w
  pull-keeps (returned rs) l k status w =
      flush-Tracks (ingest_rows now rs l) k status (rows-keep rs l k status w)

  pull-Tracks :
      (pulled : Result (List HeaderRow)) (l : Ledger)
      → All (TracksRow (run_github_pull now pulled l).1) (filter is_proven (answered pulled))
  unfolding run_github_pull
  pull-Tracks (raised e) l = tt
  pull-Tracks (returned rs) l =
      All-map (TracksRow (ingest_rows now rs l)) _ (filter is_proven rs)
        (λ r w. flush-Tracks (ingest_rows now rs l) r.blockhash header_only w) (rows-Tracks rs l)

  -- From a ledger in which every block has been exported exactly once for each status that it reached (no
  -- row for an unknown block, else one row for its status, or one for `unusable` and then one for
  -- `header_only`, and the registry says which was last), a poll and then a pull, failed or not, leads to
  -- such a ledger. In it is every tip that the node has answered with and that is neither active nor
  -- invalid, as `header_only` if its header could be had and hashes to it; and every row of the dataset whose
  -- header hashes to its block, as `header_only`.
  pub polls-Tracks :
      (polled : Result (List Tip)) (pulled : Result (List HeaderRow)) (l : Ledger)
      → AllReported l
      → let l' = (run_github_pull now pulled (run_node_poll now polled l).1).1 in
        AllReported l'
        × All
            (λ t. Tracks l' t.hash (status_of (or_none t.header) t.hash))
            (filter is_open (answered polled))
        × All (λ r. Tracks l' r.blockhash header_only) (filter is_proven (answered pulled))
  polls-Tracks polled pulled l i =
      let m = (run_node_poll now polled l).1 in
      (
        polls-AllReported now polled pulled l i,
        All-map (TracksTip m) _ (filter is_open (answered polled))
            (λ t w. pull-keeps pulled m t.hash (status_of (or_none t.header) t.hash) w)
            (poll-Tracks polled l),
        pull-Tracks pulled m,
      )
