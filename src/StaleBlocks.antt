-- ===== src/StaleBlocks.antt =====
-- rpc/stale_blocks_state.py, rpc/stale_blocks.py and the check of common/block_header.py (under
-- btc_parser_app): the registry of stale blocks, and what is exported of it.
pub mod Reported
pub mod Sightings
pub mod Tracked
use bitcoin_data_exporter.Common.{
  ℕ, zero, suc, ◌+◌, ◌-◌, ◌*◌, ◌≤◌, ◌<◌, min, max, String, ◌≡◌, refl, sym, ap, ◌∙◌, ◌≢◌, ◌⊎◌, inl,
  inr, Bool, true, false, not, ◌&&◌, ◌||◌, Option, none, some, List, [], ◌∷◌, ◌++◌, map, append-nil,
  append_assoc, arith, ltb, leb, if◌then◌else◌, Bool-cases, Option-cases, is_some, or_else, Eq,
  ◌==◌, nat_eq, string_eq, pair_eq, contains, length, is_empty, length-append, filter, All,
  All-append, max_or,
}
use bitcoin_data_exporter.Common.Dict
use bitcoin_data_exporter.Common.Dict.{Dict, dict_laws}
use bitcoin_data_exporter.Common.{Result, returned, raised, Failure}
use bitcoin_data_exporter.ReorgState.Index.{Hash}
use bitcoin_data_exporter.ReorgState.Status.{before}

pub data HeaderStatus : Type 0 where
  unusable : HeaderStatus
  header_only : HeaderStatus

-- `_STATUS_RANK`
abbrev pub status_rank : HeaderStatus → ℕ
status_rank unusable = 0
status_rank header_only = 1

-- `status != last_exported_status`
unfoldable pub unlike : HeaderStatus → Option HeaderStatus → Bool
unlike s none = true
unlike unusable (some unusable) = false
unlike unusable (some header_only) = true
unlike header_only (some unusable) = true
unlike header_only (some header_only) = false

pub record StaleBlockEntry : Type 0 where
  pub height : ℕ
  pub blockhash : Hash
  pub status : HeaderStatus
  pub header_hex : Option String
  pub header_valid : Option Bool
  pub source : String
  pub chaintip_status : Option String
  pub branchlen : Option ℕ
  pub first_seen : String
  pub last_exported_status : Option HeaderStatus

pub record Registry : Type 0 where
  pub file : List StaleBlockEntry
  pub entries : Dict Hash StaleBlockEntry
  pub dirty : Bool

-- The arguments of `upsert_sighting`, and the time at which it is called.
pub record Sighting : Type 0 where
  pub height : ℕ
  pub blockhash : Hash
  pub status : HeaderStatus
  pub header_hex : Option String
  pub header_valid : Option Bool
  pub source : String
  pub chaintip_status : Option String
  pub branchlen : Option ℕ
  pub now : String

unfoldable pub load_entries :
    List StaleBlockEntry → Dict Hash StaleBlockEntry → Dict Hash StaleBlockEntry
load_entries [] d = d
load_entries (e ∷ es) d = load_entries es (Dict.insert e.blockhash e d)

-- `__init__` and `_load`
unfoldable pub open_registry : List StaleBlockEntry → Registry
unfolding load_entries
open_registry file = record { file = file; entries = load_entries file []; dirty = false }

unfoldable pub new_entry : Sighting → StaleBlockEntry
new_entry s = record {
  height = s.height;
  blockhash = s.blockhash;
  status = s.status;
  header_hex = s.header_hex;
  header_valid = s.header_valid;
  source = s.source;
  chaintip_status = s.chaintip_status;
  branchlen = s.branchlen;
  first_seen = s.now;
  last_exported_status = none;
}

-- A string that is neither None nor empty.
unfoldable pub truthy : Option String → Bool
truthy none = false
truthy (some t) = not (t == "")

-- `new is not None and new != old`
unfoldable pub is_news : {A : Type 0} ⦃e : Eq A⦄ → Option A → Option A → Bool
is_news none old = false
is_news (some a) none = true
is_news (some a) (some b) = not (a == b)

-- The four updates of an entry; each says if it changes anything.
unfoldable pub raise_status : Sighting → StaleBlockEntry × Bool → StaleBlockEntry × Bool
raise_status s (e, dirty) =
    if ltb (status_rank e.status) (status_rank s.status)
    then (record e { status = s.status }, true)
    else (e, dirty)

unfoldable pub fill_header : Sighting → StaleBlockEntry × Bool → StaleBlockEntry × Bool
unfolding truthy
fill_header s (e, dirty) =
    if truthy s.header_hex && not (truthy e.header_hex)
    then (record e { header_hex = s.header_hex; header_valid = s.header_valid }, true)
    else (e, dirty)

unfoldable pub update_tip : Sighting → StaleBlockEntry × Bool → StaleBlockEntry × Bool
unfolding is_news
update_tip s (e, dirty) =
    if is_news s.chaintip_status e.chaintip_status
    then (record e { chaintip_status = s.chaintip_status }, true)
    else (e, dirty)

unfoldable pub update_branch : Sighting → StaleBlockEntry × Bool → StaleBlockEntry × Bool
unfolding is_news
update_branch s (e, dirty) =
    if is_news s.branchlen e.branchlen
    then (record e { branchlen = s.branchlen }, true)
    else (e, dirty)

unfoldable pub update_entry : Sighting → StaleBlockEntry × Bool → StaleBlockEntry × Bool
unfolding raise_status fill_header update_tip update_branch
update_entry s ed = update_branch s (update_tip s (fill_header s (raise_status s ed)))

-- The entry and the flag after a sighting.
unfoldable pub sighted : Sighting → Option StaleBlockEntry → Bool → StaleBlockEntry × Bool
unfolding new_entry update_entry
sighted s none dirty = (new_entry s, true)
sighted s (some e) dirty = update_entry s (e, dirty)

-- `upsert_sighting`; the entry is changed in place, so it is written back.
unfoldable pub upsert_sighting : Sighting → Registry → StaleBlockEntry × Registry
unfolding sighted
upsert_sighting s r =
    let (e, dirty) = sighted s (Dict.get s.blockhash r.entries) r.dirty in
    (e, record r { entries = Dict.insert s.blockhash e r.entries; dirty = dirty })

unfoldable pub mark_exported : Hash → HeaderStatus → Option StaleBlockEntry → Registry → Registry
unfolding unlike
mark_exported h status none r = r
mark_exported h status (some e) r =
    if unlike status e.last_exported_status
    then record r {
      entries = Dict.insert h (record e { last_exported_status = some status }) r.entries;
      dirty = true;
    }
    else r

unfoldable pub mark_header_status_exported : Hash → HeaderStatus → Registry → Registry
unfolding mark_exported
mark_header_status_exported h status r = mark_exported h status (Dict.get h r.entries) r

unfoldable pub insert_by_height : StaleBlockEntry → List StaleBlockEntry → List StaleBlockEntry
unfolding before
insert_by_height e [] = e ∷ []
insert_by_height e (f ∷ es) =
    let rest = insert_by_height e es in
    if before (f.height, f.blockhash) (e.height, e.blockhash) then f ∷ rest else e ∷ f ∷ es

-- `sorted(self._entries.values(), key=...)`
unfoldable pub sorted_values : Dict Hash StaleBlockEntry → List StaleBlockEntry
unfolding insert_by_height
sorted_values [] = []
sorted_values ((_, e) ∷ d) = insert_by_height e (sorted_values d)

unfoldable pub flush : Registry → Registry
unfolding sorted_values
flush r = if r.dirty then record r { file = sorted_values r.entries; dirty = false } else r

-- What `common/block_header.py` takes from outside: the double SHA-256 of 80 bytes of hex, or none where
-- they are not that; and the lower case of a hash.
pub record HeaderCodec : Type 0 where
  pub header_hash : String → Option Hash
  pub lower : Hash → Hash

-- The registry, and the rows of stale_block_headers.csv: the entries as they were exported.
pub record Ledger : Type 0 where
  pub registry : Registry
  pub exported : List StaleBlockEntry

-- `_export_header_event` and what follows it, if the entry's status is not the one last exported.
unfoldable pub export_if_new : Hash → StaleBlockEntry → Ledger → Ledger
unfolding unlike mark_header_status_exported flush
export_if_new h e l =
    if unlike e.status e.last_exported_status
    then record {
      registry = flush (mark_header_status_exported h e.status l.registry);
      exported = l.exported ++ e ∷ [];
    }
    else l

unfoldable pub is_valid : Option Bool → Bool
is_valid none = false
is_valid (some b) = b

unfoldable pub ingest : Sighting → Ledger → Ledger
unfolding upsert_sighting export_if_new
ingest s l =
    let (e, r) = upsert_sighting s l.registry in
    export_if_new s.blockhash e (record l { registry = r })

-- A chain tip of `getchaintips` with what `getblockheader` answers for it.
pub record Tip : Type 0 where
  pub hash : Hash
  pub height : ℕ
  pub status : String
  pub branchlen : Option ℕ
  pub header : Result String

-- `[t for t in tips if t.get("status") not in _ACTIVE_OR_INVALID]`
unfoldable pub stale_tips : List Tip → List Tip
stale_tips tips = filter (λ t. not (contains ("active" ∷ "invalid" ∷ []) t.status)) tips

unfoldable pub or_none : Result String → Option String
or_none (raised e) = none
or_none (returned t) = some t

unfoldable pub or_zero : Option ℕ → ℕ
or_zero none = 0
or_zero (some n) = n

-- A row of the dataset on GitHub.
pub record HeaderRow : Type 0 where
  pub height : ℕ
  pub blockhash : Hash
  pub header_hex : String

unfoldable pub has_header : Option StaleBlockEntry → Bool
has_header none = false
has_header (some e) = leb 1 (status_rank e.status)

abbrev pub flush_ledger : Ledger → Ledger
flush_ledger l = record l { registry = flush l.registry }

module _ ⦃codec : HeaderCodec⦄ where
  unfoldable pub hash_matches : Hash → Option Hash → Bool
  hash_matches claimed none = false
  hash_matches claimed (some h) = h == codec.lower claimed

  unfoldable pub validate_header_hash : Option String → Hash → Bool
  unfolding hash_matches
  validate_header_hash none claimed = false
  validate_header_hash (some t) claimed =
      not (t == "") && hash_matches claimed (codec.header_hash t)

  -- `validate_header_hash(header_hex, blockhash) if header_hex else None`
  unfoldable pub checked_header : Option String → Hash → Option Bool
  unfolding truthy validate_header_hash
  checked_header header_hex h =
      if truthy header_hex then some (validate_header_hash header_hex h) else none

  unfoldable pub sighting_of :
      ℕ → Hash → Option String → String → Option String → Option ℕ → String → Sighting
  unfolding checked_header is_valid
  sighting_of height h header_hex source tip branchlen now =
      let valid = checked_header header_hex h in
      record {
        height = height;
        blockhash = h;
        status = if is_valid valid then header_only else unusable;
        header_hex = if is_valid valid then header_hex else none;
        header_valid = valid;
        source = source;
        chaintip_status = tip;
        branchlen = branchlen;
        now = now;
      }

  -- `_ingest_sighting`
  unfoldable pub ingest_sighting :
      ℕ → Hash → Option String → String → Option String → Option ℕ → String → Ledger → Ledger
  unfolding sighting_of ingest
  ingest_sighting height h header_hex source tip branchlen now l =
      ingest (sighting_of height h header_hex source tip branchlen now) l

  unfoldable pub ingest_tips : String → List Tip → Ledger → Ledger
  unfolding ingest_sighting or_none or_zero
  ingest_tips now [] l = l
  ingest_tips now (t ∷ ts) l = ingest_tips now ts (
      ingest_sighting t.height t.hash (or_none t.header) "own_node" (some t.status)
        (some (or_zero t.branchlen)) now l)

  unfoldable pub ingest_rows : String → List HeaderRow → Ledger → Ledger
  unfolding ingest_sighting has_header validate_header_hash
  ingest_rows now [] l = l
  ingest_rows now (r ∷ rs) l = ingest_rows now rs (
      if has_header (Dict.get r.blockhash l.registry.entries)
        || not (validate_header_hash (some r.header_hex) r.blockhash)
      then l
      else ingest_sighting r.height r.blockhash (some r.header_hex) "github" none none now l)

  -- `_run_node_poll`, over the answer to `getchaintips`; an error of it is raised.
  unfoldable pub run_node_poll : String → Result (List Tip) → Ledger → Result Unit × Ledger
  unfolding ingest_tips flush stale_tips
  run_node_poll now (raised e) l = (raised e, l)
  run_node_poll now (returned tips) l =
      (returned tt, flush_ledger (ingest_tips now (stale_tips tips) l))

  -- `_run_github_pull`
  unfoldable pub run_github_pull : String → Result (List HeaderRow) → Ledger → Bool × Ledger
  unfolding ingest_rows flush
  run_github_pull now (raised e) l = (false, l)
  run_github_pull now (returned rows) l = (true, flush_ledger (ingest_rows now rows l))
