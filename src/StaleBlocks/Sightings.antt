-- ===== src/StaleBlocks/Sightings.antt =====
-- A sighting (rpc/stale_blocks.py under btc_parser_app) is kept in the registry, at its status or a higher one.
use bitcoin_data_exporter.Common.{
  ◌≤◌, ◌≡◌, refl, sym, ◌∙◌, ◌≢◌, inl, inr, Bool, true, false, Option, none, some, arith, ltb,
  if◌then◌else◌, Bool-cases, ◌==◌, nat_eq, string_eq,
}
use bitcoin_data_exporter.Common.Dict
use bitcoin_data_exporter.Common.Dict.{Dict, dict_laws}
use bitcoin_data_exporter.Common.{subst}
use bitcoin_data_exporter.ReorgState.Index.{Hash}
use bitcoin_data_exporter.StaleBlocks.{
  HeaderStatus, status_rank, StaleBlockEntry, Sighting, new_entry, raise_status, fill_header,
  update_tip, update_entry, sighted, upsert_sighting, Ledger, ingest,
}
use bitcoin_data_exporter.StaleBlocks.Reported.{
  fill_header-Keeps, update_tip-Keeps, update_branch-Keeps, update_entry-Keeps, with_export,
  get-export,
}

-- The entry is there, and its status is that one or a higher one.
abbrev pub Tracked : HeaderStatus → Option StaleBlockEntry → Type 0
Tracked status none = ⊥
Tracked status (some e) = status_rank status ≤ status_rank e.status

abbrev pub Tracks : Ledger → Hash → HeaderStatus → Type 0
Tracks l h status = Tracked status (Dict.get h l.registry.entries)

get-ingest :
    (k : Hash) (s : Sighting) (l : Ledger)
    → Dict.get k (ingest s l).registry.entries ≡ (
        if k == s.blockhash
        then some
            (with_export (sighted s (Dict.get s.blockhash l.registry.entries) l.registry.dirty).0)
        else Dict.get k l.registry.entries)
unfolding ingest upsert_sighting
get-ingest k s l =
    let (e, dirty) = sighted s (Dict.get s.blockhash l.registry.entries) l.registry.dirty in
    let entries = Dict.insert s.blockhash e l.registry.entries in
    get-export k s.blockhash e
      (record l { registry = record l.registry { entries = entries; dirty = dirty } })
      (Dict.get-insert_self s.blockhash e l.registry.entries)
    ∙ same (k == s.blockhash) (some (with_export e)) (some e) (Dict.get k l.registry.entries)
        (Dict.get k entries) (Dict.get-insert k s.blockhash e l.registry.entries)
  where
    same :
        (b : Bool) (x y o p : Option StaleBlockEntry)
        → p ≡ (if b then y else o)
        → (if b then x else p) ≡ (if b then x else o)
    same true x y o p h = refl
    same false x y o p h = h

raise_status-reaches :
    (s : Sighting) (e : StaleBlockEntry) (dirty : Bool)
    → status_rank s.status ≤ status_rank (raise_status s (e, dirty)).0.status
unfolding raise_status
raise_status-reaches s e dirty =
    elim (Bool-cases (ltb (status_rank e.status) (status_rank s.status))) [
      | inl q ↦ simp q (omega arith)
      | inr q ↦ simp q (ground (arith, q))
    ]

-- A sighting reaches its status, and lowers none.
sighted-reaches :
    (s : Sighting) (o : Option StaleBlockEntry) (dirty : Bool)
    → status_rank s.status ≤ status_rank (sighted s o dirty).0.status
unfolding sighted new_entry update_entry
sighted-reaches s none dirty = omega arith
sighted-reaches s (some e) dirty =
    let a = raise_status s (e, dirty) in
    let b = fill_header s a in
    let c = update_tip s b in
    omega (
      arith,
      raise_status-reaches s e dirty,
      (fill_header-Keeps s a).2,
      (update_tip-Keeps s b).2,
      (update_branch-Keeps s c).2,
    )

sighted-keeps :
    (s : Sighting) (o : Option StaleBlockEntry) (dirty : Bool) (status : HeaderStatus)
    → Tracked status o
    → status_rank status ≤ status_rank (sighted s o dirty).0.status
unfolding sighted
sighted-keeps s none dirty status t = absurd t
sighted-keeps s (some e) dirty status t = omega (arith, t, (update_entry-Keeps s e dirty).2)

pub ingest-Tracks : (s : Sighting) (l : Ledger) → Tracks (ingest s l) s.blockhash s.status
ingest-Tracks s l =
    subst (Tracked s.status) (sym (get-ingest s.blockhash s l ∙ self s.blockhash _ _))
      (sighted-reaches s (Dict.get s.blockhash l.registry.entries) l.registry.dirty)
  where
    self : (h : Hash) (x o : Option StaleBlockEntry) → (if h == h then x else o) ≡ x
    self h x o = ground arith

pub ingest-keeps :
    (s : Sighting) (l : Ledger) (k : Hash) (status : HeaderStatus)
    → Tracks l k status
    → Tracks (ingest s l) k status
ingest-keeps s l k status t =
    subst (Tracked status) (sym (get-ingest k s l)) (elim (string_eq.dec k s.blockhash) [
      | yes q ↦
          subst
            (λ j. Tracked status (
              if k == j
              then some (
                  with_export
                    (sighted s (Dict.get s.blockhash l.registry.entries) l.registry.dirty).0)
              else Dict.get k l.registry.entries))
            q
            (subst (Tracked status) (sym (self k _ _)) (
              sighted-keeps s (Dict.get s.blockhash l.registry.entries) l.registry.dirty status
                (subst (λ j. Tracks l j status) q t)))
      | no n ↦ subst (Tracked status) (sym (other k s.blockhash _ _ n)) t
    ])
  where
    self : (h : Hash) (x o : Option StaleBlockEntry) → (if h == h then x else o) ≡ x
    self h x o = ground arith

    other : (k h : Hash) (x o : Option StaleBlockEntry) → k ≢ h → (if k == h then x else o) ≡ o
    other k h x o n = ground (arith, n)
