-- ===== src/StaleBlocks/Reported.antt =====
-- A stale block is exported once for each status that it reaches.
use bitcoin_data_exporter.Common.{
  ◌≤◌, String, ◌≡◌, refl, sym, ap, ◌∙◌, ◌≢◌, ◌⊎◌, inl, inr, Bool, true, false, not, ◌&&◌, Option,
  none, some, List, [], ◌∷◌, ◌++◌, append-nil, arith, ltb, if◌then◌else◌, Bool-cases, ◌==◌, nat_eq,
  string_eq,
}
use bitcoin_data_exporter.Common.Dict
use bitcoin_data_exporter.Common.Dict.{Dict, dict_laws}
use bitcoin_data_exporter.Common.{subst, Result, returned, raised}
use bitcoin_data_exporter.ReorgState.Index.{Hash}
use bitcoin_data_exporter.StaleBlocks.{
  HeaderStatus, unusable, header_only, status_rank, unlike, StaleBlockEntry, Registry, Sighting,
  new_entry, truthy, is_news, raise_status, fill_header, update_tip, update_branch, update_entry,
  sighted, upsert_sighting, mark_exported, mark_header_status_exported, flush, Ledger,
  export_if_new, ingest, HeaderCodec, Tip, HeaderRow, stale_tips, ingest_sighting, ingest_tips,
  ingest_rows, flush_ledger, run_node_poll, run_github_pull,
}

-- The statuses that were exported of a block, in their order.
abbrev pub statuses : Hash → List StaleBlockEntry → List HeaderStatus
statuses h [] = []
statuses h (e ∷ es) = let rest = statuses h es in if h == e.blockhash then e.status ∷ rest else rest

-- The exports of a block up to a status: that status alone, or the lower one before it.
abbrev pub IsRise : HeaderStatus → List HeaderStatus → Type 0
IsRise s l = (l ≡ s ∷ []) ⊎ ((s ≡ header_only) × (l ≡ unusable ∷ header_only ∷ []))

-- A block that is not in the registry has not been exported. One that is in it has been exported at its
-- status.
abbrev pub IsReported : Hash → List StaleBlockEntry → Option StaleBlockEntry → Type 0
IsReported h out none = statuses h out ≡ []
IsReported h out (some e) =
    (e.blockhash ≡ h) × (e.last_exported_status ≡ some e.status) × IsRise e.status (statuses h out)

abbrev pub AllReported : Ledger → Type 0
AllReported l = (h : Hash) → IsReported h l.exported (Dict.get h l.registry.entries)

statuses-append :
    (h : Hash) (es fs : List StaleBlockEntry)
    → statuses h (es ++ fs) ≡ statuses h es ++ statuses h fs
statuses-append h [] fs = refl
statuses-append h (e ∷ es) fs = ground (arith, statuses-append h es fs)

-- What a sighting keeps of an entry: its hash, what was exported, and a status that does not fall.
abbrev Keeps : StaleBlockEntry → StaleBlockEntry → Type 0
Keeps e f =
    (f.blockhash ≡ e.blockhash)
    × (f.last_exported_status ≡ e.last_exported_status)
    × (status_rank e.status ≤ status_rank f.status)

Keeps-then : (e f g : StaleBlockEntry) → Keeps e f → Keeps f g → Keeps e g
Keeps-then e f g (a, b, c) (a', b', c') = (a' ∙ a, b' ∙ b, omega (arith, c, c'))

raise_status-Keeps : (s : Sighting) (ed : StaleBlockEntry × Bool) → Keeps ed.0 (raise_status s ed).0
unfolding raise_status
raise_status-Keeps s (e, dirty) =
    elim (Bool-cases (ltb (status_rank e.status) (status_rank s.status))) [
      | inl q ↦ simp q (refl, refl, ground arith)
      | inr q ↦ simp q (refl, refl, omega arith)
    ]

pub fill_header-Keeps :
    (s : Sighting) (ed : StaleBlockEntry × Bool) → Keeps ed.0 (fill_header s ed).0
unfolding fill_header
fill_header-Keeps s (e, dirty) =
    elim (Bool-cases (truthy s.header_hex && not (truthy e.header_hex))) [
      | inl q ↦ simp q (refl, refl, omega arith)
      | inr q ↦ simp q (refl, refl, omega arith)
    ]

pub update_tip-Keeps : (s : Sighting) (ed : StaleBlockEntry × Bool) → Keeps ed.0 (update_tip s ed).0
unfolding update_tip
update_tip-Keeps s (e, dirty) = elim (Bool-cases (is_news s.chaintip_status e.chaintip_status)) [
  | inl q ↦ simp q (refl, refl, omega arith)
  | inr q ↦ simp q (refl, refl, omega arith)
]

pub update_branch-Keeps :
    (s : Sighting) (ed : StaleBlockEntry × Bool) → Keeps ed.0 (update_branch s ed).0
unfolding update_branch
update_branch-Keeps s (e, dirty) = elim (Bool-cases (is_news s.branchlen e.branchlen)) [
  | inl q ↦ simp q (refl, refl, omega arith)
  | inr q ↦ simp q (refl, refl, omega arith)
]

pub update_entry-Keeps :
    (s : Sighting) (e : StaleBlockEntry) (dirty : Bool) → Keeps e (update_entry s (e, dirty)).0
unfolding update_entry
update_entry-Keeps s e dirty =
    let a = raise_status s (e, dirty) in
    let b = fill_header s a in
    let c = update_tip s b in
    Keeps-then e a.0 (update_branch s c).0 (raise_status-Keeps s (e, dirty)) (
      Keeps-then a.0 b.0 (update_branch s c).0 (fill_header-Keeps s a)
        (Keeps-then b.0 c.0 (update_branch s c).0 (update_tip-Keeps s b) (update_branch-Keeps s c)))

-- The statuses exported of a block, after an entry of it is exported if its status is new.
rise :
    (last : Option HeaderStatus) (before after : List HeaderStatus) (status : HeaderStatus)
    → ((last ≡ none) × (before ≡ []))
      ⊎ ((old : HeaderStatus) × (last ≡ some old)
          × (status_rank old ≤ status_rank status)
          × IsRise old before)
    → after ≡ (if unlike status last then before ++ status ∷ [] else before)
    → IsRise status after
unfolding unlike
rise none b a s (inl (e, f)) q = inl (q ∙ ap (λ l. l ++ s ∷ []) f)
rise none b a s (inr (old, e, r, w)) q = absurd (ground arith)
rise (some t) b a s (inl (e, f)) q = absurd (ground arith)
rise (some unusable) b a unusable (inr (unusable, e, r, w)) q = subst (IsRise unusable) (sym q) w
rise (some unusable) b a header_only (inr (unusable, e, r, inl w)) q =
    inr (refl, q ∙ ap (λ l. l ++ header_only ∷ []) w)
rise (some unusable) b a header_only (inr (unusable, e, r, inr w)) q = absurd (ground arith)
rise (some unusable) b a s (inr (header_only, e, r, w)) q = absurd (ground arith)
rise (some header_only) b a unusable (inr (unusable, e, r, w)) q = absurd (ground arith)
rise (some header_only) b a unusable (inr (header_only, e, r, w)) q = absurd (omega (arith, r))
rise (some header_only) b a header_only (inr (header_only, e, r, w)) q =
    subst (IsRise header_only) (sym q) w
rise (some header_only) b a s (inr (unusable, e, r, w)) q = absurd (ground arith)

same-unlike : (s : HeaderStatus) (o : Option HeaderStatus) → unlike s o ≡ false → some s ≡ o
unfolding unlike
same-unlike s none q = absurd (ground arith)
same-unlike unusable (some unusable) q = refl
same-unlike unusable (some header_only) q = absurd (ground arith)
same-unlike header_only (some unusable) q = absurd (ground arith)
same-unlike header_only (some header_only) q = refl

abbrev pub with_export : StaleBlockEntry → StaleBlockEntry
with_export e = record e { last_exported_status = some e.status }

pub flush-entries : (r : Registry) → (flush r).entries ≡ r.entries
unfolding flush
flush-entries r = elim (Bool-cases r.dirty) [ inl q ↦ simp q refl | inr q ↦ simp q refl ]

get-mark :
    (k h : Hash) (e : StaleBlockEntry) (r : Registry) (o : Option StaleBlockEntry)
    → o ≡ some e
    → unlike e.status e.last_exported_status ≡ true
    → Dict.get k (mark_exported h e.status o r).entries
      ≡ (if k == h then some (with_export e) else Dict.get k r.entries)
unfolding mark_exported
get-mark k h e r none q u = absurd (ground arith)
get-mark k h e r (some f) q u =
    subst
      (λ (x : Option StaleBlockEntry).
        Dict.get k (mark_exported h e.status x r).entries
        ≡ (if k == h then some (with_export e) else Dict.get k r.entries))
      (sym q) (simp u (Dict.get-insert k h (with_export e) r.entries))

pub get-export :
    (k h : Hash) (e : StaleBlockEntry) (l : Ledger)
    → Dict.get h l.registry.entries ≡ some e
    → Dict.get k (export_if_new h e l).registry.entries
      ≡ (if k == h then some (with_export e) else Dict.get k l.registry.entries)
unfolding export_if_new mark_header_status_exported
get-export k h e l g = elim (Bool-cases (unlike e.status e.last_exported_status)) [
  | inl q ↦ simp q (
      ap (Dict.get k) (flush-entries (mark_header_status_exported h e.status l.registry))
      ∙ get-mark k h e l.registry (Dict.get h l.registry.entries) g q)
  | inr q ↦ simp q (
      self k h e l.registry.entries g (
        ap (λ o. some (record e { last_exported_status = o }))
          (same-unlike e.status e.last_exported_status q)))
]
  where
    self :
        (k h : Hash) (e : StaleBlockEntry) (d : Dict Hash StaleBlockEntry)
        → Dict.get h d ≡ some e
        → some (with_export e) ≡ some e
        → Dict.get k d ≡ (if k == h then some (with_export e) else Dict.get k d)
    self k h e d g q = ground (arith)

exported_if_new :
    (h : Hash) (e : StaleBlockEntry) (l : Ledger)
    → (export_if_new h e l).exported
      ≡ (if unlike e.status e.last_exported_status then l.exported ++ e ∷ [] else l.exported)
unfolding export_if_new
exported_if_new h e l = elim (Bool-cases (unlike e.status e.last_exported_status)) [
  | inl q ↦ simp q refl
  | inr q ↦ simp q refl
]

-- What is known of an entry that has just been sighted.
abbrev IsSighted : Hash → List StaleBlockEntry → StaleBlockEntry → Type 0
IsSighted h out e =
    (e.blockhash ≡ h)
    × (((e.last_exported_status ≡ none) × (statuses h out ≡ []))
        ⊎ ((old : HeaderStatus) × (e.last_exported_status ≡ some old)
            × (status_rank old ≤ status_rank e.status)
            × IsRise old (statuses h out)))

sighted-IsSighted :
    (s : Sighting) (out : List StaleBlockEntry) (o : Option StaleBlockEntry) (dirty : Bool)
    → IsReported s.blockhash out o
    → IsSighted s.blockhash out (sighted s o dirty).0
unfolding sighted new_entry
sighted-IsSighted s out none dirty i = (refl, inl (refl, i))
sighted-IsSighted s out (some e) dirty (same, last, w) =
    let (a, b, c) = update_entry-Keeps s e dirty in (a ∙ same, inr (e.status, b ∙ last, c, w))

statuses-other :
    (k h : Hash) (e : StaleBlockEntry) (out : List StaleBlockEntry) (new : Bool)
    → e.blockhash ≡ h
    → k ≢ h
    → statuses k (if new then out ++ e ∷ [] else out) ≡ statuses k out
statuses-other k h e out new same ne =
    ground (arith, statuses-append k out (e ∷ []), append-nil (statuses k out))

statuses_self :
    (h : Hash) (e : StaleBlockEntry) (out : List StaleBlockEntry) (new : Bool)
    → e.blockhash ≡ h
    → statuses h (if new then out ++ e ∷ [] else out)
      ≡ (if new then statuses h out ++ e.status ∷ [] else statuses h out)
statuses_self h e out new same = ground (arith, statuses-append h out (e ∷ []))

export-AllReported :
    (h : Hash) (e : StaleBlockEntry) (l : Ledger)
    → Dict.get h l.registry.entries ≡ some e
    → IsSighted h l.exported e
    → ((k : Hash) → k ≢ h → IsReported k l.exported (Dict.get k l.registry.entries))
    → AllReported (export_if_new h e l)
export-AllReported h e l g (same, w) others k =
    let new = unlike e.status e.last_exported_status in
    let out = if new then l.exported ++ e ∷ [] else l.exported in
    subst (λ es. IsReported k es (Dict.get k (export_if_new h e l).registry.entries))
      (sym (exported_if_new h e l))
      (subst (λ o. IsReported k out o) (sym (get-export k h e l g))
        (elim (string_eq.dec k h) [
          | yes q ↦
              subst
                (λ j.
                  IsReported j out
                    (if j == h then some (with_export e) else Dict.get j l.registry.entries))
                (sym q)
                (subst (λ o. IsReported h out o) (self h)
                  (
                    same,
                    refl,
                    rise e.last_exported_status (statuses h l.exported) (statuses h out) e.status w
                        (statuses_self h e l.exported new same),
                  ))
          | no n ↦
              subst (λ o. IsReported k out o) (other k h n)
                (elsewhere (Dict.get k l.registry.entries)
                  (statuses-other k h e l.exported new same n) (others k n))
        ]))
  where
    self :
        (h : Hash)
        → some (with_export e)
          ≡ (if h == h then some (with_export e) else Dict.get h l.registry.entries)
    self h = ground arith

    other :
        (k h : Hash)
        → k ≢ h
        → Dict.get k l.registry.entries
          ≡ (if k == h then some (with_export e) else Dict.get k l.registry.entries)
    other k h n = ground arith

    elsewhere :
        (o : Option StaleBlockEntry)
        → statuses k
            (if unlike e.status e.last_exported_status then l.exported ++ e ∷ [] else l.exported)
          ≡ statuses k l.exported
        → IsReported k l.exported o
        → IsReported k
            (if unlike e.status e.last_exported_status then l.exported ++ e ∷ [] else l.exported)
            o
    elsewhere none q i = q ∙ i
    elsewhere (some f) q (a, b, c) = (a, b, subst (IsRise f.status) (sym q) c)

-- One sighting.
pub ingest-AllReported : (s : Sighting) (l : Ledger) → AllReported l → AllReported (ingest s l)
unfolding ingest upsert_sighting
ingest-AllReported s l i =
    let (e, dirty) = sighted s (Dict.get s.blockhash l.registry.entries) l.registry.dirty in
    let entries = Dict.insert s.blockhash e l.registry.entries in
    export-AllReported s.blockhash e
      (record l { registry = record l.registry { entries = entries; dirty = dirty } })
      (Dict.get-insert_self s.blockhash e l.registry.entries)
      (sighted-IsSighted s l.exported (Dict.get s.blockhash l.registry.entries) l.registry.dirty
        (i s.blockhash))
      (λ k n.
        subst (IsReported k l.exported)
          (sym (Dict.get-insert_ne k s.blockhash e l.registry.entries n)) (i k))

flush-AllReported : (l : Ledger) → AllReported l → AllReported (flush_ledger l)
flush-AllReported l i k =
    subst (λ d. IsReported k l.exported (Dict.get k d)) (sym (flush-entries l.registry)) (i k)

module _ ⦃codec : HeaderCodec⦄ (now : String) where
  tips-AllReported :
      (tips : List Tip) (l : Ledger) → AllReported l → AllReported (ingest_tips now tips l)
  unfolding ingest_tips ingest_sighting
  tips-AllReported [] l i = i
  tips-AllReported (t ∷ ts) l i = tips-AllReported ts _ (ingest-AllReported _ l i)

  row-AllReported :
      (b : Bool) (l l' : Ledger)
      → AllReported l
      → AllReported l'
      → AllReported (if b then l else l')
  row-AllReported true l l' i j = i
  row-AllReported false l l' i j = j

  rows-AllReported :
      (rows : List HeaderRow) (l : Ledger) → AllReported l → AllReported (ingest_rows now rows l)
  unfolding ingest_rows ingest_sighting
  rows-AllReported [] l i = i
  rows-AllReported (r ∷ rs) l i =
      rows-AllReported rs _ (row-AllReported _ l _ i (ingest-AllReported _ l i))

  poll-AllReported :
      (polled : Result (List Tip)) (l : Ledger)
      → AllReported l
      → AllReported (run_node_poll now polled l).1
  unfolding run_node_poll
  poll-AllReported (raised e) l i = i
  poll-AllReported (returned tips) l i =
      flush-AllReported (ingest_tips now (stale_tips tips) l)
        (tips-AllReported (stale_tips tips) l i)

  pull-AllReported :
      (pulled : Result (List HeaderRow)) (l : Ledger)
      → AllReported l
      → AllReported (run_github_pull now pulled l).1
  unfolding run_github_pull
  pull-AllReported (raised e) l i = i
  pull-AllReported (returned rows) l i =
      flush-AllReported (ingest_rows now rows l) (rows-AllReported rows l i)

  -- A poll and then a pull, failed or not.
  pub polls-AllReported :
      (polled : Result (List Tip)) (pulled : Result (List HeaderRow)) (l : Ledger)
      → AllReported l
      → AllReported (run_github_pull now pulled (run_node_poll now polled l).1).1
  polls-AllReported polled pulled l i =
      pull-AllReported pulled (run_node_poll now polled l).1 (poll-AllReported polled l i)
