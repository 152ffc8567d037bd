-- ===== src/ReorgState/Status/Durable.antt =====
-- What block_status.csv says after `flush` is what a restart reads back.
use bitcoin_data_exporter.Common.{
  ℕ, ◌≡◌, refl, ap, ◌∙◌, inl, inr, Bool, true, false, ◌&&◌, Option, none, some, List, [], ◌∷◌,
  arith, if◌then◌else◌, Bool-cases, is_some, Eq, ◌==◌, nat_eq, string_eq, pair_eq,
}
use bitcoin_data_exporter.Common.Dict
use bitcoin_data_exporter.Common.Dict.{Dict, dict_laws}
use bitcoin_data_exporter.ReorgState.Index.{Hash}
use bitcoin_data_exporter.ReorgState.Status.{
  BlockStatusStore, load_rows, open_status, differs, put_canonical, set_canonical,
  set_canonical_if_present, before, insert_entry, sorted_entries, status_rows, flush,
}

-- Keys stand once, and while nothing is dirty the file answers like the memory.
pub record IsSynced (s : BlockStatusStore) : Type 0 where
  pub nodup : Dict.NodupKeys s.entries
  pub clean :
      s.dirty ≡ false → (k : ℕ × Hash) → Dict.get k (load_rows s.file []) ≡ Dict.get k s.entries

get-cons :
    {K V : Type 0} ⦃e : Eq K⦄ (k j i : K) (v w : V) (d' d : Dict K V)
    → Dict.get j ((i, w) ∷ d) ≡ none
    → (Dict.get j d ≡ none → Dict.get k d' ≡ (if k == j then some v else Dict.get k d))
    → Dict.get k ((i, w) ∷ d') ≡ (if k == j then some v else Dict.get k ((i, w) ∷ d))
unfolding Dict.get
get-cons k j i v w d' d h ih = ground (arith, ih)

get-insert_entry :
    (k j : ℕ × Hash) (v : Bool) (d : Dict (ℕ × Hash) Bool)
    → Dict.get j d ≡ none
    → Dict.get k (insert_entry (j, v) d) ≡ (if k == j then some v else Dict.get k d)
unfolding Dict.get insert_entry
get-insert_entry k j v [] h = refl
get-insert_entry k j v ((i, w) ∷ d) h = elim (Bool-cases (before j i)) [
  | inl e ↦ rw e refl
  | inr e ↦ rw e (get-cons k j i v w (insert_entry (j, v) d) d h (get-insert_entry k j v d))
]

insert_entry-NodupKeys :
    (j : ℕ × Hash) (v : Bool) (d : Dict (ℕ × Hash) Bool)
    → Dict.get j d ≡ none
    → Dict.NodupKeys d
    → Dict.NodupKeys (insert_entry (j, v) d)
unfolding Dict.get insert_entry
insert_entry-NodupKeys j v [] h n = (refl, tt)
insert_entry-NodupKeys j v ((i, w) ∷ d) h n =
    ground (arith, insert_entry-NodupKeys j v d, get-insert_entry i j v d)

sorted_entries_lem :
    (d : Dict (ℕ × Hash) Bool)
    → Dict.NodupKeys d
    → Dict.NodupKeys (sorted_entries d)
      × ((k : ℕ × Hash) → Dict.get k (sorted_entries d) ≡ Dict.get k d)
unfolding sorted_entries Dict.get
sorted_entries_lem [] n = (tt, (λ k. refl))
sorted_entries_lem ((j, v) ∷ d) (fresh, n) =
    let (nodup, same) = sorted_entries_lem d n in
    (
      insert_entry-NodupKeys j v (sorted_entries d) (same j ∙ fresh) nodup,
      (λ k. get-insert_entry k j v (sorted_entries d) (same j ∙ fresh) ∙ ground (arith, same k)),
    )

load_rows-status_rows : (e d : Dict (ℕ × Hash) Bool) → load_rows (status_rows e) d ≡ Dict.update e d
unfolding load_rows status_rows Dict.update
load_rows-status_rows [] d = refl
load_rows-status_rows ((k, c) ∷ e) d = load_rows-status_rows e (Dict.insert k c d)

load-sorted :
    (d : Dict (ℕ × Hash) Bool)
    → Dict.NodupKeys d
    → (k : ℕ × Hash) → Dict.get k (load_rows (status_rows (sorted_entries d)) []) ≡ Dict.get k d
load-sorted d n k =
    let (nodup, same) = sorted_entries_lem d n in
    ap (Dict.get k) (load_rows-status_rows (sorted_entries d) [])
    ∙ Dict.get-update k (sorted_entries d) [] nodup
    ∙ ground (arith, same k, Dict.get-nil {V = Bool} k)

-- The calls made on the store.
pub data Op : Type 0 where
  mark : ℕ → Hash → Bool → Op
  confirm : ℕ → Hash → Bool → Op
  persist : Op

unfoldable pub step : Op → BlockStatusStore → BlockStatusStore
step (mark h b c) s = set_canonical h b c s
step (confirm h b c) s = set_canonical_if_present h b c s
step persist s = flush s

unfoldable pub steps : List Op → BlockStatusStore → BlockStatusStore
unfolding step
steps [] s = s
steps (o ∷ os) s = steps os (step o s)

-- What one call makes of the flag of one block.
unfoldable pub said : ℕ × Hash → Op → Option Bool → Option Bool
said k (mark h b c) flag = if k == (h, b) then some c else flag
said k (confirm h b c) flag = if k == (h, b) && is_some flag then some c else flag
said k persist flag = flag

unfoldable pub said_all : ℕ × Hash → List Op → Option Bool → Option Bool
unfolding said
said_all k [] flag = flag
said_all k (o ∷ os) flag = said_all k os (said k o flag)

same-differs : (o : Option Bool) (c : Bool) → differs o c ≡ false → o ≡ some c
unfolding differs
same-differs none c h = absurd (ground arith)
same-differs (some true) true h = refl
same-differs (some true) false h = absurd (ground arith)
same-differs (some false) true h = absurd (ground arith)
same-differs (some false) false h = refl

is_some-get : {A : Type 0} (o : Option A) → is_some o ≡ false → o ≡ none
is_some-get none h = refl
is_some-get (some a) h = absurd (ground arith)

put-IsSynced :
    (h : ℕ) (b : Hash) (c : Bool) (s : BlockStatusStore)
    → IsSynced s
    → IsSynced (put_canonical h b c s)
unfolding put_canonical
put-IsSynced h b c s i = record {
  nodup = Dict.insert-NodupKeys (h, b) c s.entries i.nodup;
  clean = λ e k. absurd (ground arith);
}

pub flush-IsSynced : (s : BlockStatusStore) → IsSynced s → IsSynced (flush s)
unfolding flush
flush-IsSynced s i = elim (Bool-cases s.dirty) [
  | inl e ↦ simp e (record { nodup = i.nodup; clean = λ _. load-sorted s.entries i.nodup })
  | inr e ↦ simp e i
]

pub step-IsSynced : (o : Op) (s : BlockStatusStore) → IsSynced s → IsSynced (step o s)
unfolding step set_canonical set_canonical_if_present
step-IsSynced (mark h b c) s i = elim (Bool-cases (differs (Dict.get (h, b) s.entries) c)) [
  | inl e ↦ simp e (put-IsSynced h b c s i)
  | inr e ↦ simp e i
]
step-IsSynced (confirm h b c) s i =
    elim (Bool-cases (Dict.has (h, b) s.entries && differs (Dict.get (h, b) s.entries) c)) [
      | inl e ↦ simp e (put-IsSynced h b c s i)
      | inr e ↦ simp e i
    ]
step-IsSynced persist s i = flush-IsSynced s i

-- `flush` leaves the memory alone.
pub flush-entries : (s : BlockStatusStore) → (flush s).entries ≡ s.entries
unfolding flush
flush-entries s = elim (Bool-cases s.dirty) [ inl e ↦ simp e refl | inr e ↦ simp e refl ]

pub step-said :
    (k : ℕ × Hash) (o : Op) (s : BlockStatusStore)
    → Dict.get k (step o s).entries ≡ said k o (Dict.get k s.entries)
unfolding step said set_canonical set_canonical_if_present put_canonical
step-said k (mark h b c) s =
    ground (arith, Dict.get-insert k (h, b) c s.entries, same-differs (Dict.get (h, b) s.entries) c)
step-said k (confirm h b c) s = ground (
  arith,
  Dict.get-insert k (h, b) c s.entries,
  same-differs (Dict.get (h, b) s.entries) c,
  is_some-get (Dict.get (h, b) s.entries),
)
step-said k persist s = ap (Dict.get k) (flush-entries s)

steps-IsSynced : (os : List Op) (s : BlockStatusStore) → IsSynced s → IsSynced (steps os s)
unfolding steps
steps-IsSynced [] s i = i
steps-IsSynced (o ∷ os) s i = steps-IsSynced os (step o s) (step-IsSynced o s i)

steps-said :
    (k : ℕ × Hash) (os : List Op) (s : BlockStatusStore)
    → Dict.get k (steps os s).entries ≡ said_all k os (Dict.get k s.entries)
unfolding steps said_all
steps-said k [] s = refl
steps-said k (o ∷ os) s = steps-said k os (step o s) ∙ ap (said_all k os) (step-said k o s)

pub flush-clean : (s : BlockStatusStore) → (flush s).dirty ≡ false
unfolding flush
flush-clean s = elim (Bool-cases s.dirty) [ inl e ↦ simp e refl | inr e ↦ simp e refl ]

-- After any calls of set_canonical, set_canonical_if_present and flush on a synced store, a last flush
-- and a restart, the store answers for every block what the calls said of it in their order: a mark
-- sets the flag, a confirmation only a flag that is there, and a flush changes none.
pub flush-reload :
    (k : ℕ × Hash) (os : List Op) (s : BlockStatusStore)
    → IsSynced s
    → Dict.get k (open_status (flush (steps os s)).file).entries
      ≡ said_all k os (Dict.get k s.entries)
unfolding open_status
flush-reload k os s i =
    (flush-IsSynced (steps os s) (steps-IsSynced os s i)).clean (flush-clean (steps os s)) k
    ∙ ap (Dict.get k) (flush-entries (steps os s))
    ∙ steps-said k os s
