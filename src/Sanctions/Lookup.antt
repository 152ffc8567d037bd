-- ===== src/Sanctions/Lookup.antt =====
-- What the list of rpc/sanctions_list.py (under btc_parser_app) answers, and what a reload keeps.
use bitcoin_data_exporter.Common.{
  ℕ, ◌≡◌, refl, sym, ap, ◌∙◌, ◌≢◌, inl, inr, Bool, true, false, not, ◌&&◌, Option, none, some, List,
  [], ◌∷◌, arith, if◌then◌else◌, Bool-cases, or_else, ◌==◌, nat_eq, string_eq, is_empty, is_some,
}
use bitcoin_data_exporter.Common.Dict
use bitcoin_data_exporter.Common.Dict.{Dict, dict_laws}
use bitcoin_data_exporter.Sanctions.{
  Text, text_eq, Row, SanctionedAddress, ListFile, broken, listed, SanctionsList, Files, Reload,
  new_list, no_change, raises, normalize_address, entry_of, set_default, load_rows, merge,
  load_files, take_files, check_mtimes, reload_if_changed, lookup,
}

-- The first row of a file with an address, and of all files in their order.
unfoldable pub first_row : Text → Text → List Row → Option SanctionedAddress
first_row k list_file [] = none
first_row k list_file (row ∷ rows) =
    let rest = first_row k list_file rows in
    let address = normalize_address row.address in
    if not (is_empty address) && k == address then some (entry_of list_file row) else rest

unfoldable pub first_listed : Text → List ListFile → Option SanctionedAddress
unfolding first_row
first_listed k [] = none
first_listed k (broken ∷ files) = first_listed k files
first_listed k (listed list_file rows ∷ files) =
    or_else (first_row k list_file rows) (first_listed k files)

or_else_assoc : {A : Type 0} (a b c : Option A) → or_else (or_else a b) c ≡ or_else a (or_else b c)
or_else_assoc none b c = refl
or_else_assoc (some a) b c = refl

get-set_default :
    (j k : Text) (e : SanctionedAddress) (d : Dict Text SanctionedAddress)
    → Dict.get j (set_default k e d) ≡ or_else (Dict.get j d) (if j == k then some e else none)
unfolding set_default
get-set_default j k e d = ground (arith, Dict.get-insert j k e d)

or_else-none : {A : Type 0} (a : Option A) → a ≡ or_else a none
or_else-none none = refl
or_else-none (some a) = refl

after_default :
    (b : Bool) (o rest : Option SanctionedAddress) (e : SanctionedAddress)
    (new : Option SanctionedAddress)
    → new ≡ or_else o (if b then some e else none)
    → or_else new rest ≡ or_else o (if b then some e else rest)
after_default true none rest e new h = ap (λ n. or_else n rest) h
after_default false none rest e new h = ap (λ n. or_else n rest) h
after_default b (some x) rest e new h = ap (λ n. or_else n rest) h

get-load_rows :
    (k list_file : Text) (rows : List Row) (d : Dict Text SanctionedAddress)
    → Dict.get k (load_rows list_file rows d) ≡ or_else (Dict.get k d) (first_row k list_file rows)
unfolding load_rows first_row
get-load_rows k list_file [] d = or_else-none (Dict.get k d)
get-load_rows k list_file (row ∷ rows) d =
    let a = normalize_address row.address in
    let e = entry_of list_file row in
    elim (Bool-cases (is_empty a)) [
      | inl h ↦ simp h (get-load_rows k list_file rows d)
      | inr h ↦ simp h (
          get-load_rows k list_file rows (set_default a e d)
          ∙ after_default (k == a) (Dict.get k d) (first_row k list_file rows) e
              (Dict.get k (set_default a e d)) (get-set_default k a e d))
    ]

get-merge :
    (k : Text) (es d : Dict Text SanctionedAddress)
    → Dict.get k (merge es d) ≡ or_else (Dict.get k d) (Dict.get k es)
unfolding merge Dict.get
get-merge k [] d = or_else-none (Dict.get k d)
get-merge k ((j, e) ∷ es) d =
    get-merge k es (set_default j e d)
    ∙ after_default (k == j) (Dict.get k d) (Dict.get k es) e (Dict.get k (set_default j e d))
        (get-set_default k j e d)

get-load_files :
    (k : Text) (files : List ListFile) (d m : Dict Text SanctionedAddress)
    → load_files files d ≡ some m
    → Dict.get k m ≡ or_else (Dict.get k d) (first_listed k files)
unfolding load_files first_listed
get-load_files k [] d m h = ap (Dict.get k) (sym (same d m h)) ∙ or_else-none (Dict.get k d)
  where
    same : (d m : Dict Text SanctionedAddress) → some d ≡ some m → d ≡ m
    same d m h = cc
get-load_files k (broken ∷ files) d m h = absurd (ground (arith, h))
get-load_files k (listed list_file rows ∷ files) d m h =
    get-load_files k files (merge (load_rows list_file rows []) d) m h
    ∙ ap (λ o. or_else o (first_listed k files))
        (get-merge k (load_rows list_file rows []) d
          ∙ ap (or_else (Dict.get k d)) (
              get-load_rows k list_file rows []
              ∙ ap (λ o. or_else o (first_row k list_file rows)) (Dict.get-nil k)))
    ∙ or_else_assoc (Dict.get k d) (first_row k list_file rows) (first_listed k files)

-- What a reload leaves: a new list only if every file could be read.
data Leaves (f : Files) (s : SanctionsList) : Reload × SanctionsList → Type 0 where
  renewed :
      (times : List ℕ) (m : Dict Text SanctionedAddress)
      → f.mtimes ≡ some times
      → load_files f.files [] ≡ some m
      → Leaves f s (new_list, record { entries = m; mtimes = times })
  kept : (r : Reload) (t : SanctionsList) → r ≢ new_list → t.entries ≡ s.entries → Leaves f s (r, t)

take_files-Leaves :
    (f : Files) (force : Bool) (times : List ℕ) (o : Option (Dict Text SanctionedAddress))
    (s : SanctionsList)
    → f.mtimes ≡ some times
    → load_files f.files [] ≡ o
    → Leaves f s (take_files force times o s)
unfolding take_files
take_files-Leaves f force times (some m) s e h = renewed times m e h
take_files-Leaves f true times none s e h = kept raises s (λ q. absurd (ground arith)) refl
take_files-Leaves f false times none s e h = kept no_change _ (λ q. absurd (ground arith)) refl

check_mtimes-Leaves :
    (force : Bool) (f : Files) (times : Option (List ℕ)) (s : SanctionsList)
    → f.mtimes ≡ times
    → Leaves f s (check_mtimes force f.files times s)
unfolding check_mtimes
check_mtimes-Leaves true f none s e = kept raises s (λ q. absurd (ground arith)) refl
check_mtimes-Leaves false f none s e = kept no_change s (λ q. absurd (ground arith)) refl
check_mtimes-Leaves force f (some times) s e = elim (Bool-cases (not force && times == s.mtimes)) [
  | inl h ↦ simp h (kept no_change s (λ q. absurd (ground arith)) refl)
  | inr h ↦ simp h (take_files-Leaves f force times (load_files f.files []) s e refl)
]

listed_after :
    (f : Files) (s : SanctionsList) (r : Reload × SanctionsList) (k : Text)
    → Leaves f s r
    → r.0 ≡ new_list
    → Dict.get k r.1.entries ≡ first_listed k f.files
unfolding Dict.get
listed_after f s r k (renewed times m e h) q = get-load_files k f.files [] m h
listed_after f s r k (kept o t n e) q = absurd (n q)

-- After a reload that has taken a new list, the list answers for an address with the first row that has it,
-- over all files in their order, up to white space around it and the case of a bech32 address, and with
-- nothing where no row has it. The address asked for is not empty.
pub lookup-reload_if_changed :
    (force : Bool) (f : Files) (s : SanctionsList) (a : Text)
    → is_empty a ≡ false
    → (reload_if_changed force f s).0 ≡ new_list
    → lookup (some a) (reload_if_changed force f s).1 ≡ first_listed (normalize_address a) f.files
unfolding lookup reload_if_changed
lookup-reload_if_changed force f s [] n h = absurd (ground (arith, n))
lookup-reload_if_changed force f s (c ∷ t) n h =
    listed_after f s (check_mtimes force f.files f.mtimes s) (normalize_address (c ∷ t))
      (check_mtimes-Leaves force f f.mtimes s refl) h

same_lookup :
    (a : Option Text) (s t : SanctionsList) → t.entries ≡ s.entries → lookup a t ≡ lookup a s
unfolding lookup
same_lookup none s t h = refl
same_lookup (some []) s t h = refl
same_lookup (some (c ∷ a)) s t h = ap (Dict.get (normalize_address (c ∷ a))) h

-- Some file is broken.
abbrev pub has_broken : List ListFile → Bool
has_broken [] = false
has_broken (broken ∷ files) = true
has_broken (listed list_file rows ∷ files) = has_broken files

load-broken :
    (files : List ListFile) (d : Dict Text SanctionedAddress)
    → has_broken files ≡ true
    → load_files files d ≡ none
unfolding load_files
load-broken [] d h = absurd (ground (arith, h))
load-broken (broken ∷ files) d h = refl
load-broken (listed list_file rows ∷ files) d h =
    load-broken files (merge (load_rows list_file rows []) d) h

-- A reload that refuses the files.
abbrev Refuses : Bool → SanctionsList → Reload × SanctionsList → Type 0
Refuses force s r = (r.0 ≡ (if force then raises else no_change)) × (r.1.entries ≡ s.entries)

take_none :
    (force : Bool) (times : List ℕ) (o : Option (Dict Text SanctionedAddress)) (s : SanctionsList)
    → o ≡ none
    → Refuses force s (take_files force times o s)
unfolding take_files
take_none force times (some m) s h = absurd (ground (arith, h))
take_none true times none s h = (refl, refl)
take_none false times none s h = (refl, refl)

check_mtimes-Refuses :
    (force : Bool) (files : List ListFile) (times : Option (List ℕ)) (s : SanctionsList)
    → (is_some times && not (has_broken files)) ≡ false
    → Refuses force s (check_mtimes force files times s)
unfolding check_mtimes
check_mtimes-Refuses true files none s h = (refl, refl)
check_mtimes-Refuses false files none s h = (refl, refl)
check_mtimes-Refuses true files (some times) s h =
    take_none true times (load_files files []) s (load-broken files [] (ground (arith, h)))
check_mtimes-Refuses false files (some times) s h = elim (Bool-cases (times == s.mtimes)) [
  | inl e ↦ simp e (refl, refl)
  | inr e ↦
      simp e
        (take_none false times (load_files files []) s (load-broken files [] (ground (arith, h))))
]

-- Where some file is broken, or the time of change of one cannot be had, no new list is taken: a forced
-- reload raises, any other says that nothing has changed, and the answers for all addresses are as they
-- were, also for the addresses of the files that could be read.
pub reload_if_changed-keeps :
    (force : Bool) (f : Files) (s : SanctionsList) (a : Option Text)
    → (is_some f.mtimes && not (has_broken f.files)) ≡ false
    → let (r, t) = reload_if_changed force f s in
      (r ≡ (if force then raises else no_change)) × (lookup a t ≡ lookup a s)
unfolding reload_if_changed
reload_if_changed-keeps force f s a h =
    let (r, same) = check_mtimes-Refuses force f.files f.mtimes s h in
    (r, same_lookup a s (check_mtimes force f.files f.mtimes s).1 same)
