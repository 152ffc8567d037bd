-- ===== src/PriceGap/Dates.antt =====
-- Lists of dates without repetition (for api/price_gap_backfill.py under btc_parser_app).
use bitcoin_data_exporter.Common.{
  ℕ, ◌≡◌, refl, sym, ap, ◌∙◌, true, false, ◌||◌, List, [], ◌∷◌, ◌++◌, append_assoc, arith, nat_eq,
  string_eq, contains,
}
use bitcoin_data_exporter.PriceGap.{Price, existing_dates_of}

-- No date occurs twice.
abbrev pub NoRepeats : List ℕ → Type 0
NoRepeats [] = Unit
NoRepeats (x ∷ xs) = (contains xs x ≡ false) × NoRepeats xs

pub contains-append :
    (xs ys : List ℕ) (d : ℕ) → contains (xs ++ ys) d ≡ (contains xs d || contains ys d)
contains-append [] ys d = refl
contains-append (x ∷ xs) ys d = ground (arith, contains-append xs ys d)

pub snoc-NoRepeats :
    (xs : List ℕ) (d : ℕ) → NoRepeats xs → contains xs d ≡ false → NoRepeats (xs ++ d ∷ [])
snoc-NoRepeats [] d n h = (refl, tt)
snoc-NoRepeats (x ∷ xs) d n h = (
  ground (arith, n.0, h, contains-append xs (d ∷ []) x),
  snoc-NoRepeats xs d n.1 (ground (arith, h)),
)

pub NoRepeats-first : (xs ys : List ℕ) → NoRepeats (xs ++ ys) → NoRepeats xs
NoRepeats-first [] ys n = tt
NoRepeats-first (x ∷ xs) ys n =
    (ground (arith, n.0, contains-append xs ys x), NoRepeats-first xs ys n.1)

pub contains-snoc :
    (xs : List ℕ) (d e : ℕ) → contains xs e ≡ true → contains (xs ++ d ∷ []) e ≡ true
contains-snoc xs d e h = ground (arith, contains-append xs (d ∷ []) e, h)

pub contains-snoc_self : (xs : List ℕ) (d : ℕ) → contains (xs ++ d ∷ []) d ≡ true
contains-snoc_self xs d = ground (arith, contains-append xs (d ∷ []) d)

pub dates-append :
    {P : Type 0} (ps qs : List (Price P))
    → existing_dates_of (ps ++ qs) ≡ existing_dates_of ps ++ existing_dates_of qs
unfolding existing_dates_of
dates-append [] qs = refl
dates-append (p ∷ ps) qs = ap (λ ds. p.date_unix ∷ ds) (dates-append ps qs)

-- A price that is appended to the rows that are waiting.
pub dates-add :
    {P : Type 0} (ds : List ℕ) (ps qs : List (Price P)) (p : Price P)
    → ds ≡ existing_dates_of (ps ++ qs)
    → ds ++ p.date_unix ∷ [] ≡ existing_dates_of (ps ++ (qs ++ p ∷ []))
unfolding existing_dates_of
dates-add ds ps qs p h =
    ap (λ xs. xs ++ p.date_unix ∷ []) h
    ∙ sym (dates-append (ps ++ qs) (p ∷ []))
    ∙ ap existing_dates_of (append_assoc ps qs (p ∷ []))
