-- ===== src/PriceGap/Sound.antt =====
-- The backfill keeps its files sound (api/price_gap_backfill.py under btc_parser_app): what a
-- round keeps, no minute is written twice, and what the checkpoint has passed is there.
use bitcoin_data_exporter.Common.{
  ℕ, suc, ◌+◌, ◌*◌, ◌<◌, ◌≡◌, refl, sym, ap, ◌∙◌, ◌≢◌, inl, inr, true, ◌||◌, Option, none, some,
  List, [], ◌∷◌, ◌++◌, append-nil, append_assoc, arith, leb, Bool-cases, ◌==◌, nat_eq, string_eq,
  contains, All, All-append,
}
use bitcoin_data_exporter.Common.{subst}
use bitcoin_data_exporter.PriceGap.{
  Price, Entry, Fetched, rate_limited, fetch_error, no_price, priced, ExitCode, completed, Disk,
  Run, Outside, existing_dates_of, observe, append_rows, flush, add_price, advance, round,
}
use bitcoin_data_exporter.PriceGap.Dates.{
  NoRepeats, NoRepeats-first, contains-append, snoc-NoRepeats, contains-snoc, contains-snoc_self,
  dates-append, dates-add,
}

-- What an answer says of a timestamp whose first entry in the data has this date.
abbrev pub Agrees : {P : Type 0} → Option ℕ → Fetched P → Type 0
Agrees w rate_limited = Unit
Agrees w fetch_error = Unit
Agrees w no_price = w ≡ none
Agrees w (priced e) = w ≡ e.time

same_pair :
    (a b c d : ℕ) (o : Option (ℕ × ℕ)) → o ≡ some (a, b) → o ≡ some (c, d) → (a ≡ c) × (b ≡ d)
same_pair a b c d o p q = (cc, cc)

same_date : (a b : ℕ) (o : Option ℕ) → o ≡ some a → o ≡ some b → a ≡ b
same_date a b o p q = cc

module _ (wanted : ℕ → Option ℕ) where
  -- The dates of the first `m` timestamps from `start` on are there.
  abbrev pub Gets : ℕ → ℕ → List ℕ → Type 0
  Gets start m dates =
      (k d : ℕ) → k < m → wanted (start + 60 * k) ≡ some d → contains dates d ≡ true

  -- No date is there twice, and the checkpoint has only passed timestamps whose date is there.
  pub record IsSound {P : Type 0} (d : Disk P) : Type 0 where
    pub once : NoRepeats (existing_dates_of d.prices)
    pub covered :
        (start next : ℕ)
        → d.checkpoint ≡ some (start, next)
        → (m : ℕ) × (next ≡ start + 60 * m) × Gets start m (existing_dates_of d.prices)

  -- The same of a run that has done `m` timestamps.
  pub record IsAt {P : Type 0} (start m : ℕ) (s : Run P) : Type 0 where
    pub existing : s.existing_dates ≡ existing_dates_of (s.disk.prices ++ s.pending_rows)
    pub once : NoRepeats s.existing_dates
    pub next : s.next_timestamp ≡ start + 60 * m
    pub gets : Gets start m s.existing_dates
    pub sound : IsSound s.disk
    pub passed : All IsSound s.passed

  Gets-append : (start m : ℕ) (xs ys : List ℕ) → Gets start m xs → Gets start m (xs ++ ys)
  Gets-append start m xs ys g k d less w = ground (arith, g k d less w, contains-append xs ys d)

  -- One more timestamp.
  step-Gets :
      (start m : ℕ) (xs ys : List ℕ)
      → Gets start m xs
      → ((d : ℕ) → contains xs d ≡ true → contains ys d ≡ true)
      → ((d : ℕ) → wanted (start + 60 * m) ≡ some d → contains ys d ≡ true)
      → Gets start (suc m) ys
  step-Gets start m xs ys g keeps new k d less w = elim (Bool-cases (k == m)) [
    | inl e ↦ new d (subst (λ n. wanted (start + 60 * n) ≡ some d) (ground (arith, e)) w)
    | inr e ↦ keeps d (g k d (ground (arith, less, e)) w)
  ]

  module _ {P : Type 0} where
    -- The rows of some more minutes, before the checkpoint is written.
    more-IsSound :
        (d : Disk P) (ps : List (Price P))
        → NoRepeats (existing_dates_of (d.prices ++ ps))
        → IsSound d
        → IsSound (record d { prices = d.prices ++ ps })
    more-IsSound d ps unique i = record {
      once = unique;
      covered = λ a b e.
          let (n, q, g) = i.covered a b e in
          (n, q, subst (Gets a n) (sym (dates-append d.prices ps)) (Gets-append a n _ _ g));
    }

    append_rows-IsSound :
        (d : Disk P) (ps : List (Price P))
        → NoRepeats (existing_dates_of (d.prices ++ ps))
        → IsSound d
        → All IsSound (append_rows d ps)
    unfolding append_rows
    append_rows-IsSound d [] unique i = tt
    append_rows-IsSound d (p ∷ ps) unique i =
        let split : NoRepeats (existing_dates_of ((d.prices ++ p ∷ []) ++ ps)) =
          subst (λ qs. NoRepeats (existing_dates_of qs)) (sym (append_assoc d.prices (p ∷ []) ps))
            unique in
        let now =
          more-IsSound d (p ∷ [])
            (NoRepeats-first _ (existing_dates_of ps)
              (subst NoRepeats (dates-append (d.prices ++ p ∷ []) ps) split))
            i in
        (now, append_rows-IsSound (record d { prices = d.prices ++ p ∷ [] }) ps split now)

    pub flush-IsAt : (start m : ℕ) (s : Run P) → IsAt start m s → IsAt start m (flush start s)
    unfolding flush
    flush-IsAt start m s i =
        let dates = existing_dates_of (s.disk.prices ++ s.pending_rows) in
        let unique : NoRepeats dates = subst NoRepeats i.existing i.once in
        let here : Gets start m dates = subst (Gets start m) i.existing i.gets in
        let saved : IsSound (flush start s).disk = record {
          once = unique;
          covered = λ a b e.
              saved_covered start m s i here a b
                (same_pair start s.next_timestamp a b (some (start, s.next_timestamp)) refl e);
        } in
        record {
          existing = i.existing ∙ ap existing_dates_of (sym (append-nil _));
          once = i.once;
          next = i.next;
          gets = i.gets;
          sound = saved;
          passed = All-append IsSound s.passed _ i.passed (
              All-append IsSound (append_rows s.disk s.pending_rows) _
                (append_rows-IsSound s.disk s.pending_rows unique i.sound) (saved, tt));
        }
      where
        saved_covered :
            (start m : ℕ) (s : Run P)
            → IsAt start m s
            → Gets start m (existing_dates_of (s.disk.prices ++ s.pending_rows))
            → (a b : ℕ) → (start ≡ a) × (s.next_timestamp ≡ b)
            → (n : ℕ) × (b ≡ a + 60 * n)
              × Gets a n (existing_dates_of (s.disk.prices ++ s.pending_rows))
        saved_covered start m s i here a b (p, q) = (
          m,
          omega (arith, p, q, i.next),
          subst (λ c. Gets c m (existing_dates_of (s.disk.prices ++ s.pending_rows))) p here,
        )

    -- A run that has taken the answer for its timestamp, but not gone on to the next one.
    record IsTaken (start m : ℕ) (s : Run P) : Type 0 where
      existing : s.existing_dates ≡ existing_dates_of (s.disk.prices ++ s.pending_rows)
      once : NoRepeats s.existing_dates
      next : s.next_timestamp ≡ start + 60 * m
      gets : Gets start (suc m) s.existing_dates
      sound : IsSound s.disk
      passed : All IsSound s.passed

    advance-IsAt :
        (o : Outside P) (start m : ℕ) (s : Run P)
        → IsTaken start m s
        → IsAt start (suc m) (advance o start s)
    unfolding advance
    advance-IsAt o start m s i =
        let t = record s {
          next_timestamp = s.next_timestamp + 60;
          steps_since_flush = s.steps_since_flush + 1;
        } in
        let at : IsAt start (suc m) t = record {
          existing = i.existing;
          once = i.once;
          next = omega (arith, i.next);
          gets = i.gets;
          sound = i.sound;
          passed = i.passed;
        } in
        elim (Bool-cases (leb 1000 t.steps_since_flush || o.flush_due s.next_timestamp)) [
          | inl e ↦ simp e (flush-IsAt start (suc m) t at)
          | inr e ↦ simp e at
        ]

    skip-IsTaken :
        (start m : ℕ) (s : Run P)
        → wanted (start + 60 * m) ≡ none
        → IsAt start m s
        → IsTaken start m s
    skip-IsTaken start m s w i = record {
      existing = i.existing;
      once = i.once;
      next = i.next;
      gets =
          step-Gets start m s.existing_dates s.existing_dates i.gets (λ d h. h)
            (λ d e. absurd (ground (arith, w, e)));
      sound = i.sound;
      passed = i.passed;
    }

    add_price-IsTaken :
        (start m : ℕ) (date : Option ℕ) (e : Entry P) (s : Run P)
        → wanted (start + 60 * m) ≡ date
        → IsAt start m s
        → IsTaken start m (add_price date e s)
    unfolding add_price
    add_price-IsTaken start m none e s w i = skip-IsTaken start m s w i
    add_price-IsTaken start m (some date) e s w i =
        elim (Bool-cases (contains s.existing_dates date)) [
          | inl h ↦ simp h (record {
            existing = i.existing;
            once = i.once;
            next = i.next;
            gets =
                step-Gets start m s.existing_dates s.existing_dates i.gets (λ d g. g)
                  (λ d v.
                    subst (λ x. contains s.existing_dates x ≡ true) (same_date date d _ w v) h);
            sound = i.sound;
            passed = i.passed;
          })
          | inr h ↦ simp h (record {
            existing =
                dates-add s.existing_dates s.disk.prices s.pending_rows
                  (record { date_unix = date; usd = e.usd; eur = e.eur }) i.existing;
            once = snoc-NoRepeats s.existing_dates date i.once h;
            next = i.next;
            gets =
                step-Gets start m s.existing_dates _ i.gets
                  (λ d g. contains-snoc s.existing_dates date d g)
                  (λ d v.
                    subst (λ x. contains (s.existing_dates ++ date ∷ []) x ≡ true)
                      (same_date date d _ w v) (contains-snoc_self s.existing_dates date));
            sound = i.sound;
            passed = i.passed;
          })
        ]

    -- Where a round leaves the run: the next timestamp is done, or an early return leaves it where it was.
    abbrev pub After : ℕ → ℕ → Option ExitCode × Run P → Type 0
    After start m (some code, s) = (code ≢ completed) × IsAt start m s
    After start m (none, s) = IsAt start (suc m) s

    pub round-After :
        (o : Outside P) (start m : ℕ) (f : Fetched P) (s : Run P)
        → Agrees (wanted (start + 60 * m)) f
        → IsAt start m s
        → After start m (round o start f s)
    unfolding round
    round-After o start m rate_limited s w i = (λ e. absurd (ground arith), i)
    round-After o start m fetch_error s w i = (λ e. absurd (ground arith), i)
    round-After o start m no_price s w i = advance-IsAt o start m s (skip-IsTaken start m s w i)
    round-After o start m (priced e) s w i =
        let t = record s { validator = observe o s.next_timestamp e s.validator } in
        advance-IsAt o start m (add_price e.time e t) (
          add_price-IsTaken start m e.time e t w (record {
            existing = i.existing;
            once = i.once;
            next = i.next;
            gets = i.gets;
            sound = i.sound;
            passed = i.passed;
          }))
