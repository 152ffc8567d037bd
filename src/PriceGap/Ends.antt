-- ===== src/PriceGap/Ends.antt =====
-- How a run of the backfill ends (api/price_gap_backfill.py under btc_parser_app).
use bitcoin_data_exporter.Common.{
  ℕ, zero, suc, ◌+◌, ◌*◌, ◌≤◌, ◌<◌, ◌≡◌, refl, sym, ap, ◌∙◌, ◌⊎◌, inl, inr, ◌||◌, Option, none,
  some, arith, ltb, leb, Bool-cases, nat_eq, string_eq, contains,
}
use bitcoin_data_exporter.Common.{subst}
use bitcoin_data_exporter.PriceGap.{
  or_on, Entry, Fetched, rate_limited, fetch_error, no_price, priced, ExitCode, completed,
  exit_rate_limited, exit_failed, Disk, Run, Outside, load_checkpoint, observe, flush, add_price,
  advance, round, loop, new_run, total_steps, walk, run_backfill,
}

-- The exit code for a request that failed.
pub data Fails {P : Type 0} : Fetched P → ExitCode → Type 0 where
  limited : Fails rate_limited exit_rate_limited
  failed : Fails fetch_error exit_failed

module _ {P : Type 0} (o : Outside P) (start end : ℕ) where
  abbrev Went : Fetched P → Run P → Option ExitCode × Run P → Type 0
  Went f s (c, t) =
      ((c ≡ none) × (t.next_timestamp ≡ s.next_timestamp + 60))
      ⊎ ((code : ExitCode) × (c ≡ some code) × (t ≡ s) × Fails f code)

  next-advance : (s : Run P) → (advance o start s).next_timestamp ≡ s.next_timestamp + 60
  unfolding advance flush
  next-advance s =
      elim (Bool-cases (leb 1000 (s.steps_since_flush + 1) || o.flush_due s.next_timestamp)) [
        | inl e ↦ simp e refl
        | inr e ↦ simp e refl
      ]

  next-add_price :
      (date : Option ℕ) (e : Entry P) (s : Run P)
      → (add_price date e s).next_timestamp ≡ s.next_timestamp
  unfolding add_price
  next-add_price none e s = refl
  next-add_price (some date) e s = elim (Bool-cases (contains s.existing_dates date)) [
    | inl h ↦ simp h refl
    | inr h ↦ simp h refl
  ]

  round-Went : (f : Fetched P) (s : Run P) → Went f s (round o start f s)
  unfolding round
  round-Went rate_limited s = inr (exit_rate_limited, refl, refl, limited)
  round-Went fetch_error s = inr (exit_failed, refl, refl, failed)
  round-Went no_price s = inl (refl, next-advance s)
  round-Went (priced e) s =
      let t = record s { validator = observe o s.next_timestamp e s.validator } in
      inl (refl, next-advance (add_price e.time e t) ∙ ap (λ n. n + 60) (next-add_price e.time e t))

  -- At the end of the range, or at a request that failed.
  abbrev Ended : Option ExitCode × Run P → Type 0
  Ended (c, s) =
      (c ≡ some completed)
      ⊎ ((code : ExitCode) × (c ≡ some code) × Fails (o.fetch s.next_timestamp) code)

  or_on-Ended :
      (n : ℕ) (s : Run P) (r : Option ExitCode × Run P)
      → Went (o.fetch s.next_timestamp) s r
      → (r.1.next_timestamp ≡ s.next_timestamp + 60 → Ended (loop o start end n r.1))
      → Ended (or_on r (loop o start end n r.1))
  or_on-Ended n s (none, t) (inl (c, e)) rest = rest e
  or_on-Ended n s (none, t) (inr (code, c, e, f)) rest = absurd (ground arith)
  or_on-Ended n s (some code, t) (inl (c, e)) rest = absurd (ground arith)
  or_on-Ended n s (some code, t) (inr (code', c, e, f)) rest =
      inr (code', c, subst (λ u. Fails (o.fetch u.next_timestamp) code') (sym e) f)

  loop-Ended : (n : ℕ) (s : Run P) → end < s.next_timestamp + 60 * n → Ended (loop o start end n s)
  unfolding loop
  loop-Ended zero s h = elim (Bool-cases (leb s.next_timestamp end)) [
    | inl e ↦ absurd (ground (arith, h, e))
    | inr e ↦ inl (simp e refl)
  ]
  loop-Ended (suc n) s h = elim (Bool-cases (leb s.next_timestamp end)) [
    | inl e ↦ simp e (
        or_on-Ended n s (round o start (o.fetch s.next_timestamp) s)
          (round-Went (o.fetch s.next_timestamp) s) (λ q. loop-Ended n _ (omega (arith, h, q))))
    | inr e ↦ inl (simp e refl)
  ]

  -- A run of a range that is not empty ends: with exit code 0, or at a request that failed, with the exit
  -- code for it and the checkpoint at this request, so that the next run repeats it.
  pub run_backfill-Ends :
      (every : ℕ) (d : Disk P)
      → start ≤ end
      → let r = run_backfill o start end every d in
        (r.0 ≡ some completed)
        ⊎ ((code : ExitCode) × (t : ℕ) × (r.0 ≡ some code)
            × Fails (o.fetch t) code
            × (r.1.disk.checkpoint ≡ some (start, t)))
  unfolding run_backfill new_run walk flush
  run_backfill-Ends every d h =
      let next = load_checkpoint d.checkpoint start in
      elim (Bool-cases (ltb end start)) [
        | inl e ↦ absurd (ground (arith, e, h))
        | inr e ↦ elim (Bool-cases (ltb end next)) [
          | inl f ↦ inl (simp (e, f) refl)
          | inr f ↦
              simp (e, f)
                (let s = new_run d next every in
                  elim (loop-Ended (total_steps next end) s (ground (arith, f))) [
                    | inl c ↦ inl c
                    | inr (code, c, x) ↦ inr (
                      code,
                      (loop o start end (total_steps next end) s).1.next_timestamp,
                      c,
                      x,
                      refl,
                    )
                  ])
        ]
      ]
