-- ===== src/PriceGap/Walks.antt =====
-- A whole run of the backfill (api/price_gap_backfill.py under btc_parser_app): what it leaves, and what it has
-- fetched when it completes.
use bitcoin_data_exporter.Common.{
  ℕ, zero, suc, ◌+◌, ◌*◌, ◌≤◌, ◌<◌, ◌≡◌, refl, sym, ap, ◌∙◌, inl, inr, true, Option, none, some, [],
  ◌++◌, append-nil, arith, ltb, leb, Bool-cases, ◌==◌, nat_eq, string_eq, contains, All,
}
use bitcoin_data_exporter.Common.{subst}
use bitcoin_data_exporter.PriceGap.{
  or_on, ExitCode, completed, Disk, Run, Outside, existing_dates_of, load_checkpoint, flush, round,
  loop, new_run, total_steps, walk, run_backfill,
}
use bitcoin_data_exporter.PriceGap.Sound.{
  Agrees, Gets, IsSound, IsAt, After, flush-IsAt, round-After,
}

module _ (wanted : ℕ → Option ℕ) where
  module _ {P : Type 0} where
    -- Where the loop leaves the run.
    abbrev Stopped : ℕ → ℕ → Option ExitCode × Run P → Type 0
    Stopped start end (code, s) =
        (m : ℕ) × IsAt wanted start m s × (code ≡ some completed → end < s.next_timestamp)

    or_on-Stopped :
        (o : Outside P) (start end n m : ℕ) (r : Option ExitCode × Run P)
        → After wanted start m r
        → (IsAt wanted start (suc m) r.1 → Stopped start end (loop o start end n r.1))
        → Stopped start end (or_on r (loop o start end n r.1))
    or_on-Stopped o start end n m (some code, s) (h, i) rest = (m, i, λ e. absurd (h (same code e)))
      where
        same : (c : ExitCode) → some c ≡ some completed → c ≡ completed
        same c e = cc
    or_on-Stopped o start end n m (none, s) i rest = rest i

    loop-Stopped :
        (o : Outside P) (start end n m : ℕ) (s : Run P)
        → ((t : ℕ) → Agrees (wanted t) (o.fetch t))
        → IsAt wanted start m s
        → Stopped start end (loop o start end n s)
    unfolding loop
    loop-Stopped o start end zero m s w i = elim (Bool-cases (leb s.next_timestamp end)) [
      | inl e ↦ (m, i, λ h. absurd (ground (arith, simp e at h)))
      | inr e ↦ (m, i, λ h. ground (arith, e))
    ]
    loop-Stopped o start end (suc n) m s w i = elim (Bool-cases (leb s.next_timestamp end)) [
      | inl e ↦ simp e (
          or_on-Stopped o start end n m (round o start (o.fetch s.next_timestamp) s)
            (round-After wanted o start m (o.fetch s.next_timestamp) s
              (subst (λ t. Agrees (wanted t) (o.fetch s.next_timestamp)) i.next
                (w s.next_timestamp))
              i)
            (λ j. loop-Stopped o start end n (suc m) _ w j))
      | inr e ↦ simp e (m, i, λ h. ground (arith, e))
    ]

    resume :
        (d : Disk P) (start : ℕ)
        → IsSound wanted d
        → (c : Option (ℕ × ℕ)) → d.checkpoint ≡ c
        → (m : ℕ) × (load_checkpoint c start ≡ start + 60 * m)
          × Gets wanted start m (existing_dates_of d.prices)
    unfolding load_checkpoint
    resume d start h none e = (0, omega arith, λ k t less w. absurd (omega (arith, less)))
    resume d start h (some (range_start, next)) e = elim (Bool-cases (range_start == start)) [
      | inl q ↦
          let (m, n, g) = h.covered range_start next e in
          simp q (
            m,
            ground (arith, n, q),
            subst (λ x. Gets wanted x m (existing_dates_of d.prices)) (ground (arith, q)) g,
          )
      | inr q ↦ simp q (0, omega arith, λ k t less w. absurd (omega (arith, less)))
    ]

    start-IsAt :
        (d : Disk P) (start every : ℕ)
        → IsSound wanted d
        → (m : ℕ) × IsAt wanted start m (new_run d (load_checkpoint d.checkpoint start) every)
    unfolding new_run
    start-IsAt d start every h =
        let (m, next, gets) = resume d start h d.checkpoint refl in
        (
          m,
          record {
            existing = ap existing_dates_of (sym (append-nil d.prices));
            once = h.once;
            next = next;
            gets = gets;
            sound = h;
            passed = tt;
          },
        )

    -- A run that has ended: nothing is waiting, and it is past the end if the exit code says so.
    abbrev Done : ℕ → ℕ → Option ExitCode × Run P → Type 0
    Done start end (code, s) =
        (m : ℕ) × IsAt wanted start m s
        × (s.pending_rows ≡ [])
        × (code ≡ some completed → end < s.next_timestamp)

    walk-Done :
        (o : Outside P) (start end m : ℕ) (s : Run P)
        → ((t : ℕ) → Agrees (wanted t) (o.fetch t))
        → IsAt wanted start m s
        → Done start end (walk o start end s)
    unfolding walk flush
    walk-Done o start end m s w i =
        let n = total_steps s.next_timestamp end in
        let (k, j, past) = loop-Stopped o start end n m s w i in
        (k, flush-IsAt wanted start k (loop o start end n s).1 j, refl, past)

    run_backfill-Done :
        (o : Outside P) (start end every : ℕ) (d : Disk P)
        → ((t : ℕ) → Agrees (wanted t) (o.fetch t))
        → IsSound wanted d
        → Done start end (run_backfill o start end every d)
    unfolding run_backfill new_run
    run_backfill-Done o start end every d w h =
        let next = load_checkpoint d.checkpoint start in
        let (m, i) = start-IsAt d start every h in
        elim (Bool-cases (ltb end start)) [
          | inl e ↦ simp e (m, i, refl, λ q. absurd (ground arith))
          | inr e ↦ elim (Bool-cases (ltb end next)) [
            | inl f ↦ simp (e, f) (m, i, refl, λ q. ground (arith, f))
            | inr f ↦ simp (e, f) (walk-Done o start end m (new_run d next every) w i)
          ]
        ]

    -- Every state that a run takes the files through, after every row that it writes and after every
    -- checkpoint, the last one included, is sound if the first one is, so that a crash between two such
    -- steps leaves sound files; a line that is cut in the middle is not such a state. Sound is: no minute
    -- has two rows, and every timestamp that the checkpoint has passed, counted in steps from its start, has
    -- the row of its date if the data has one. The answers may fail at any point, but agree with the data
    -- where they succeed.
    pub run_backfill-IsSound :
        (o : Outside P) (start end every : ℕ) (d : Disk P)
        → ((t : ℕ) → Agrees (wanted t) (o.fetch t))
        → IsSound wanted d
        → let s = (run_backfill o start end every d).1 in
          IsSound wanted s.disk × All (IsSound wanted) s.passed
    run_backfill-IsSound o start end every d w h =
        let (m, i, none_waiting, past) = run_backfill-Done o start end every d w h in
        (i.sound, i.passed)

    -- A run whose exit code is 0 has the row of every timestamp of the range, in steps from the start, for
    -- which the data has a date; whatever earlier runs have left, as long as the files were sound.
    pub run_backfill-Gets :
        (o : Outside P) (start end every : ℕ) (d : Disk P)
        → ((t : ℕ) → Agrees (wanted t) (o.fetch t))
        → IsSound wanted d
        → (run_backfill o start end every d).0 ≡ some completed
        → (k date : ℕ) → start + 60 * k ≤ end
        → wanted (start + 60 * k) ≡ some date
        → contains (existing_dates_of (run_backfill o start end every d).1.disk.prices) date ≡ true
    run_backfill-Gets o start end every d w h code k date range want =
        let r = run_backfill o start end every d in
        let (m, i, none_waiting, past) = run_backfill-Done o start end every d w h in
        let all : r.1.existing_dates ≡ existing_dates_of r.1.disk.prices =
          i.existing
          ∙ ap (λ ps. existing_dates_of (r.1.disk.prices ++ ps)) none_waiting
          ∙ ap existing_dates_of (append-nil r.1.disk.prices) in
        subst (λ ds. contains ds date ≡ true) all
          (i.gets k date (omega (arith, range, past code, i.next)) want)
