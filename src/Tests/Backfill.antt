-- ===== src/Tests/Backfill.antt =====
-- Runs of api/price_gap_backfill.py (under btc_parser_app) on a few minutes.
use bitcoin_data_exporter.Common.{
  ℕ, zero, suc, ◌+◌, ◌*◌, ◌≡◌, refl, ◌⊎◌, true, Option, none, some, [], ◌∷◌, arith, nat_eq,
  string_eq, contains, All,
}
use bitcoin_data_exporter.PriceGap.{
  Fetched, fetch_error, ExitCode, completed, Disk, Outside, existing_dates_of, run_backfill,
  fetched_of,
}
use bitcoin_data_exporter.PriceGap.Sound.{Agrees, IsSound}
use bitcoin_data_exporter.PriceGap.Walks.{run_backfill-IsSound, run_backfill-Gets}
use bitcoin_data_exporter.PriceGap.Ends.{Fails, run_backfill-Ends}

-- Every timestamp has its own date, but for the first one.
abbrev wanted : ℕ → Option ℕ
wanted zero = none
wanted (suc t) = some t

abbrev answer : Option ℕ → Fetched ℕ
unfolding fetched_of nat_eq
answer none = fetched_of (some (200, some none))
answer (some date) =
    fetched_of (some (200, some (some (record { time = some date; usd = 1; eur = 2 }))))

abbrev outside : Outside ℕ
outside = record {
  fetch = λ t. answer (wanted t);
  reference = λ t. fetch_error;
  differs = λ a b. true;
  may_validate = λ t. true;
  flush_due = λ t. true;
}

answer-Agrees : (w : Option ℕ) → Agrees w (answer w)
unfolding fetched_of nat_eq
answer-Agrees none = refl
answer-Agrees (some date) = refl

agrees : (t : ℕ) → Agrees (wanted t) (outside.fetch t)
agrees t = answer-Agrees (wanted t)

-- An earlier run was cut off after it had written date 59, with the checkpoint before it.
abbrev disk : Disk ℕ
disk = record {
  prices = record { date_unix = 59; usd = 1; eur = 2 } ∷ [];
  checkpoint = some (0, 60);
}

same_start :
    (a b c d : ℕ) (o : Option (ℕ × ℕ)) → o ≡ some (a, b) → o ≡ some (c, d) → (a ≡ c) × (b ≡ d)
same_start a b c d o p q = (cc, cc)

none_first : (n d : ℕ) → n ≡ 0 → wanted n ≡ some d → ⊥
none_first zero d h w = absurd (ground (arith, w))
none_first (suc n) d h w = absurd (omega (arith, h))

disk-IsSound : IsSound wanted disk
unfolding existing_dates_of nat_eq
disk-IsSound = record {
  once = (refl, tt);
  covered = λ start next e.
      let (p, q) = same_start 0 60 start next (some (0, 60)) refl e in
      (
        1,
        omega (arith, p, q),
        λ k d less w. absurd (none_first (start + 60 * k) d (omega (arith, p, less)) w),
      );
}

run_backfill-IsSound_example :
    let s = (run_backfill outside 0 180 1 disk).1 in
    IsSound wanted s.disk × All (IsSound wanted) s.passed
run_backfill-IsSound_example = run_backfill-IsSound wanted outside 0 180 1 disk agrees disk-IsSound

run_completes : (run_backfill outside 0 180 1 disk).0 ≡ some completed
unfolding run_backfill nat_eq fetched_of
run_completes = refl

run_backfill-Gets_example :
    contains (existing_dates_of (run_backfill outside 0 180 1 disk).1.disk.prices) 179 ≡ true
run_backfill-Gets_example =
    run_backfill-Gets wanted outside 0 180 1 disk agrees disk-IsSound run_completes 3 179
      (omega arith) refl

run_backfill-Ends_example :
    let r = run_backfill outside 0 180 1 disk in
    (r.0 ≡ some completed)
    ⊎ ((code : ExitCode) × (t : ℕ) × (r.0 ≡ some code)
        × Fails (outside.fetch t) code
        × (r.1.disk.checkpoint ≡ some (0, t)))
run_backfill-Ends_example = run_backfill-Ends outside 0 180 1 disk (omega arith)
