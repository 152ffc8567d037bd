-- ===== src/BlockParser/Supply.antt =====
-- The subsidies of the blocks of a chain (`block_subsidy_sats` of rpc/block_parser.py under btc_parser_app),
-- added up.
use bitcoin_data_exporter.Common.{
  ℕ, zero, suc, ◌+◌, ◌-◌, ◌*◌, ◌≤◌, ◌<◌, ◌≡◌, ap, arith, nat_eq, string_eq,
}
use bitcoin_data_exporter.Common.{subst, ◌%◌, ◌^◌, ◌/◌}
use native.Mathlib.Nat.{
  mod-lt, div-add-mod', div-div-eq-div-mul, div-eq_of_lt, mul-add-div_right, mul-le-mul_left,
  pow-suc,
}
use bitcoin_data_exporter.BlockParser.{block_subsidy_sats}

-- What the blocks below a height have created.
unfoldable pub supply : ℕ → ℕ → ℕ → ℕ
unfolding block_subsidy_sats
supply interval initial zero = 0
supply interval initial (suc n) = supply interval initial n + block_subsidy_sats interval initial n

module _ (interval initial : ℕ) (pos : 0 < interval) where
  abbrev halved : ℕ → ℕ
  halved q = initial / 2 ^ q

  halved-le : (q : ℕ) → 2 * halved (suc q) ≤ halved q
  halved-le q =
      omega (arith, ap (λ n. initial / n) (pow-suc 2 q), div-div-eq-div-mul initial (2 ^ q) 2)

  epoch-le : (q : ℕ) → 2 * (interval * halved (suc q)) ≤ interval * halved q
  epoch-le q = ground (arith, mul-le-mul_left interval (halved-le q))

  height_epoch : (q r : ℕ) → r < interval → (q * interval + r) / interval ≡ q
  height_epoch q r h = omega (arith, mul-add-div_right pos q r, div-eq_of_lt h)

  subsidy-le :
      (q r : ℕ) → r < interval → block_subsidy_sats interval initial (q * interval + r) ≤ halved q
  unfolding block_subsidy_sats
  subsidy-le q r h = simp (height_epoch q r h) (ground arith)

  same-supply : (m n : ℕ) → m ≡ n → supply interval initial m ≡ supply interval initial n
  same-supply m n h = ap (supply interval initial) h

  one_more : (k a : ℕ) → suc k * a ≡ k * a + a
  one_more k a = grind arith

  -- What has been created, with what is to come: the rest of the epoch, and twice the next one.
  abbrev IsWithin : ℕ → ℕ → ℕ → Type 0
  IsWithin q r k =
      supply interval initial (q * interval + r) + k * halved q + 2 * (interval * halved (suc q))
      ≤ 2 * (interval * initial)

  supply-step :
      (q r : ℕ)
      → supply interval initial (q * interval + suc r)
        ≡ supply interval initial (q * interval + r)
          + block_subsidy_sats interval initial (q * interval + r)
  unfolding supply
  supply-step q r = same-supply (q * interval + suc r) (suc (q * interval + r)) (omega arith)

  IsWithin-step : (q r k : ℕ) → r + suc k ≡ interval → IsWithin q r (suc k) → IsWithin q (suc r) k
  IsWithin-step q r k h w =
      omega (arith, w, supply-step q r, subsidy-le q r (omega (arith, h)), one_more k (halved q))

  IsWithin-epoch : (q r k : ℕ) → r + k ≡ interval → IsWithin q 0 interval → IsWithin q r k
  IsWithin-epoch q zero k h w = subst (λ m. IsWithin q 0 m) (omega (arith, h)) w
  IsWithin-epoch q (suc r) k h w =
      IsWithin-step q r k (omega (arith, h)) (IsWithin-epoch q r (suc k) (omega (arith, h)) w)

  IsWithin-start : (q : ℕ) → IsWithin q 0 interval
  unfolding supply
  IsWithin-start zero =
      omega (arith, epoch-le 0, same-supply (0 * interval + 0) 0 (omega arith), whole)
    where
      whole : interval * halved 0 ≡ interval * initial
      whole = ap (λ n. interval * n) (omega arith)
  IsWithin-start (suc q) =
      let w = IsWithin-epoch q interval 0 (omega arith) (IsWithin-start q) in
      omega (
        arith,
        w,
        epoch-le (suc q),
        same-supply (suc q * interval + 0) (q * interval + interval)
            (omega (arith, one_more q interval)),
      )

  -- All blocks together create at most twice the subsidies of the first epoch, whatever the height: with a
  -- halving interval of 210,000 blocks and 50 bitcoin at first, 21 million bitcoin. The interval is not 0.
  pub supply-le : (n : ℕ) → supply interval initial n ≤ 2 * (interval * initial)
  supply-le n =
      let q = n / interval in
      let r = n % interval in
      let less = mod-lt n pos in
      let w = IsWithin-epoch q r (interval - r) (omega (arith, less)) (IsWithin-start q) in
      omega (arith, w, same-supply (q * interval + r) n (div-add-mod' n interval))
