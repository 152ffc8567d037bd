-- ===== src/BlockParser/Values.antt =====
-- The values that rpc/block_parser.py (under btc_parser_app) converts: amounts, sequence numbers, subsidies.
use bitcoin_data_exporter.Common.{
  ℕ, zero, suc, ◌+◌, ◌-◌, ◌*◌, ◌≤◌, ◌<◌, ◌≡◌, refl, sym, ap, ◌∙◌, inl, inr, true, false, ◌&&◌, ◌||◌,
  some, arith, ltb, Bool-cases, ◌==◌, nat_eq, string_eq,
}
use bitcoin_data_exporter.Common.{◌%◌, ◌^◌, ◌/◌}
use native.Mathlib.Nat.{mod-lt, div-add-mod', mul-mod_left, add-mul, mul_assoc, pow-suc}
use bitcoin_data_exporter.BlockParser.{
  Amount, round_half_even, context_round, to_sats, LocktimeType, decode_sequence, bit,
}

-- A quotient, rounded: at most half a unit away.
round_half_even-IsNearest :
    (n d : ℕ)
    → 0 < d
    → (2 * n ≤ 2 * (round_half_even n d * d) + d) × (2 * (round_half_even n d * d) ≤ 2 * n + d)
unfolding round_half_even
round_half_even-IsNearest n d p =
    let q = n / d in
    let r = n % d in
    let whole = div-add-mod' n d in
    let less = mod-lt n p in
    let up = add-mul q 1 d in
    elim (Bool-cases (ltb d (2 * r) || (2 * r == d && q % 2 == 1))) [
      | inl e ↦ simp e (ground (arith, whole, less, up, e))
      | inr e ↦ simp e (ground (arith, whole, less, e))
    ]

round_half_even-exact : (n d : ℕ) → 0 < d → n % d ≡ 0 → round_half_even n d * d ≡ n
unfolding round_half_even
round_half_even-exact n d p h = let whole = div-add-mod' n d in ground (arith, whole, h)

pow_pos : (n : ℕ) → 0 < 10 ^ n
pow_pos zero = omega arith
pow_pos (suc n) = omega (arith, pow-suc 10 n, pow_pos n)

same_power : (a b : ℕ) → a ≡ b → 10 ^ a ≡ 10 ^ b
same_power a b h = ap (λ k. 10 ^ k) h

swap : (a b c : ℕ) → a * b * c ≡ a * c * b
swap a b c = grind arith

pow_add : (m n : ℕ) → 10 ^ (m + n) ≡ 10 ^ m * 10 ^ n
pow_add zero n = grind (arith, same_power (0 + n) n (omega arith))
pow_add (suc m) n =
    same_power (suc m + n) (suc (m + n)) (omega arith)
    ∙ pow-suc 10 (m + n)
    ∙ ap (λ x. x * 10) (pow_add m n)
    ∙ swap (10 ^ m) (10 ^ n) 10
    ∙ ap (λ x. x * 10 ^ n) (sym (pow-suc 10 m))

-- A product of 28 digits at most is kept as it is.
kept_digits : (digits : ℕ) → digits < 10 ^ 20 → context_round (digits * 10 ^ 8) ≡ digits * 10 ^ 8
unfolding context_round
kept_digits digits h = simp (fits digits h) refl
  where
    fits : (digits : ℕ) → digits < 10 ^ 20 → ltb (digits * 10 ^ 8) (10 ^ 28) ≡ true
    fits digits h = ground (arith, h)

-- The number of satoshis of an amount of 20 digits at most is the nearest integer to it, whatever number of
-- decimal places the amount is written with: it is off by half a satoshi at most.
pub to_sats-IsNearest :
    (a : Amount)
    → a.digits < 10 ^ 20
    → (2 * (a.digits * 10 ^ 8) ≤ 2 * (to_sats a * 10 ^ a.places) + 10 ^ a.places)
      × (2 * (to_sats a * 10 ^ a.places) ≤ 2 * (a.digits * 10 ^ 8) + 10 ^ a.places)
unfolding to_sats
to_sats-IsNearest a few =
    rw (kept_digits a.digits few)
      (round_half_even-IsNearest (a.digits * 10 ^ 8) (10 ^ a.places) (pow_pos a.places))

-- An amount of 20 digits at most, with at most eight decimal places, is converted without rounding; every
-- amount that the node writes is such an amount.
pub to_sats-exact :
    (a : Amount) → a.digits < 10 ^ 20 → a.places ≤ 8 → to_sats a * 10 ^ a.places ≡ a.digits * 10 ^ 8
unfolding to_sats
to_sats-exact a few h = rw (kept_digits a.digits few) (
    round_half_even-exact (a.digits * 10 ^ 8) (10 ^ a.places) (pow_pos a.places) (
      ap (λ n. a.digits * n % 10 ^ a.places) split
      ∙ ap (λ n. n % 10 ^ a.places) (sym (mul_assoc a.digits (10 ^ k) (10 ^ a.places)))
      ∙ mul-mod_left (a.digits * 10 ^ k) (10 ^ a.places)))
  where
    k : ℕ
    k = 8 - a.places

    split : 10 ^ 8 ≡ 10 ^ k * 10 ^ a.places
    split = same_power 8 (k + a.places) (omega (arith, h)) ∙ pow_add k a.places

-- A sequence number with a relative lock time, as BIP 68 lays it out: bit 22 is the type, the low 16 bits
-- are the value, and bits 16 to 21 and 23 to 30 are free.
abbrev pub type_bit : LocktimeType → ℕ
type_bit LocktimeType.time = 4194304
type_bit LocktimeType.blocks = 0

abbrev pub sequence_of : LocktimeType → ℕ → ℕ → ℕ → ℕ
sequence_of t low high value = high * 8388608 + type_bit t + low * 65536 + value

type_of : LocktimeType → ℕ
type_of LocktimeType.time = 1
type_of LocktimeType.blocks = 0

bit_clear : (n s : ℕ) → s / 2 ^ n % 2 ≡ 0 → bit n s ≡ false
bit_clear n s h = ground (arith, h)

bit_set : (n s : ℕ) → s / 2 ^ n % 2 ≡ 1 → bit n s ≡ true
bit_set n s h = ground (arith, h)

below : (s : ℕ) → s < 2147483648 → ltb s 4294967294 ≡ true
below s h = ground (arith, h)

newer : (version : ℕ) → 2 ≤ version → ltb version 2 ≡ false
newer version h = ground (arith, h)

decoded :
    (s : ℕ) (t : LocktimeType) (value version : ℕ)
    → s < 2147483648
    → s % 65536 ≡ value
    → s / 4194304 % 2 ≡ type_of t
    → 2 ≤ version
    → decode_sequence (some s) (some version) false ≡ (true, some (t, value))
unfolding decode_sequence type_of
decoded s LocktimeType.time value version h i j k =
    simp
      (
        bit_clear 31 s (omega (arith, h)),
        bit_set 22 s (omega (arith, j)),
        below s h,
        newer version k,
        i,
      )
      refl
decoded s LocktimeType.blocks value version h i j k =
    simp
      (
        bit_clear 31 s (omega (arith, h)),
        bit_clear 22 s (omega (arith, j)),
        below s h,
        newer version k,
        i,
      )
      refl

-- A relative lock time that is laid out in a sequence number is read back: its type and its value, whatever
-- the free bits are, for an input of a transaction of version 2 or later that is no coinbase; and such an
-- input signals replacement.
pub decode_sequence-sequence_of :
    (t : LocktimeType) (low high value version : ℕ)
    → low < 64
    → high < 256
    → value < 65536
    → 2 ≤ version
    → decode_sequence (some (sequence_of t low high value)) (some version) false
      ≡ (true, some (t, value))
unfolding decode_sequence type_of
decode_sequence-sequence_of LocktimeType.time low high value version h i j k =
    decoded (sequence_of LocktimeType.time low high value) LocktimeType.time value version
      (omega (arith, h, i, j)) (omega (arith, h, i, j)) (omega (arith, h, i, j)) k
decode_sequence-sequence_of LocktimeType.blocks low high value version h i j k =
    decoded (sequence_of LocktimeType.blocks low high value) LocktimeType.blocks value version
      (omega (arith, h, i, j)) (omega (arith, h, i, j)) (omega (arith, h, i, j)) k
