-- ===== src/CsvWriter/Parts.antt =====
-- The parts of a logical CSV that are numbered 1, 2, and so on with no gap, as this app leaves them.
use bitcoin_data_exporter.Common.{
  ℕ, ◌+◌, ◌≤◌, ◌<◌, ◌≡◌, refl, none, some, List, [], ◌∷◌, ◌++◌, append-nil, append_assoc, arith,
  nat_eq, length, max_or,
}
use bitcoin_data_exporter.Common.Dict
use bitcoin_data_exporter.Common.Dict.{Dict, dict_laws}
use bitcoin_data_exporter.CsvWriter.{
  sorted, numbers_of, existing_part_numbers, parts_at, all_parts, part_path, last_or,
}

module _ {ℓ} {F : Type ℓ} where
  -- The parts are numbered a, a + 1, and so on, in this order.
  abbrev pub IsConsecutive : ℕ → Dict ℕ F → Type 0
  IsConsecutive a [] = Unit
  IsConsecutive a ((n, _) ∷ d) = (n ≡ a) × IsConsecutive (a + 1) d

  unfoldable pub values : Dict ℕ F → List F
  values [] = []
  values ((_, f) ∷ d) = f ∷ values d

  unfoldable pub numbers_from : ℕ → Dict ℕ F → List ℕ
  numbers_from a [] = []
  numbers_from a (_ ∷ d) = a ∷ numbers_from (a + 1) d

  numbers_of-consecutive :
      (a : ℕ) (d : Dict ℕ F)
      → IsConsecutive a d
      → a + length d ≤ 1000000
      → numbers_of d ≡ numbers_from a d
  unfolding numbers_of numbers_from
  numbers_of-consecutive a [] h l = refl
  numbers_of-consecutive a ((n, f) ∷ d) h l = ground (arith, numbers_of-consecutive (a + 1) d h.1)

  sorted-from : (a : ℕ) (d : Dict ℕ F) → sorted (numbers_from a d) ≡ numbers_from a d
  unfolding sorted numbers_from
  sorted-from a [] = refl
  sorted-from a (_ ∷ []) = refl
  sorted-from a (_ ∷ e ∷ d) = rw (sorted-from (a + 1) (e ∷ d)) (ground arith)

  -- Parts above n do not see the part n.
  parts_at-skip :
      (a n : ℕ) (f : F) (c d : Dict ℕ F)
      → n < a
      → 0 < n
      → parts_at (numbers_from a c) ((n, f) ∷ d) ≡ parts_at (numbers_from a c) d
  unfolding parts_at numbers_from Dict.get part_path
  parts_at-skip a n f [] d h p = refl
  parts_at-skip a n f (e ∷ c) d h p = ground (arith, parts_at-skip (a + 1) n f c d)

  parts_at-consecutive :
      (a : ℕ) (d : Dict ℕ F) → 0 < a → IsConsecutive a d → parts_at (numbers_from a d) d ≡ values d
  unfolding parts_at numbers_from Dict.get part_path values
  parts_at-consecutive a [] p h = refl
  parts_at-consecutive a ((n, f) ∷ d) p h =
      ground (arith, parts_at-skip (a + 1) n f d d, parts_at-consecutive (a + 1) d)

  pub all_parts-consecutive :
      (d : Dict ℕ F) → IsConsecutive 1 d → length d < 1000000 → all_parts d ≡ values d
  unfolding all_parts
  all_parts-consecutive d h l =
      rw (numbers_of-consecutive 1 d h (omega arith), sorted-from 1 d)
        (parts_at-consecutive 1 d (omega arith) h)

  pub IsConsecutive-above :
      (a n : ℕ) (d : Dict ℕ F) → IsConsecutive a d → n < a → Dict.get n d ≡ none
  unfolding Dict.get
  IsConsecutive-above a n [] h l = refl
  IsConsecutive-above a n ((m, f) ∷ d) h l = ground (arith, IsConsecutive-above (a + 1) n d h.1)

  pub get-beyond :
      (a k : ℕ) (d : Dict ℕ F) → IsConsecutive a d → a + length d ≤ k → Dict.get k d ≡ none
  unfolding Dict.get
  get-beyond a k [] h l = refl
  get-beyond a k ((m, f) ∷ d) h l = ground (arith, get-beyond (a + 1) k d h.1)

  pub IsConsecutive-replace :
      (a k : ℕ) (g : F) (d : Dict ℕ F)
      → IsConsecutive a d
      → a ≤ k
      → k ≤ a + length d
      → IsConsecutive a (Dict.insert k g d)
  unfolding Dict.insert
  IsConsecutive-replace a k g [] h l m = (omega arith, tt)
  IsConsecutive-replace a k g ((n, f) ∷ d) h l m =
      ground (arith, IsConsecutive-replace (a + 1) k g d h.1)

  pub length-insert : (k : ℕ) (g : F) (d : Dict ℕ F) → length (Dict.insert k g d) ≤ length d + 1
  unfolding Dict.insert
  length-insert k g [] = omega arith
  length-insert k g ((n, f) ∷ d) = ground (arith, length-insert k g d)

  pub length-insert_next :
      (a k : ℕ) (g : F) (d : Dict ℕ F)
      → IsConsecutive a d
      → k ≡ a + length d
      → length (Dict.insert k g d) ≡ length d + 1
  unfolding Dict.insert
  length-insert_next a k g [] h e = omega arith
  length-insert_next a k g ((n, f) ∷ d) h e =
      ground (arith, length-insert_next (a + 1) k g d h.1 (omega arith))

  pub length-insert_old :
      (k : ℕ) (g f : F) (d : Dict ℕ F)
      → Dict.get k d ≡ some f
      → length (Dict.insert k g d) ≡ length d
  unfolding Dict.insert Dict.get
  length-insert_old k g f [] e = cc
  length-insert_old k g f ((n, f') ∷ d) e = ground (arith, length-insert_old k g f d)

  pub at_least :
      (a k : ℕ) (f : F) (d : Dict ℕ F) → IsConsecutive a d → Dict.get k d ≡ some f → a ≤ k
  unfolding Dict.get
  at_least a k f [] h e = cc
  at_least a k f ((n, g) ∷ d) h e = ground (arith, at_least (a + 1) k f d h.1)

  pub max_or-from :
      (m a : ℕ) (d : Dict ℕ F) → 0 < length d → max_or m (numbers_from a d) + 1 ≡ a + length d
  unfolding numbers_from
  max_or-from m a [] p = absurd (omega arith)
  max_or-from m a (_ ∷ []) p = omega arith
  max_or-from m a (_ ∷ e ∷ d) p = omega (arith, max_or-from m (a + 1) (e ∷ d) (omega arith))

  pub last_or-from :
      (a n : ℕ) (d : Dict ℕ F) → n + 1 ≡ a → last_or n (numbers_from a d) + 1 ≡ a + length d
  unfolding numbers_from
  last_or-from a n [] p = omega arith
  last_or-from a n (_ ∷ d) p = omega (arith, last_or-from (a + 1) a d (omega arith))

  pub numbers-consecutive :
      (d : Dict ℕ F)
      → IsConsecutive 1 d
      → length d < 1000000
      → existing_part_numbers d ≡ numbers_from 1 d
  unfolding existing_part_numbers
  numbers-consecutive d h l = rw (numbers_of-consecutive 1 d h (omega arith)) (sorted-from 1 d)

  pub get-last :
      (a : ℕ) (d : Dict ℕ F)
      → IsConsecutive a d
      → (k : ℕ) → a ≤ k
      → k < a + length d
      → (f : F) × (Dict.get k d ≡ some f)
  unfolding Dict.get
  get-last a [] h k l m = absurd (omega arith)
  get-last a ((n, f) ∷ d) h k l m = elim (nat_eq.dec k n) [
    | yes p ↦ (f, ground arith)
    | no p ↦
        let (g, e) = get-last (a + 1) d h.1 k (omega (arith, h.0)) (omega arith) in
        (g, ground arith)
  ]

module _ {ℓ κ} {F : Type ℓ} {A : Type κ} (r : F → List A) where
  -- The rows of all parts in order.
  unfoldable pub all_rows : Dict ℕ F → List A
  all_rows [] = []
  all_rows ((_, f) ∷ d) = r f ++ all_rows d

  pub all_rows-insert_next :
      (a k : ℕ) (g : F) (d : Dict ℕ F)
      → IsConsecutive a d
      → k ≡ a + length d
      → all_rows (Dict.insert k g d) ≡ all_rows d ++ r g
  unfolding all_rows Dict.insert
  all_rows-insert_next a k g [] h e = append-nil _
  all_rows-insert_next a k g ((n, f) ∷ d) h e = ground (
    arith,
    all_rows-insert_next (a + 1) k g d h.1 (omega arith),
    append_assoc (r f) (all_rows d) (r g),
  )

  pub all_rows-replace_last :
      (a k : ℕ) (f g : F) (xs : List A) (d : Dict ℕ F)
      → IsConsecutive a d
      → k + 1 ≡ a + length d
      → Dict.get k d ≡ some f
      → r g ≡ r f ++ xs
      → all_rows (Dict.insert k g d) ≡ all_rows d ++ xs
  unfolding all_rows Dict.insert Dict.get
  all_rows-replace_last a k f g xs [] h e p q = cc
  all_rows-replace_last a k f g xs ((n, f') ∷ []) h e p q =
      ground (arith, append-nil (r f'), append-nil (r g))
  all_rows-replace_last a k f g xs ((n, f') ∷ x ∷ d) h e p q =
      let rest = all_rows-replace_last (a + 1) k f g xs (x ∷ d) h.1 (omega arith) in
      ground (arith, rest, append_assoc (r f') (r x.1 ++ all_rows d) xs)
