-- ===== src/CsvWriter/Append.antt =====
-- `write_rows_to_csv` appends to the logical CSV that `read_csv_parts` reads.
use bitcoin_data_exporter.Common.{
  ℕ, zero, suc, ◌+◌, ◌≤◌, ◌<◌, ◌≡◌, refl, sym, ap, ◌∙◌, ◌⊎◌, inl, inr, true, some, List, [], ◌∷◌,
  ◌++◌, append-nil, arith, nat_eq, length, All,
}
use bitcoin_data_exporter.Common.Dict
use bitcoin_data_exporter.Common.Dict.{Dict, dict_laws}
use bitcoin_data_exporter.CsvWriter.{
  Csv, File, Dir, rows_of, IsHeaded, IsHeaded-file_exists, concat_rows, read_csv_parts,
  write_rows_to_csv, current_part_for_append, append_rows, append_rows-IsHeaded, write_csv-IsHeaded,
  append_rows_new, rows_of-write_csv, write_csv, rows_of-append_rows, last_or, latest_or_next,
  append_target, part_path_pos,
}
use bitcoin_data_exporter.CsvWriter.Parts.{
  IsConsecutive, IsConsecutive-above, get-beyond, values, numbers_from, all_parts-consecutive,
  numbers-consecutive, last_or-from, get-last, all_rows, all_rows-insert_next,
  all_rows-replace_last, IsConsecutive-replace, length-insert,
}

module _ {A : Type 0} ⦃c : Csv A⦄ where
  -- A logical CSV as this app leaves it: parts 1, 2, ... and a header line at the top of each.
  pub record IsLogical (d : Dir A) : Type 0 where
    pub consecutive : IsConsecutive 1 d
    pub headed : All (λ (f : ℕ × File A). IsHeaded f.1) d

  IsHeaded-at :
      (n : ℕ) (f : File A) (d : Dir A)
      → All (λ (f : ℕ × File A). IsHeaded f.1) d
      → Dict.get n d ≡ some f
      → IsHeaded f
  unfolding Dict.get
  IsHeaded-at n f [] h e = cc
  IsHeaded-at n f ((m, g) ∷ d) h e = ground (arith, IsHeaded-at n f d h.1)

  IsHeaded-insert :
      (n : ℕ) (f : File A) (d : Dir A)
      → All (λ (f : ℕ × File A). IsHeaded f.1) d
      → IsHeaded f
      → All (λ (f : ℕ × File A). IsHeaded f.1) (Dict.insert n f d)
  unfolding Dict.insert
  IsHeaded-insert n f [] h p = (p, tt)
  IsHeaded-insert n f ((m, g) ∷ d) h p = ground (arith, IsHeaded-insert n f d h.1 p)

  concat_rows-values :
      (d : Dir A)
      → All (λ (f : ℕ × File A). IsHeaded f.1) d
      → concat_rows (values d) ≡ all_rows rows_of d
  unfolding concat_rows values all_rows
  concat_rows-values [] h = refl
  concat_rows-values ((n, f) ∷ d) h = rw (IsHeaded-file_exists f h.0, concat_rows-values d h.1)

  pub read_csv_parts-all :
      (d : Dir A) → IsLogical d → length d < 1000000 → read_csv_parts d ≡ all_rows rows_of d
  unfolding read_csv_parts
  read_csv_parts-all d h l =
      rw (all_parts-consecutive d h.consecutive l) (concat_rows-values d h.headed)

  latest_cases :
      (d : Dir A) (size : ℕ) (k : ℕ) (f : File A)
      → 0 < k
      → Dict.get k d ≡ some f
      → (latest_or_next d size k ≡ k + 1) ⊎ (latest_or_next d size k ≡ k)
  unfolding latest_or_next
  latest_cases d size k f p e = ground (arith, part_path_pos k, part_path_pos (k + 1))

  -- The part that takes the rows is the next one, or the last one.
  target_cases :
      (d : Dir A) (size : ℕ)
      → IsLogical d
      → length d < 1000000
      → let k = current_part_for_append d size in
        (k ≡ 1 + length d) ⊎ ((k + 1 ≡ 1 + length d) × (f : File A) × (Dict.get k d ≡ some f))
  unfolding current_part_for_append numbers_from append_target
  target_cases [] size h l = inl refl
  target_cases ((n, g) ∷ d) size h l =
      let k : ℕ = suc (length d) in
      let last : last_or 1 (numbers_from 2 d) ≡ k =
        omega (arith, last_or-from 2 1 d (omega arith)) in
      let (f, e) = get-last 1 ((n, g) ∷ d) h.consecutive k (omega arith) (omega arith) in
      rw (numbers-consecutive ((n, g) ∷ d) h.consecutive l) (
        rw last (elim (latest_cases ((n, g) ∷ d) size k f (omega arith) e) [
          | inl p ↦ inl (rw p (omega arith))
          | inr p ↦ rw p (inr (omega arith, f, e))
        ]))

  get-last_pos : (k : ℕ) (f : File A) (d : Dir A) → IsLogical d → Dict.get k d ≡ some f → 1 ≤ k
  get-last_pos zero f d h e = cc (e, IsConsecutive-above 1 0 d h.consecutive (omega arith))
  get-last_pos (suc k) f d h e = omega arith

  write_at :
      (rows : List A) (k : ℕ) (g : File A) (d : Dir A)
      → IsLogical d
      → length d + 1 < 1000000
      → IsHeaded g
      → 1 ≤ k
      → k ≤ 1 + length d
      → all_rows rows_of (Dict.insert k g d) ≡ all_rows rows_of d ++ rows
      → (read_csv_parts (Dict.insert k g d) ≡ read_csv_parts d ++ rows)
        × IsLogical (Dict.insert k g d)
  write_at rows k g d h l p lo hi e =
      let kept : IsLogical (Dict.insert k g d) = record {
        consecutive = IsConsecutive-replace 1 k g d h.consecutive lo hi;
        headed = IsHeaded-insert k g d h.headed p;
      } in
      (
        read_csv_parts-all (Dict.insert k g d) kept (omega (arith, length-insert k g d))
            ∙ e
            ∙ ap (λ r. r ++ rows) (sym (read_csv_parts-all d h (omega arith))),
        kept,
      )

  -- For parts that are numbered without a gap, each with one header line on top, and fewer than 999999
  -- of them: what is read back after a write is what was read before and then the rows, and the parts
  -- stay so.
  pub read_csv_parts-write :
      (rows : List A) (d : Dir A) (size : ℕ)
      → IsLogical d
      → length d + 1 < 1000000
      → (read_csv_parts (write_rows_to_csv rows d size) ≡ read_csv_parts d ++ rows)
        × IsLogical (write_rows_to_csv rows d size)
  unfolding write_rows_to_csv
  read_csv_parts-write [] d size h l = (sym (append-nil _), h)
  read_csv_parts-write (a ∷ rows) d size h l =
      let k : ℕ = current_part_for_append d size in
      elim (target_cases d size h (omega arith)) [
        | inl e ↦
            rw (get-beyond 1 k d h.consecutive (omega arith), append_rows_new)
              (write_at (a ∷ rows) k (write_csv (a ∷ rows) true) d h l
                (write_csv-IsHeaded (a ∷ rows)) (omega arith) (omega arith)
                (all_rows-insert_next rows_of 1 k (write_csv (a ∷ rows) true) d h.consecutive e
                  ∙ ap (λ r. all_rows rows_of d ++ r) (rows_of-write_csv (a ∷ rows) true)))
        | inr (e, f, p) ↦ rw p (
            write_at (a ∷ rows) k (append_rows (some f) (a ∷ rows)) d h l
              (append_rows-IsHeaded f (a ∷ rows) (IsHeaded-at k f d h.headed p))
              (get-last_pos k f d h p) (omega arith)
              (all_rows-replace_last rows_of 1 k f (append_rows (some f) (a ∷ rows)) (a ∷ rows) d
                h.consecutive e p (rows_of-append_rows (some f) (a ∷ rows))))
      ]
