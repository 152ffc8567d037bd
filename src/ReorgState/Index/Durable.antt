-- ===== src/ReorgState/Index/Durable.antt =====
-- What `flush` makes durable is what a restart reads back.
use bitcoin_data_exporter.Common.{
  ℕ, ◌+◌, ◌≤◌, ◌<◌, ◌≡◌, refl, sym, ap, ◌∙◌, ◌⊎◌, inl, inr, true, false, none, some, List, [], ◌∷◌,
  ◌++◌, arith, Bool-cases, nat_eq, string_eq, length, is_empty, All, max_or,
}
use bitcoin_data_exporter.Common.Dict
use bitcoin_data_exporter.Common.Dict.{Dict, dict_laws}
use bitcoin_data_exporter.CsvWriter.{part_path_pos, existing_part_numbers}
use bitcoin_data_exporter.CsvWriter.Parts.{
  IsConsecutive, get-beyond, values, numbers_from, all_parts-consecutive, numbers-consecutive,
  get-last, all_rows, all_rows-insert_next, all_rows-replace_last, IsConsecutive-replace,
  length-insert_next, length-insert_old, at_least, max_or-from,
}
use bitcoin_data_exporter.ReorgState.Index.{
  Hash, IndexRow, IndexFile, blank, table, IndexSize, IndexStore, rows_in, register, register_all,
  register_parts, load, open_store, get_row, pending_rows, append_index, rolls, flush, flush_part,
  flush_to,
}

-- Two dictionaries that answer alike.
abbrev pub Same : Dict Hash IndexRow → Dict Hash IndexRow → Type 0
Same d e = (h : Hash) → Dict.get h d ≡ Dict.get h e

-- Every staged row stands under its own hash.
abbrev pub IsStaged : Dict Hash IndexRow → Type 0
IsStaged = All (λ (p : Hash × IndexRow). p.0 ≡ p.1.blockhash)

-- index.csv on disk says what the memory holds, and its parts are 1 to current_part (none yet, at
-- part 1).
pub record IsDurable (ix : IndexStore) : Type 0 where
  pub consecutive : IsConsecutive 1 ix.parts
  pub last : (length ix.parts ≡ ix.current_part) ⊎ ((length ix.parts ≡ 0) × (ix.current_part ≡ 1))
  pub positive : 1 ≤ ix.current_part
  pub loaded : Same (register_all (all_rows rows_in ix.parts) []) ix.by_hash
  pub staged : IsStaged ix.pending

register_all-append :
    (xs ys : List IndexRow) (d : Dict Hash IndexRow)
    → register_all (xs ++ ys) d ≡ register_all ys (register_all xs d)
unfolding register_all
register_all-append [] ys d = refl
register_all-append (x ∷ xs) ys d = register_all-append xs ys (register x d)

register_all-Same :
    (xs : List IndexRow) (d e : Dict Hash IndexRow)
    → Same d e
    → Same (register_all xs d) (register_all xs e)
unfolding register_all
register_all-Same [] d e s = s
register_all-Same (x ∷ xs) d e s =
    register_all-Same xs (register x d) (register x e)
      (unfold register in λ h. simp dict_laws (ground (arith, s h)))

-- The pending rows, registered one after another, are the `update` of the dictionary.
register_all-pending :
    (p d : Dict Hash IndexRow) → IsStaged p → register_all (pending_rows p) d ≡ Dict.update p d
unfolding register_all pending_rows Dict.update
register_all-pending [] d h = refl
register_all-pending ((k, r) ∷ p) d h =
    rw h.0 (register_all-pending p (Dict.insert r.blockhash r d) h.1)

register_parts-values :
    (d : Dict ℕ IndexFile) (e : Dict Hash IndexRow)
    → register_parts (values d) e ≡ register_all (all_rows rows_in d) e
unfolding register_parts values all_rows
register_parts-values [] e = refl
register_parts-values ((n, f) ∷ d) e =
    register_parts-values d (register_all (rows_in f) e)
    ∙ sym (register_all-append (rows_in f) (all_rows rows_in d) e)

pub load-all :
    (d : Dict ℕ IndexFile)
    → IsConsecutive 1 d
    → length d < 1000000
    → load d ≡ register_all (all_rows rows_in d) []
unfolding load
load-all d h l = rw (all_parts-consecutive d h l) (register_parts-values d [])

rows_in-append_index :
    (f : IndexFile) (xs : List IndexRow)
    → (f ≡ blank) ⊎ ((old : List IndexRow) × (f ≡ table true old))
    → rows_in (append_index (some f) xs) ≡ rows_in f ++ xs
unfolding rows_in append_index
rows_in-append_index blank xs h = refl
rows_in-append_index (table true old) xs h = refl
rows_in-append_index (table false old) xs (inl e) = cc
rows_in-append_index (table false old) xs (inr (o, e)) = cc

rows_in-append_new : (xs : List IndexRow) → rows_in (append_index none xs) ≡ xs
unfolding rows_in append_index
rows_in-append_new xs = refl

highest_part :
    (d : Dict ℕ IndexFile) (n : ℕ)
    → IsConsecutive 1 d
    → length d < 1000000
    → 1 ≤ n
    → (length d ≡ n) ⊎ ((length d ≡ 0) × (n ≡ 1))
    → max_or 1 (existing_part_numbers d) ≡ n
highest_part [] n h l p q =
    rw (numbers-consecutive {F = IndexFile} [] h l) (unfold numbers_from in omega arith)
highest_part (x ∷ d) n h l p q =
    rw (numbers-consecutive (x ∷ d) h l) (omega (arith, max_or-from 1 1 (x ∷ d) (omega arith)))

module _ ⦃z : IndexSize⦄ where
  -- A part that is not left takes rows of the current version.
  kept_part :
      (f : IndexFile)
      → rolls (some f) ≡ false
      → (f ≡ blank) ⊎ ((old : List IndexRow) × (f ≡ table true old))
  unfolding rolls
  kept_part blank h = inl refl
  kept_part (table true old) h = inr (old, refl)
  kept_part (table false old) h = ground arith

  -- The part that `flush` writes to is the next one, or the last one with its rows in this version.
  abbrev pub Target : ℕ → IndexStore → Type 0
  Target k ix =
      (k ≡ 1 + length ix.parts)
      ⊎ ((k + 1 ≡ 1 + length ix.parts)
          × (f : IndexFile) × (Dict.get k ix.parts ≡ some f)
          × ((f ≡ blank) ⊎ ((old : List IndexRow) × (f ≡ table true old))))

  flush_part-Target : (ix : IndexStore) → IsDurable ix → Target (flush_part ix) ix
  unfolding flush_part
  flush_part-Target ix v = elim v.last [
    | inr (e, p) ↦
        rw
          (
            part_path_pos ix.current_part v.positive,
            get-beyond 1 ix.current_part ix.parts v.consecutive (omega arith),
          )
          (inl (omega arith))
    | inl e ↦
        let (f, p) = get-last 1 ix.parts v.consecutive ix.current_part v.positive (omega arith) in
        rw (part_path_pos ix.current_part v.positive, p)
          (elim (Bool-cases (rolls (some f))) [
            | inl left ↦ rw left (inl (omega arith))
            | inr kept ↦ rw kept (inr (omega arith, f, p, kept_part f kept))
          ])
  ]

  -- The rows on disk, and the numbers, after the write.
  all_rows-flush_to :
      (k : ℕ) (ix : IndexStore)
      → IsDurable ix
      → Target k ix
      → (1 ≤ k)
        × (k ≤ 1 + length ix.parts)
        × (all_rows rows_in (flush_to k ix).parts
            ≡ all_rows rows_in ix.parts ++ pending_rows ix.pending)
        × (length (flush_to k ix).parts ≡ k)
  unfolding flush_to
  all_rows-flush_to k ix v (inl e) =
      rw (part_path_pos k (omega arith), get-beyond 1 k ix.parts v.consecutive (omega arith))
        (
          omega arith,
          omega arith,
          all_rows-insert_next rows_in 1 k (append_index none (pending_rows ix.pending)) ix.parts
                v.consecutive e
              ∙ ap (λ r. all_rows rows_in ix.parts ++ r)
                  (rows_in-append_new (pending_rows ix.pending)),
          omega (
            arith,
            length-insert_next 1 k (append_index none (pending_rows ix.pending)) ix.parts
                v.consecutive e,
            e,
          ),
        )
  all_rows-flush_to k ix v (inr (e, f, p, q)) =
      let pos : 1 ≤ k = omega (arith, at_least 1 k f ix.parts v.consecutive p) in
      rw (part_path_pos k pos, p)
        (
          pos,
          omega arith,
          all_rows-replace_last rows_in 1 k f (append_index (some f) (pending_rows ix.pending))
              (pending_rows ix.pending) ix.parts v.consecutive e p
              (rows_in-append_index f (pending_rows ix.pending) q),
          omega (
            arith,
            length-insert_old k (append_index (some f) (pending_rows ix.pending)) f ix.parts p,
          ),
        )

  flush_to-IsDurable :
      (k : ℕ) (ix : IndexStore) → IsDurable ix → Target k ix → IsDurable (flush_to k ix)
  flush_to-IsDurable k ix v t =
      let (lo, hi, rows, size) = all_rows-flush_to k ix v t in
      unfold flush_to in
      record {
        consecutive = rw (part_path_pos k lo) (
            IsConsecutive-replace 1 k (append_index (Dict.get k ix.parts) (pending_rows ix.pending))
              ix.parts v.consecutive lo hi);
        last = inl size;
        positive = lo;
        loaded = rw rows (
            rw (register_all-append (all_rows rows_in ix.parts) (pending_rows ix.pending) []) (
              rw (← register_all-pending ix.pending ix.by_hash v.staged) (
                register_all-Same (pending_rows ix.pending)
                  (register_all (all_rows rows_in ix.parts) []) ix.by_hash v.loaded)));
        staged = tt;
      }

  pub flush-IsDurable : (ix : IndexStore) → IsDurable ix → IsDurable (flush ix)
  unfolding flush
  flush-IsDurable ix v = elim (Bool-cases (is_empty ix.pending)) [
    | inl e ↦ rw e v
    | inr e ↦ rw e (flush_to-IsDurable (flush_part ix) ix v (flush_part-Target ix v))
  ]

  -- For a store whose memory agrees with its files, with parts numbered without a gap below 1000000:
  -- after `flush`, a process that starts anew on the files has for every hash the same row as this one,
  -- and continues in the same part.
  pub flush_reload :
      (ix : IndexStore)
      → IsDurable ix
      → length (flush ix).parts < 1000000
      → ((h : Hash) → get_row h (open_store (flush ix).parts) ≡ get_row h (flush ix))
        × ((open_store (flush ix).parts).current_part ≡ (flush ix).current_part)
  unfolding open_store get_row
  flush_reload ix v l =
      let w : IsDurable (flush ix) = flush-IsDurable ix v in
      (
        λ h. rw (load-all (flush ix).parts w.consecutive l) (w.loaded h),
        highest_part (flush ix).parts (flush ix).current_part w.consecutive l w.positive w.last,
      )
