-- ===== src/PartWriter/Log.antt =====
-- The calls of a `PartSequencer` against an append-only log of rows.
use bitcoin_data_exporter.Common.{
  suc, ◌+◌, ◌≡◌, refl, sym, ap, ◌∙◌, inl, inr, true, false, List, [], ◌∷◌, ◌++◌, append-nil,
  append_assoc, arith, Bool-cases, nat_eq,
}
use bitcoin_data_exporter.CsvWriter.{Csv, write_csv, part_path, write_csv-IsHeaded}
use bitcoin_data_exporter.PartWriter.{
  PartSequencer, start, persist, close_if_open, open_next, append_to_part, needs_new_part,
  write_batched, begin_atomic, export_part, write_atomic,
}
use bitcoin_data_exporter.PartWriter.Contents.{
  contents, IsTidy, exported_rows-next, contents-close_if_open, close_if_open-IsTidy,
  contents-append, append-IsTidy, contents-export_next, IsHeaded-insert,
}
use bitcoin_data_exporter.PartWriter.Invariant.{
  IsNumbered, Resumes, none_above, open-close_if_open, close_if_open-IsNumbered,
  write_batched-IsNumbered, write_atomic-IsNumbered, write_batched-Resumes, write_atomic-Resumes,
}

-- What a caller does with a sequencer: a write in one of the modes, or a new process that finds
-- the disk as it is.
pub data Call (A : Type 0) : Type 0 where
  batched : List A → Call A
  atomic : List A → Call A
  restart : Call A

module _ {A : Type 0} where
  -- What holds between two calls.
  pub record IsSound (s : PartSequencer A) : Type 0 where
    pub numbered : IsNumbered s
    pub tidy : IsTidy s
    pub resumes : Resumes s

module _ {A : Type 0} ⦃c : Csv A⦄ (rows : List A) where
  -- A fresh part under state_base takes the rows.
  contents-open_next :
      (s : PartSequencer A)
      → IsNumbered s
      → IsTidy s
      → s.part_is_open ≡ false
      → contents (open_next s) ≡ contents s
  unfolding contents open_next
  contents-open_next s h t o = simp (
    exported_rows-next s.current_part s.disk.export
        (none_above s h (suc s.current_part) (omega arith)),
    t.state_closed o,
  )

  open_next-IsTidy :
      (s : PartSequencer A) → IsTidy s → s.part_is_open ≡ false → IsTidy (open_next s)
  unfolding open_next
  open_next-IsTidy s t o = record {
    state_closed = λ _. t.state_closed o;
    state_open = λ n _. t.state_closed o n;
    state_headed = t.state_headed;
    export_headed = t.export_headed;
  }

  -- One call of `write_batched`, in its two ways.
  contents-write_new :
      (s : PartSequencer A)
      → IsNumbered s
      → IsTidy s
      → contents (persist (append_to_part rows (open_next (close_if_open s)))) ≡ contents s ++ rows
  contents-write_new s h t =
      let s' = close_if_open s in
      let h' : IsNumbered s' = close_if_open-IsNumbered s h in
      let t' : IsTidy s' = close_if_open-IsTidy s h t in
      let o : s'.part_is_open ≡ false = open-close_if_open s in
      contents-append rows (open_next s') (unfold open_next in omega arith)
      ∙ ap (λ l. l ++ rows) (contents-open_next s' h' t' o ∙ contents-close_if_open s h t)

  write_new-IsTidy :
      (s : PartSequencer A)
      → IsNumbered s
      → IsTidy s
      → IsTidy (persist (append_to_part rows (open_next (close_if_open s))))
  write_new-IsTidy s h t =
      append-IsTidy rows (open_next (close_if_open s)) (unfold open_next in omega arith)
        (unfold open_next in refl)
        (open_next-IsTidy (close_if_open s) (close_if_open-IsTidy s h t) (open-close_if_open s))

module _ {A : Type 0} ⦃c : Csv A⦄ where
  -- The three ways through `write_batched`.
  pub write_batched_cases :
      (P : PartSequencer A → Type 0) (rows : List A) (s : PartSequencer A)
      → (rows ≡ [] → P s)
      → P (persist (append_to_part rows (open_next (close_if_open s))))
      → (s.part_is_open ≡ true → P (persist (append_to_part rows s)))
      → P (write_batched rows s)
  unfolding write_batched
  write_batched_cases P [] s p q r = p refl
  write_batched_cases P (a ∷ rows) s p q r = elim (Bool-cases (needs_new_part s)) [
    | inl fresh ↦ rw fresh q
    | inr same ↦ rw same (r (ground arith))
  ]

  contents-write_batched :
      (rows : List A) (s : PartSequencer A)
      → IsNumbered s
      → IsTidy s
      → contents (write_batched rows s) ≡ contents s ++ rows
  contents-write_batched rows s h t =
      write_batched_cases (λ r. contents r ≡ contents s ++ rows) rows s (λ e. rw (e, append-nil))
        (contents-write_new rows s h t) (λ o. contents-append rows s (h.open_pos o))

  write_batched-IsTidy :
      (rows : List A) (s : PartSequencer A)
      → IsNumbered s
      → IsTidy s
      → IsTidy (write_batched rows s)
  write_batched-IsTidy rows s h t =
      write_batched_cases IsTidy rows s (λ _. t) (write_new-IsTidy rows s h t)
        (λ o. append-IsTidy rows s (h.open_pos o) o t)

  contents-write_atomic :
      (rows : List A) (s : PartSequencer A)
      → IsNumbered s
      → IsTidy s
      → contents (write_atomic rows s) ≡ contents s ++ rows
  unfolding write_atomic
  contents-write_atomic [] s h t = sym (append-nil _)
  contents-write_atomic (a ∷ rows) s h t =
      contents-export_next (a ∷ rows) (close_if_open s) (close_if_open-IsNumbered s h)
        (open-close_if_open s) (close_if_open-IsTidy s h t)
      ∙ ap (λ l. l ++ a ∷ rows) (contents-close_if_open s h t)

  export_next-IsTidy :
      (rows : List A) (s : PartSequencer A)
      → s.part_is_open ≡ false
      → IsTidy s
      → IsTidy (export_part rows (persist (begin_atomic s)))
  unfolding export_part persist begin_atomic
  export_next-IsTidy rows s o t = record {
    state_closed = λ _. t.state_closed o;
    state_open = λ n _. t.state_closed o n;
    state_headed = t.state_headed;
    export_headed =
        IsHeaded-insert (part_path (s.current_part + 1)) (write_csv rows true) s.disk.export
          (write_csv-IsHeaded rows) t.export_headed;
  }

  write_atomic-IsTidy :
      (rows : List A) (s : PartSequencer A) → IsNumbered s → IsTidy s → IsTidy (write_atomic rows s)
  unfolding write_atomic
  write_atomic-IsTidy [] s h t = t
  write_atomic-IsTidy (a ∷ rows) s h t =
      export_next-IsTidy (a ∷ rows) (close_if_open s) (open-close_if_open s)
        (close_if_open-IsTidy s h t)

  unfoldable pub call : Call A → PartSequencer A → PartSequencer A
  call (batched rows) s = write_batched rows s
  call (atomic rows) s = write_atomic rows s
  call restart s = start s.max_part_bytes s.disk

  unfoldable pub calls : List (Call A) → PartSequencer A → PartSequencer A
  unfolding call
  calls [] s = s
  calls (k ∷ ks) s = calls ks (call k s)

  unfoldable pub rows_given : List (Call A) → List A
  rows_given [] = []
  rows_given (batched rows ∷ ks) = rows ++ rows_given ks
  rows_given (atomic rows ∷ ks) = rows ++ rows_given ks
  rows_given (restart ∷ ks) = rows_given ks

  pub start-same :
      (s : PartSequencer A) → Resumes s → start s.max_part_bytes s.disk ≡ record s { passed = [] }
  unfolding start
  start-same s r = ground arith

  pub call-IsSound : (k : Call A) (s : PartSequencer A) → IsSound s → IsSound (call k s)
  unfolding call
  call-IsSound (batched rows) s v = record {
    numbered = write_batched-IsNumbered rows s v.numbered;
    tidy = write_batched-IsTidy rows s v.numbered v.tidy;
    resumes = write_batched-Resumes rows s v.resumes;
  }
  call-IsSound (atomic rows) s v = record {
    numbered = write_atomic-IsNumbered rows s v.numbered;
    tidy = write_atomic-IsTidy rows s v.numbered v.tidy;
    resumes = write_atomic-Resumes rows s v.resumes;
  }
  call-IsSound restart s v = rw (start-same s v.resumes) (record {
    numbered = record {
      exported_below = v.numbered.exported_below;
      open_absent = v.numbered.open_absent;
      open_pos = v.numbered.open_pos;
    };
    tidy = record {
      state_closed = v.tidy.state_closed;
      state_open = v.tidy.state_open;
      state_headed = v.tidy.state_headed;
      export_headed = v.tidy.export_headed;
    };
    resumes = v.resumes;
  })

  pub contents-call :
      (k : Call A) (s : PartSequencer A)
      → IsSound s
      → contents (call k s) ≡ contents s ++ rows_given (k ∷ [])
  unfolding call rows_given
  contents-call (batched rows) s v = rw append-nil (contents-write_batched rows s v.numbered v.tidy)
  contents-call (atomic rows) s v = rw append-nil (contents-write_atomic rows s v.numbered v.tidy)
  contents-call restart s v = rw (start-same s v.resumes) (unfold contents in sym (append-nil _))

  rows_given-cons :
      (k : Call A) (ks : List (Call A)) → rows_given (k ∷ ks) ≡ rows_given (k ∷ []) ++ rows_given ks
  unfolding rows_given
  rows_given-cons (batched rows) ks = rw append-nil
  rows_given-cons (atomic rows) ks = rw append-nil
  rows_given-cons restart ks = refl

  -- From a sequencer whose numbers, files and counter file agree: whatever the calls, restarts among
  -- them, the logical CSV that the parts make up grows by exactly the rows that were given, in their
  -- order, and the sequencer stays so.
  pub calls-append :
      (ks : List (Call A)) (s : PartSequencer A)
      → IsSound s
      → (contents (calls ks s) ≡ contents s ++ rows_given ks) × IsSound (calls ks s)
  unfolding calls
  calls-append [] s v = (unfold rows_given in sym (append-nil _), v)
  calls-append (k ∷ ks) s v =
      let (same, sound) = calls-append ks (call k s) (call-IsSound k s v) in
      (rw (same, contents-call k s v, rows_given-cons k ks, append_assoc), sound)
