-- ===== src/PartWriter/Contents.antt =====
-- The logical CSV that the parts of a `PartSequencer` make up, and the rows in it.
use bitcoin_data_exporter.Common.{
  ℕ, zero, suc, ◌+◌, ◌≤◌, ◌<◌, ◌≡◌, refl, ◌≢◌, inl, inr, true, false, Option, none, some, List, [],
  ◌++◌, append-nil, append_assoc, arith, Bool-cases, Option-cases, nat_eq,
}
use bitcoin_data_exporter.Common.Dict
use bitcoin_data_exporter.Common.Dict.{get-insert_self, get-erase_self}
use bitcoin_data_exporter.Common.Dict.{Dict, dict_laws}
use native.Mathlib.Numerals.{add-one}
use bitcoin_data_exporter.CsvWriter.{
  Csv, File, Dir, write_csv, part_path_pos, append_rows, rows_at, rows_of, IsHeaded,
  rows_of-append_rows, rows_of-write_csv, write_csv-IsHeaded, append_rows-IsHeaded, append_rows_new,
}
use bitcoin_data_exporter.PartWriter.{
  PartSequencer, persist, close_if_open, append_to_part, begin_atomic, export_part,
}
use bitcoin_data_exporter.PartWriter.Invariant.{IsNumbered, none_above}

module _ {A : Type 0} where
  -- The rows of the exported parts 1 to k, in order.
  unfoldable pub exported_rows : ℕ → Dir A → List A
  exported_rows zero d = []
  exported_rows (suc k) d = exported_rows k d ++ rows_at (Dict.get (suc k) d)

  -- The logical CSV: what was exported, then the open part.
  unfoldable pub contents : PartSequencer A → List A
  contents s =
      exported_rows s.current_part s.disk.export ++ rows_at (Dict.get s.current_part s.disk.state)

  -- Under state_base lies the open part and nothing else, and every part has one header line.
  pub record IsTidy (s : PartSequencer A) : Type 0 where
    pub state_closed : s.part_is_open ≡ false → (n : ℕ) → Dict.get n s.disk.state ≡ none
    pub state_open : (n : ℕ) → n ≢ s.current_part → Dict.get n s.disk.state ≡ none
    pub state_headed : (n : ℕ) (f : File A) → Dict.get n s.disk.state ≡ some f → IsHeaded f
    pub export_headed : (n : ℕ) (f : File A) → Dict.get n s.disk.export ≡ some f → IsHeaded f

  exported_rows-eq :
      (k : ℕ) (d d' : Dir A)
      → ((n : ℕ) → n ≤ k → Dict.get n d ≡ Dict.get n d')
      → exported_rows k d ≡ exported_rows k d'
  unfolding exported_rows
  exported_rows-eq zero d d' h = refl
  exported_rows-eq (suc k) d d' h =
      cc (exported_rows-eq k d d' (λ n l. h n (omega arith)), h (suc k) (omega arith))

  -- A part put at a free number comes last.
  exported_rows-insert :
      (k : ℕ) (f : File A) (d : Dir A)
      → 0 < k
      → Dict.get k d ≡ none
      → exported_rows k (Dict.insert k f d) ≡ exported_rows k d ++ rows_of f
  unfolding exported_rows
  exported_rows-insert zero f d h e = absurd (omega arith)
  exported_rows-insert (suc k) f d h e =
      simp
        (
          e,
          dict_laws,
          append-nil,
          exported_rows-eq k (Dict.insert (suc k) f d) d (λ n l. grind (arith, dict_laws)),
        )
        (ground arith)

  pub exported_rows-next :
      (k : ℕ) (d : Dir A) → Dict.get (suc k) d ≡ none → exported_rows (k + 1) d ≡ exported_rows k d
  unfolding exported_rows
  exported_rows-next k d e = rw add-one (rw e (append-nil _))

  pub IsHeaded-insert :
      (k : ℕ) (v : File A) (d : Dir A)
      → IsHeaded v
      → ((n : ℕ) (f : File A) → Dict.get n d ≡ some f → IsHeaded f)
      → (n : ℕ) (f : File A) → Dict.get n (Dict.insert k v d) ≡ some f
      → IsHeaded f
  IsHeaded-insert k v d hv hd n f e = ground (arith, Dict.get-insert n k v d, hd n f)

  -- Closing a part moves its rows, and leaves state_base empty.
  pub contents-close_if_open :
      (s : PartSequencer A) → IsNumbered s → IsTidy s → contents (close_if_open s) ≡ contents s
  unfolding contents close_if_open
  contents-close_if_open s h t = elim (Bool-cases s.part_is_open) [
    | inr closed ↦ rw closed
    | inl opened ↦ elim (Option-cases (Dict.get s.current_part s.disk.state)) [
      | inl e ↦ simp (opened, part_path_pos s.current_part (h.open_pos opened), e)
      | inr (f, e) ↦ simp (
        opened,
        part_path_pos s.current_part (h.open_pos opened),
        e,
        get-erase_self,
        exported_rows-insert s.current_part f s.disk.export (h.open_pos opened)
            (h.open_absent opened),
        append-nil,
      )
    ]
  ]

  pub close_if_open-IsTidy :
      (s : PartSequencer A) → IsNumbered s → IsTidy s → IsTidy (close_if_open s)
  unfolding close_if_open
  close_if_open-IsTidy s h t = grind (arith, dict_laws, part_path_pos)

module _ {A : Type 0} ⦃c : Csv A⦄ (rows : List A) where
  append_rows-IsHeaded_option :
      (o : Option (File A))
      → ((f : File A) → o ≡ some f → IsHeaded f)
      → IsHeaded (append_rows o rows)
  append_rows-IsHeaded_option none h = rw append_rows_new (write_csv-IsHeaded rows)
  append_rows-IsHeaded_option (some f) h = append_rows-IsHeaded f rows (h f refl)

  pub contents-append :
      (s : PartSequencer A)
      → 0 < s.current_part
      → contents (persist (append_to_part rows s)) ≡ contents s ++ rows
  unfolding contents append_to_part persist
  contents-append s p =
      simp (part_path_pos s.current_part p, get-insert_self, rows_of-append_rows, append_assoc)

  pub append-IsTidy :
      (s : PartSequencer A)
      → 0 < s.current_part
      → s.part_is_open ≡ true
      → IsTidy s
      → IsTidy (persist (append_to_part rows s))
  unfolding append_to_part persist
  append-IsTidy s p o t = record {
    state_closed = ground arith;
    state_open = λ n ne. simp (part_path_pos s.current_part p) (
        ground (
          arith,
          Dict.get-insert_ne n s.current_part
              (append_rows (Dict.get s.current_part s.disk.state) rows) s.disk.state,
          t.state_open n,
        ));
    state_headed = simp (part_path_pos s.current_part p) (
        IsHeaded-insert s.current_part (append_rows (Dict.get s.current_part s.disk.state) rows)
          s.disk.state
          (append_rows-IsHeaded_option (Dict.get s.current_part s.disk.state)
            (t.state_headed s.current_part))
          t.state_headed);
    export_headed = t.export_headed;
  }

  pub contents-export_next :
      (s : PartSequencer A)
      → IsNumbered s
      → s.part_is_open ≡ false
      → IsTidy s
      → contents (export_part rows (persist (begin_atomic s))) ≡ contents s ++ rows
  unfolding contents export_part persist begin_atomic
  contents-export_next s h o t = simp (
    part_path_pos (s.current_part + 1) (omega arith),
    t.state_closed o,
    append-nil,
    exported_rows-insert (s.current_part + 1) (write_csv rows true) s.disk.export (omega arith)
        (none_above s h (s.current_part + 1) (omega arith)),
    exported_rows-next s.current_part s.disk.export
        (none_above s h (suc s.current_part) (omega arith)),
    rows_of-write_csv,
  )
