-- ===== src/PartWriter/Invariant.antt =====
-- The numbers of a `PartSequencer` against the disk.
use bitcoin_data_exporter.Common.{
  ℕ, ◌+◌, ◌≤◌, ◌<◌, ◌≡◌, inl, inr, true, false, none, some, List, arith, Option-cases, nat_eq,
}
use bitcoin_data_exporter.Common.Dict
use bitcoin_data_exporter.Common.Dict.{Dict, dict_laws}
use bitcoin_data_exporter.CsvWriter.{Csv, File, part_path_pos}
use bitcoin_data_exporter.PartWriter.{
  PartSequencer, initial_state, persist, close_if_open, open_next, append_to_part, write_batched,
  begin_atomic, export_part, write_atomic,
}

module _ {A : Type 0} where
  -- What the numbers of a sequencer promise about the disk: no exported part lies above the current
  -- one, and a part that is still open has not been exported.
  pub record IsNumbered (s : PartSequencer A) : Type 0 where
    pub exported_below :
        (n : ℕ) (f : File A) → Dict.get n s.disk.export ≡ some f → n ≤ s.current_part
    pub open_absent : s.part_is_open ≡ true → Dict.get s.current_part s.disk.export ≡ none
    pub open_pos : s.part_is_open ≡ true → 0 < s.current_part

  -- A restart finds the numbers that are in memory.
  abbrev pub Resumes : PartSequencer A → Type 0
  Resumes s = initial_state s.disk ≡ (s.current_part, s.part_is_open)

  -- A part that has been exported stays as it is.
  abbrev pub Keeps : PartSequencer A → PartSequencer A → Type 0
  Keeps s t =
      (n : ℕ) (f : File A) → Dict.get n s.disk.export ≡ some f → Dict.get n t.disk.export ≡ some f

  pub none_above :
      (s : PartSequencer A)
      → IsNumbered s
      → (n : ℕ) → s.current_part < n
      → Dict.get n s.disk.export ≡ none
  none_above s h n l = elim (Option-cases (Dict.get n s.disk.export)) [
    | inl e ↦ e
    | inr (f, e) ↦ absurd (omega (arith, h.exported_below n f e))
  ]

  pub current-close_if_open :
      (s : PartSequencer A) → (close_if_open s).current_part ≡ s.current_part
  unfolding close_if_open
  current-close_if_open s = ground (arith)

  pub open-close_if_open : (s : PartSequencer A) → (close_if_open s).part_is_open ≡ false
  unfolding close_if_open
  open-close_if_open s = ground arith

  pub close_if_open-IsNumbered : (s : PartSequencer A) → IsNumbered s → IsNumbered (close_if_open s)
  unfolding close_if_open
  close_if_open-IsNumbered s h = grind (arith, dict_laws, part_path_pos)

  pub close_if_open-Keeps : (s : PartSequencer A) → IsNumbered s → Keeps s (close_if_open s)
  unfolding close_if_open
  close_if_open-Keeps s h n f e = grind (arith, dict_laws, part_path_pos)

module _ {A : Type 0} ⦃c : Csv A⦄ (rows : List A) where
  pub open_next-IsNumbered :
      (s : PartSequencer A) → IsNumbered s → s.part_is_open ≡ false → IsNumbered (open_next s)
  unfolding open_next
  open_next-IsNumbered s h e = record {
    exported_below = λ n f p. omega (arith, h.exported_below n f p);
    open_absent = λ _. none_above s h (s.current_part + 1) (omega arith);
    open_pos = λ _. omega arith;
  }

  pub append-IsNumbered :
      (s : PartSequencer A) → IsNumbered s → IsNumbered (persist (append_to_part rows s))
  unfolding append_to_part persist
  append-IsNumbered s h = record {
    exported_below = h.exported_below;
    open_absent = h.open_absent;
    open_pos = h.open_pos;
  }

  pub write_batched-IsNumbered :
      (s : PartSequencer A) → IsNumbered s → IsNumbered (write_batched rows s)
  unfolding write_batched
  write_batched-IsNumbered s h =
      grind (
        arith, append-IsNumbered, open_next-IsNumbered, close_if_open-IsNumbered,
        open-close_if_open,
      )

  pub export_next-IsNumbered :
      (s : PartSequencer A)
      → IsNumbered s
      → IsNumbered (export_part rows (persist (begin_atomic s)))
  unfolding export_part persist begin_atomic
  export_next-IsNumbered s h = grind (arith, dict_laws, part_path_pos, none_above)

  pub write_atomic-IsNumbered :
      (s : PartSequencer A) → IsNumbered s → IsNumbered (write_atomic rows s)
  unfolding write_atomic
  write_atomic-IsNumbered s h = grind (arith, export_next-IsNumbered, close_if_open-IsNumbered)

  export_next-Keeps :
      (s : PartSequencer A) → IsNumbered s → Keeps s (export_part rows (persist (begin_atomic s)))
  unfolding export_part persist begin_atomic
  export_next-Keeps s h n f e = grind (arith, dict_laws, part_path_pos, h.exported_below n f e)

  append_next-Keeps : (s : PartSequencer A) → Keeps s (persist (append_to_part rows (open_next s)))
  unfolding append_to_part persist open_next
  append_next-Keeps s n f e = e

  append-Keeps : (s : PartSequencer A) → Keeps s (persist (append_to_part rows s))
  unfolding append_to_part persist
  append-Keeps s n f e = e

  -- A part that has been exported is never changed by a later write, in either mode.
  pub write_batched-Keeps : (s : PartSequencer A) → IsNumbered s → Keeps s (write_batched rows s)
  unfolding write_batched
  write_batched-Keeps s h n f e =
      grind (arith, append-Keeps, append_next-Keeps, close_if_open-Keeps)

  pub write_atomic-Keeps : (s : PartSequencer A) → IsNumbered s → Keeps s (write_atomic rows s)
  unfolding write_atomic
  write_atomic-Keeps s h n f e = ground (
    arith,
    export_next-Keeps (close_if_open s) (close_if_open-IsNumbered s h) n f
        (close_if_open-Keeps s h n f e),
  )

  -- After a write the counter file holds the numbers in memory.
  pub write_batched-Resumes : (s : PartSequencer A) → Resumes s → Resumes (write_batched rows s)
  unfolding write_batched initial_state
  write_batched-Resumes s h = ground arith

  pub write_atomic-Resumes : (s : PartSequencer A) → Resumes s → Resumes (write_atomic rows s)
  unfolding write_atomic initial_state
  write_atomic-Resumes s h = ground arith
