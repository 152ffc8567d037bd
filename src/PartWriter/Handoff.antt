-- ===== src/PartWriter/Handoff.antt =====
-- Hand-over to the consumer of export_base: a part number is used once.
use bitcoin_data_exporter.Common.{
  ℕ, ◌+◌, ◌≤◌, ◌≡◌, refl, ◌∙◌, ◌≢◌, ◌⊎◌, inl, true, none, some, List, [], ◌∷◌, arith, nat_eq,
}
use bitcoin_data_exporter.Common.Dict
use bitcoin_data_exporter.Common.Dict.{Dict, dict_laws}
use bitcoin_data_exporter.CsvWriter.{Csv, write_csv, part_path, part_path_pos}
use bitcoin_data_exporter.PartWriter.{
  PartSequencer, initial_state, close_if_open, write_batched, write_atomic,
}
use bitcoin_data_exporter.PartWriter.Log.{Call, batched, atomic, restart, call, start-same}
use bitcoin_data_exporter.PartWriter.Invariant.{
  IsNumbered, Resumes, current-close_if_open, write_batched-IsNumbered, write_atomic-IsNumbered,
}

module _ {A : Type 0} where
  -- The counter file holds the numbers in memory.
  abbrev pub IsPersisted : PartSequencer A → Type 0
  IsPersisted s = s.disk.seq ≡ some (s.current_part, s.part_is_open)

  -- A number that is behind the sequencer: its part has been closed, or skipped.
  abbrev pub IsTaken : ℕ → PartSequencer A → Type 0
  IsTaken n s = (n ≤ s.current_part) × (s.part_is_open ≡ true → n ≢ s.current_part)

module _ {A : Type 0} where
  persisted-Resumes : (s : PartSequencer A) → IsPersisted s → Resumes s
  unfolding initial_state
  persisted-Resumes s p = rw p

-- What happens around a sequencer: a call, or the consumer takes an exported part away.
pub data Event (A : Type 0) : Type 0 where
  write : Call A → Event A
  consume : ℕ → Event A

module _ {A : Type 0} ⦃c : Csv A⦄ where
  unfoldable pub event : Event A → PartSequencer A → PartSequencer A
  unfolding call
  event (write k) s = call k s
  event (consume n) s = record s { disk = record s.disk { export = Dict.erase n s.disk.export } }

  unfoldable pub events : List (Event A) → PartSequencer A → PartSequencer A
  unfolding event
  events [] s = s
  events (e ∷ es) s = events es (event e s)

  -- Nothing is exported under a number that is behind the sequencer.
  close_if_open-taken :
      (n : ℕ) (s : PartSequencer A)
      → IsNumbered s
      → IsTaken n s
      → Dict.get n (close_if_open s).disk.export ≡ Dict.get n s.disk.export
  unfolding close_if_open
  close_if_open-taken n s h t = grind (arith, dict_laws, part_path_pos)

  write_batched-taken :
      (n : ℕ) (rows : List A) (s : PartSequencer A)
      → IsNumbered s
      → IsTaken n s
      → Dict.get n (write_batched rows s).disk.export ≡ Dict.get n s.disk.export
  unfolding write_batched
  write_batched-taken n [] s h t = refl
  write_batched-taken n (a ∷ rows) s h t = ground (arith, close_if_open-taken n s h t)

  write_atomic-taken :
      (n : ℕ) (rows : List A) (s : PartSequencer A)
      → IsNumbered s
      → IsTaken n s
      → Dict.get n (write_atomic rows s).disk.export ≡ Dict.get n s.disk.export
  unfolding write_atomic
  write_atomic-taken n [] s h t = refl
  write_atomic-taken n (a ∷ rows) s h t =
      let next = (close_if_open s).current_part + 1 in
      Dict.get-insert_ne n (part_path next) (write_csv (a ∷ rows) true)
        (close_if_open s).disk.export
        (λ e.
          absurd (omega (arith, current-close_if_open s, part_path_pos next (omega arith), e, t.0)))
      ∙ close_if_open-taken n s h t

  write_batched-IsTaken :
      (n : ℕ) (rows : List A) (s : PartSequencer A) → IsTaken n s → IsTaken n (write_batched rows s)
  unfolding write_batched
  write_batched-IsTaken n [] s t = t
  write_batched-IsTaken n (a ∷ rows) s t = ground (arith, current-close_if_open s)

  write_atomic-IsTaken :
      (n : ℕ) (rows : List A) (s : PartSequencer A) → IsTaken n s → IsTaken n (write_atomic rows s)
  unfolding write_atomic
  write_atomic-IsTaken n [] s t = t
  write_atomic-IsTaken n (a ∷ rows) s t = ground (arith, current-close_if_open s)

  write_batched-IsPersisted :
      (rows : List A) (s : PartSequencer A) → IsPersisted s → IsPersisted (write_batched rows s)
  unfolding write_batched
  write_batched-IsPersisted [] s p = p
  write_batched-IsPersisted (a ∷ rows) s p = refl

  write_atomic-IsPersisted :
      (rows : List A) (s : PartSequencer A) → IsPersisted s → IsPersisted (write_atomic rows s)
  unfolding write_atomic
  write_atomic-IsPersisted [] s p = p
  write_atomic-IsPersisted (a ∷ rows) s p = refl

  -- Either of the two writes, and a restart.
  call-IsTaken_same :
      (n : ℕ) (k : Call A) (s : PartSequencer A)
      → IsNumbered s
      → IsPersisted s
      → IsTaken n s
      → (Dict.get n (call k s).disk.export ≡ Dict.get n s.disk.export) × IsTaken n (call k s)
  unfolding call
  call-IsTaken_same n (batched rows) s h p t =
      (write_batched-taken n rows s h t, write_batched-IsTaken n rows s t)
  call-IsTaken_same n (atomic rows) s h p t =
      (write_atomic-taken n rows s h t, write_atomic-IsTaken n rows s t)
  call-IsTaken_same n restart s h p t = rw (start-same s (persisted-Resumes s p)) (refl, t)

  call-IsNumbered :
      (k : Call A) (s : PartSequencer A) → IsNumbered s → IsPersisted s → IsNumbered (call k s)
  unfolding call
  call-IsNumbered (batched rows) s h p = write_batched-IsNumbered rows s h
  call-IsNumbered (atomic rows) s h p = write_atomic-IsNumbered rows s h
  call-IsNumbered restart s h p = rw (start-same s (persisted-Resumes s p)) (record {
    exported_below = h.exported_below;
    open_absent = h.open_absent;
    open_pos = h.open_pos;
  })

  call-IsPersisted : (k : Call A) (s : PartSequencer A) → IsPersisted s → IsPersisted (call k s)
  unfolding call
  call-IsPersisted (batched rows) s p = write_batched-IsPersisted rows s p
  call-IsPersisted (atomic rows) s p = write_atomic-IsPersisted rows s p
  call-IsPersisted restart s p = rw (start-same s (persisted-Resumes s p)) p

  consume-IsNumbered :
      (n : ℕ) (s : PartSequencer A) → IsNumbered s → IsNumbered (event (consume n) s)
  unfolding event
  consume-IsNumbered n s h = grind (arith, dict_laws)

  -- For a sequencer whose numbers hold and whose counter file is up to date, and for a part number that
  -- is behind it: whatever calls, restarts and acts of the consumer follow, the file exported under
  -- that number is the same as before or has been taken away, so no call puts another file there.
  pub events-taken :
      (n : ℕ) (es : List (Event A)) (s : PartSequencer A)
      → IsNumbered s
      → IsPersisted s
      → IsTaken n s
      → (Dict.get n (events es s).disk.export ≡ Dict.get n s.disk.export)
        ⊎ (Dict.get n (events es s).disk.export ≡ none)
  unfolding events
  events-taken n [] s h p t = inl refl
  events-taken n (write k ∷ es) s h p t =
      let (same, t') = call-IsTaken_same n k s h p t in
      rw (← same)
        (events-taken n es (call k s) (call-IsNumbered k s h p) (call-IsPersisted k s p) t')
  events-taken n (consume m ∷ es) s h p t =
      let later = events-taken n es (event (consume m) s) (consume-IsNumbered m s h) p t in
      ground (arith, later, Dict.get-erase n m s.disk.export)
