-- ===== src/PartWriter/Crash.antt =====
-- What a crash can leave behind on the disk of a `PartSequencer`.
use bitcoin_data_exporter.Common.{
  ℕ, ◌≤◌, ◌<◌, ◌≡◌, refl, ◌⊎◌, inl, inr, Bool, true, Option, none, some, List, [], ◌∷◌, subst,
  arith, Bool-cases, nat_eq, All,
}
use bitcoin_data_exporter.Common.Dict
use bitcoin_data_exporter.Common.Dict.{get-insert_self, get-erase_self}
use bitcoin_data_exporter.Common.Dict.{Dict, dict_laws}
use bitcoin_data_exporter.CsvWriter.{
  Csv, File, write_csv, part_path, part_path_pos, append_rows_new,
}
use bitcoin_data_exporter.PartWriter.{
  PartSequencer, Disk, initial_state, start, persist, hand_off, close_if_open, close_part,
  write_batched, begin_atomic, write_atomic, replace,
}
use bitcoin_data_exporter.PartWriter.Invariant.{
  IsNumbered, close_if_open-IsNumbered, write_atomic-IsNumbered,
}
use bitcoin_data_exporter.PartWriter.Handoff.{IsPersisted}

module _ {A : Type 0} where
  -- A new process on this disk starts with numbers that hold of it.
  abbrev pub Recovers : Disk A → Type 0
  Recovers d = IsNumbered (start 0 d)

  -- The moment in `_close_if_open` between the rename and the update of the counter file: part n is
  -- exported, and the counter file still calls it open.
  pub record InHandOver (n : ℕ) (f : File A) (d : Disk A) : Type 0 where
    pub claims_open : d.seq ≡ some (n, true)
    pub moved_away : Dict.get n d.state ≡ none
    pub exported : Dict.get n d.export ≡ some f

  abbrev pub Crashed : Disk A → Type 0
  Crashed d = Recovers d ⊎ ((n : ℕ) × (f : File A) × InHandOver n f d)

  -- Where the counter file names (n, o), a start takes these numbers.
  Recovers-seq :
      (d : Disk A) (n : ℕ) (o : Bool)
      → d.seq ≡ some (n, o)
      → ((m : ℕ) (f : File A) → Dict.get m d.export ≡ some f → m ≤ n)
      → (o ≡ true → (Dict.get n d.export ≡ none) × (0 < n))
      → Recovers d
  unfolding start
  Recovers-seq d n o e below opened =
      rw (e, initial_state)
        (record {
          exported_below = below;
          open_absent = λ p. (opened p).0;
          open_pos = λ p. (opened p).1;
        })

  Recovers-persisted : (s : PartSequencer A) → IsNumbered s → IsPersisted s → Recovers s.disk
  Recovers-persisted s h p =
      Recovers-seq s.disk s.current_part s.part_is_open p h.exported_below
        (λ o. (h.open_absent o, h.open_pos o))

  hand_off-Crashed :
      (f : File A) (s : PartSequencer A)
      → 0 < s.current_part
      → s.disk.seq ≡ some (s.current_part, true)
      → Crashed (replace (part_path s.current_part) f s.disk)
  unfolding replace
  hand_off-Crashed f s pos p = rw (part_path_pos s.current_part pos) (
      inr (
        s.current_part,
        f,
        record {
          claims_open = p;
          moved_away = get-erase_self s.current_part s.disk.state;
          exported = get-insert_self s.current_part f s.disk.export;
        },
      ))

  passed-hand_off :
      (o : Option (File A)) (s : PartSequencer A)
      → 0 < s.current_part
      → s.disk.seq ≡ some (s.current_part, true)
      → All Crashed s.passed
      → All Crashed (hand_off o s).passed
  unfolding hand_off
  passed-hand_off none s pos p cs = cs
  passed-hand_off (some f) s pos p cs = (hand_off-Crashed f s pos p, cs)

  closed_eq : (s : PartSequencer A) → s.part_is_open ≡ true → close_if_open s ≡ close_part s
  unfolding close_if_open
  closed_eq s o = ground arith

  close_part-Recovers :
      (s : PartSequencer A) → IsNumbered s → s.part_is_open ≡ true → Recovers (close_part s).disk
  close_part-Recovers s h o =
      Recovers-persisted (close_part s)
        (subst IsNumbered (closed_eq s o) (close_if_open-IsNumbered s h))
        (unfold close_part in refl)

  close_if_open-Crashed :
      (s : PartSequencer A)
      → IsNumbered s
      → IsPersisted s
      → All Crashed s.passed
      → All Crashed (close_if_open s).passed
  close_if_open-Crashed s h p cs = elim (Bool-cases s.part_is_open) [
    | inr closed ↦ unfold close_if_open in rw closed cs
    | inl opened ↦ rw (closed_eq s opened) (
        unfold close_part in
        (
          inl (close_part-Recovers s h opened),
          passed-hand_off (Dict.get (part_path s.current_part) s.disk.state) s (h.open_pos opened)
              (rw (← opened) p) cs,
        ))
  ]

module _ {A : Type 0} ⦃c : Csv A⦄ where
  begin_atomic-IsNumbered :
      (s : PartSequencer A) → IsNumbered s → IsNumbered (persist (begin_atomic s))
  unfolding persist begin_atomic
  begin_atomic-IsNumbered s h = record {
    exported_below = λ n f e. omega (arith, h.exported_below n f e);
    open_absent = λ o. cc;
    open_pos = λ o. cc;
  }

  pub write_atomic-Crashed :
      (rows : List A) (s : PartSequencer A)
      → IsNumbered s
      → IsPersisted s
      → All Crashed s.passed
      → All Crashed (write_atomic rows s).passed
  unfolding write_atomic
  write_atomic-Crashed [] s h p cs = cs
  write_atomic-Crashed (a ∷ rows) s h p cs =
      let s' = close_if_open s in
      let h' : IsNumbered s' = close_if_open-IsNumbered s h in
      let next : IsNumbered (persist (begin_atomic s')) = begin_atomic-IsNumbered s' h' in
      (
        inl (
            Recovers-persisted (write_atomic (a ∷ rows) s) (write_atomic-IsNumbered (a ∷ rows) s h)
              refl),
        (
          inl (Recovers-persisted (persist (begin_atomic s')) next refl),
          close_if_open-Crashed s h p cs,
        ),
      )

  -- Where the counter file says that a part is open while its file has been moved to the export folder,
  -- a process that starts there, writes rows in batched mode and then rows in atomic mode replaces the
  -- exported file by a new one with the first of these rows.
  pub reopened_part_overwrites :
      (cap n : ℕ) (f : File A) (d : Disk A) (a b : A) (rows more : List A)
      → 0 < n
      → InHandOver n f d
      → Dict.get n (write_atomic (b ∷ more) (write_batched (a ∷ rows) (start cap d))).disk.export
        ≡ some (write_csv (a ∷ rows) true)
  unfolding write_atomic write_batched start
  reopened_part_overwrites cap n f d a b rows more pos w =
      grind (arith, dict_laws, part_path_pos, append_rows_new, w.claims_open, w.moved_away)
