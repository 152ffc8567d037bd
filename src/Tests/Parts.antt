-- ===== src/Tests/Parts.antt =====
-- Runs of the code of common/csv_writer.py and rpc/part_writer.py (under btc_parser_app) on small files.
use bitcoin_data_exporter.Common.{
  ℕ, ◌≤◌, ◌≡◌, refl, ◌⊎◌, inl, inr, true, none, some, List, [], ◌∷◌, ◌++◌, arith, if◌then◌else◌,
  Bool-cases, ◌==◌, nat_eq, string_eq,
}
use bitcoin_data_exporter.Common.Dict
use bitcoin_data_exporter.Common.Dict.{Dict, dict_laws}
use bitcoin_data_exporter.Common.{subst}
use bitcoin_data_exporter.CsvWriter.{
  Csv, IsHeaded, File, Dir, Line, write_csv, read_csv_parts, write_rows_to_csv,
}
use bitcoin_data_exporter.CsvWriter.Append.{IsLogical, read_csv_parts-write}
use bitcoin_data_exporter.PartWriter.{
  PartSequencer, Disk, initial_state, start, write_batched, write_atomic,
}
use bitcoin_data_exporter.PartWriter.Contents.{contents, IsTidy}
use bitcoin_data_exporter.PartWriter.Invariant.{IsNumbered}
use bitcoin_data_exporter.PartWriter.Log.{
  IsSound, Call, batched, atomic, restart, calls, rows_given, calls-append,
}
use bitcoin_data_exporter.PartWriter.Handoff.{IsTaken, Event, write, consume, events, events-taken}
use bitcoin_data_exporter.PartWriter.Crash.{InHandOver, reopened_part_overwrites}

instance pub csv_nat : Csv ℕ
csv_nat = record { header_bytes = 6; row_bytes = λ _. 3; header_pos = omega arith }

abbrev pub one_row : ℕ → File ℕ
one_row n = Line.header ∷ Line.row n ∷ []

-- Part 1 has been exported, part 2 is open.
abbrev pub midway_disk : Disk ℕ
midway_disk = record {
  state = (2, one_row 8) ∷ [];
  export = (1, one_row 7) ∷ [];
  seq = some (2, true);
}

abbrev pub midway : PartSequencer ℕ
midway = record {
  current_part = 2;
  part_is_open = true;
  max_part_bytes = 12;
  disk = midway_disk;
  passed = [];
}

below : (n : ℕ) (f : File ℕ) → Dict.get n ((1, one_row 7) ∷ []) ≡ some f → n ≤ 2
unfolding Dict.get
below n f e = ground arith

midway-IsNumbered : IsNumbered midway
unfolding Dict.get nat_eq
midway-IsNumbered = record {
  exported_below = below;
  open_absent = λ o. refl;
  open_pos = λ o. omega arith;
}

IsHeaded-one : (k a n : ℕ) (f : File ℕ) → Dict.get n ((k, one_row a) ∷ []) ≡ some f → IsHeaded f
unfolding Dict.get
IsHeaded-one k a n f e = elim (Bool-cases (n == k)) [
  | inl q ↦
      subst IsHeaded
        (some_inj (one_row a) f (subst (λ b. (if b then some (one_row a) else none) ≡ some f) q e))
        (tt, tt)
  | inr q ↦ absurd (ground arith)
]
  where
    some_inj : (x y : File ℕ) → some x ≡ some y → x ≡ y
    some_inj x y p = cc

midway-IsTidy : IsTidy midway
unfolding Dict.get
midway-IsTidy = record {
  state_closed = λ o. absurd (ground arith);
  state_open = λ n ne. ground arith;
  state_headed = IsHeaded-one 2 8;
  export_headed = IsHeaded-one 1 7;
}

midway-IsSound : IsSound midway
unfolding initial_state
midway-IsSound = record { numbered = midway-IsNumbered; tidy = midway-IsTidy; resumes = refl }

abbrev some_calls : List (Call ℕ)
some_calls = batched (9 ∷ []) ∷ restart ∷ atomic (10 ∷ 11 ∷ []) ∷ batched (12 ∷ []) ∷ []

calls-append_example :
    (contents (calls some_calls midway) ≡ contents midway ++ rows_given some_calls)
    × IsSound (calls some_calls midway)
calls-append_example = calls-append some_calls midway midway-IsSound

abbrev some_events : List (Event ℕ)
some_events = write (atomic (9 ∷ [])) ∷ consume 1 ∷ write restart ∷ write (batched (10 ∷ [])) ∷ []

first-IsTaken : IsTaken 1 midway
first-IsTaken = (omega arith, λ _. ground arith)

events-taken_example :
    (Dict.get 1 (events some_events midway).disk.export ≡ Dict.get 1 midway_disk.export)
    ⊎ (Dict.get 1 (events some_events midway).disk.export ≡ none)
events-taken_example = events-taken 1 some_events midway midway-IsNumbered refl first-IsTaken

-- The process died right after the rename of part 1.
abbrev dropped_disk : Disk ℕ
dropped_disk = record { state = []; export = (1, one_row 7) ∷ []; seq = some (1, true) }

dropped-InHandOver : InHandOver 1 (one_row 7) dropped_disk
unfolding Dict.get nat_eq
dropped-InHandOver = record { claims_open = refl; moved_away = refl; exported = refl }

reopened_part_overwrites_example :
    Dict.get 1 (write_atomic (9 ∷ []) (write_batched (8 ∷ []) (start 12 dropped_disk))).disk.export
    ≡ some (write_csv (8 ∷ []) true)
reopened_part_overwrites_example =
    reopened_part_overwrites 12 1 (one_row 7) dropped_disk 8 9 [] [] (omega arith)
      dropped-InHandOver

abbrev two_parts : Dir ℕ
two_parts = (1, one_row 7) ∷ (2, one_row 8) ∷ []

two_parts-IsLogical : IsLogical two_parts
two_parts-IsLogical = record {
  consecutive = (refl, (refl, tt));
  headed = ((tt, tt), ((tt, tt), tt));
}

read_csv_parts-write_example :
    (read_csv_parts (write_rows_to_csv (9 ∷ []) two_parts 9) ≡ read_csv_parts two_parts ++ 9 ∷ [])
    × IsLogical (write_rows_to_csv (9 ∷ []) two_parts 9)
read_csv_parts-write_example =
    read_csv_parts-write (9 ∷ []) two_parts 9 two_parts-IsLogical (omega arith)
