-- ===== src/CsvWriter.antt =====
-- common/csv_writer.py (under btc_parser_app): the numbered parts of a logical CSV.
-- The parts of one logical CSV that lie in one folder are a dictionary from the number in a
-- part's file name to the part's lines.
pub mod Parts
pub mod Append
use bitcoin_data_exporter.Common.{
  ℕ, zero, suc, ◌+◌, ◌-◌, ◌*◌, ◌≤◌, ◌<◌, min, max, String, ◌≡◌, refl, sym, ap, ◌∙◌, ◌≢◌, ◌⊎◌, inl,
  inr, Bool, true, false, not, ◌&&◌, ◌||◌, Option, none, some, List, [], ◌∷◌, ◌++◌, map, append-nil,
  append_assoc, arith, ltb, leb, if◌then◌else◌, Bool-cases, Option-cases, is_some, or_else, Eq,
  ◌==◌, nat_eq, contains, length, is_empty, length-append, filter, All, All-append, max_or,
}
use bitcoin_data_exporter.Common.Dict
use bitcoin_data_exporter.Common.Dict.{Dict, dict_laws}

-- What polars' `write_csv` makes of a row: only the sizes of the lines matter here. A header line
-- is never empty, since it ends in a line break.
pub record Csv (A : Type 0) : Type 0 where
  pub header_bytes : ℕ
  pub row_bytes : A → ℕ
  pub header_pos : 0 < header_bytes

pub data Line (A : Type 0) : Type 0 where
  header : Line A
  row : A → Line A

abbrev pub File : Type 0 → Type 0
File A = List (Line A)

-- The parts of one logical CSV that one folder holds, by the number in the file's name.
abbrev pub Dir : Type 0 → Type 0
Dir A = Dict ℕ (File A)

-- `frame.write_csv(f, include_header=...)`
unfoldable pub write_csv : {A : Type 0} → List A → Bool → File A
write_csv rows true = Line.header ∷ map Line.row rows
write_csv rows false = map Line.row rows

-- The rows that a reader finds in a file of whole lines; a last line that a crash has cut, which
-- `read_csv_lenient` drops, is not modelled.
unfoldable pub rows_of : {A : Type 0} → File A → List A
rows_of [] = []
rows_of (header ∷ f) = rows_of f
rows_of (row a ∷ f) = a ∷ rows_of f

-- Part 1 is the base path itself, and so is any smaller number.
unfoldable pub part_path : ℕ → ℕ
part_path part = if leb part 1 then 1 else part

unfoldable pub insert_sorted : ℕ → List ℕ → List ℕ
insert_sorted n [] = n ∷ []
insert_sorted n (m ∷ ms) = let rest = insert_sorted n ms in if leb n m then n ∷ m ∷ ms else m ∷ rest

unfoldable pub sorted : List ℕ → List ℕ
unfolding insert_sorted
sorted [] = []
sorted (n ∷ ns) = insert_sorted n (sorted ns)

-- A number in a file name has six digits.
unfoldable pub numbers_of {ℓ} : {F : Type ℓ} → Dict ℕ F → List ℕ
numbers_of [] = []
numbers_of ((n, _) ∷ d) = let rest = numbers_of d in if ltb n 1000000 then n ∷ rest else rest

unfoldable pub existing_part_numbers {ℓ} : {F : Type ℓ} → Dict ℕ F → List ℕ
unfolding sorted numbers_of
existing_part_numbers d = sorted (numbers_of d)

-- The files at the given numbers.
unfoldable pub parts_at {ℓ} : {F : Type ℓ} → List ℕ → Dict ℕ F → List F
parts_at [] d = []
parts_at (n ∷ ns) d = elim (Dict.get (part_path n) d) [
  | none ↦ parts_at ns d
  | some f ↦ f ∷ parts_at ns d
]

-- Every part on disk, oldest first.
unfoldable pub all_parts {ℓ} : {F : Type ℓ} → Dict ℕ F → List F
unfolding existing_part_numbers parts_at part_path
all_parts d = parts_at (existing_part_numbers d) d

module _ {A : Type 0} ⦃c : Csv A⦄ where
  abbrev pub line_bytes : Line A → ℕ
  line_bytes header = c.header_bytes
  line_bytes (row a) = c.row_bytes a

  -- `stat().st_size`
  unfoldable pub st_size : File A → ℕ
  st_size [] = 0
  st_size (l ∷ f) = line_bytes l + st_size f

  -- `target.exists() and target.stat().st_size > 0`
  unfoldable pub file_exists : Option (File A) → Bool
  unfolding st_size
  file_exists none = false
  file_exists (some f) = ltb 0 (st_size f)

  -- `open(target, mode="a")` and `write_csv(f, include_header=not file_exists)`.
  unfoldable pub append_rows : Option (File A) → List A → File A
  unfolding file_exists write_csv
  append_rows none rows = write_csv rows true
  append_rows (some f) rows = f ++ write_csv rows (not (file_exists (some f)))

-- `numbers[-1]`
abbrev pub last_or : ℕ → List ℕ → ℕ
last_or d [] = d
last_or d (n ∷ ns) = last_or n ns

module _ {A : Type 0} ⦃c : Csv A⦄ where
  -- `csv_parts_exist`
  unfoldable pub csv_parts_exist : Dir A → Bool
  unfolding all_parts file_exists
  csv_parts_exist d = not (is_empty (filter (λ f. file_exists (some f)) (all_parts d)))

  unfoldable pub concat_rows : List (File A) → List A
  unfolding rows_of file_exists
  concat_rows [] = []
  concat_rows (f ∷ fs) =
      let rest = concat_rows fs in if file_exists (some f) then rows_of f ++ rest else rest

  unfoldable pub read_csv_parts : Dir A → List A
  unfolding all_parts concat_rows
  read_csv_parts d = concat_rows (all_parts d)

  -- The part `latest`, or the next one if it is at the cap.
  unfoldable pub latest_or_next : Dir A → ℕ → ℕ → ℕ
  unfolding part_path st_size
  latest_or_next d cap latest = elim (Dict.get (part_path latest) d) [
    | none ↦ part_path latest
    | some f ↦ if leb cap (st_size f) then part_path (latest + 1) else part_path latest
  ]

  unfoldable pub append_target : List ℕ → Dir A → ℕ → ℕ
  append_target [] d cap = 1
  append_target (n ∷ ns) d cap = latest_or_next d cap (last_or n ns)

  -- The number in the name of the part that takes the next rows.
  unfoldable pub current_part_for_append : Dir A → ℕ → ℕ
  unfolding existing_part_numbers append_target
  current_part_for_append d cap = append_target (existing_part_numbers d) d cap

  unfoldable pub write_rows_to_csv : List A → Dir A → ℕ → Dir A
  unfolding current_part_for_append append_rows
  write_rows_to_csv rows d cap =
      if is_empty rows
      then d
      else (let target = current_part_for_append d cap in
          Dict.insert target (append_rows (Dict.get target d) rows) d)

pub rows_of-append : {A : Type 0} (f g : File A) → rows_of (f ++ g) ≡ rows_of f ++ rows_of g
unfolding rows_of
rows_of-append [] g = refl
rows_of-append (header ∷ f) g = rows_of-append f g
rows_of-append (row a ∷ f) g = ap (λ l. a ∷ l) (rows_of-append f g)

rows_of-map : {A : Type 0} (rows : List A) → rows_of (map Line.row rows) ≡ rows
unfolding rows_of
rows_of-map [] = refl
rows_of-map (a ∷ rows) = ap (λ l. a ∷ l) (rows_of-map rows)

pub rows_of-write_csv : {A : Type 0} (rows : List A) (b : Bool) → rows_of (write_csv rows b) ≡ rows
unfolding write_csv rows_of
rows_of-write_csv rows true = rows_of-map rows
rows_of-write_csv rows false = rows_of-map rows

-- The rows that a part holds, none where there is no file.
abbrev pub rows_at : {A : Type 0} → Option (File A) → List A
rows_at none = []
rows_at (some f) = rows_of f

abbrev pub IsRow : {A : Type 0} → Line A → Type 0
IsRow header = ⊥
IsRow (row a) = Unit

-- The file starts with its header line and has no other.
abbrev pub IsHeaded : {A : Type 0} → File A → Type 0
IsHeaded [] = ⊥
IsHeaded (row a ∷ f) = ⊥
IsHeaded (header ∷ f) = All IsRow f

All-map-IsRow : {A : Type 0} (rows : List A) → All IsRow (map Line.row rows)
All-map-IsRow [] = tt
All-map-IsRow (a ∷ rows) = (tt, All-map-IsRow rows)

pub write_csv-IsHeaded : {A : Type 0} (rows : List A) → IsHeaded (write_csv rows true)
unfolding write_csv
write_csv-IsHeaded rows = All-map-IsRow rows

module _ {A : Type 0} ⦃c : Csv A⦄ where
  pub IsHeaded-file_exists : (f : File A) → IsHeaded f → file_exists (some f) ≡ true
  unfolding file_exists
  IsHeaded-file_exists [] h = absurd h
  IsHeaded-file_exists (header ∷ f) h = ground (arith, c.header_pos)
  IsHeaded-file_exists (row a ∷ f) h = absurd h

  IsHeaded-append : (f : File A) (rows : List A) → IsHeaded f → IsHeaded (f ++ map Line.row rows)
  IsHeaded-append [] rows h = absurd h
  IsHeaded-append (header ∷ f) rows h =
      All-append IsRow f (map Line.row rows) h (All-map-IsRow rows)
  IsHeaded-append (row a ∷ f) rows h = absurd h

  pub append_rows-IsHeaded :
      (f : File A) (rows : List A) → IsHeaded f → IsHeaded (append_rows (some f) rows)
  unfolding append_rows write_csv
  append_rows-IsHeaded f rows h = rw (IsHeaded-file_exists f h) (IsHeaded-append f rows h)

  pub append_rows_new : (rows : List A) → append_rows none rows ≡ write_csv rows true
  unfolding append_rows
  append_rows_new rows = refl

  pub rows_of-append_rows :
      (o : Option (File A)) (rows : List A) → rows_of (append_rows o rows) ≡ rows_at o ++ rows
  unfolding append_rows
  rows_of-append_rows none rows = rows_of-write_csv rows true
  rows_of-append_rows (some f) rows = rw (rows_of-append, rows_of-write_csv)

pub part_path_pos : (n : ℕ) → 0 < n → part_path n ≡ n
unfolding part_path
part_path_pos n h = ground arith
