-- ===== src/PartWriter.antt =====
-- rpc/part_writer.py (under btc_parser_app): `PartSequencer`, the parts of one logical CSV that is
-- written in two modes and handed over from state_base to export_base part by part.
pub mod Invariant
pub mod Contents
pub mod Log
pub mod Crash
pub mod Handoff
use bitcoin_data_exporter.Common.{
  ℕ, zero, suc, ◌+◌, ◌-◌, ◌*◌, ◌≤◌, ◌<◌, min, max, String, ◌≡◌, refl, sym, ap, ◌∙◌, ◌≢◌, ◌⊎◌, inl,
  inr, Bool, true, false, not, ◌&&◌, ◌||◌, Option, none, some, List, [], ◌∷◌, ◌++◌, map, append-nil,
  append_assoc, arith, ltb, leb, if◌then◌else◌, Bool-cases, Option-cases, is_some, or_else, Eq,
  ◌==◌, nat_eq, contains, length, is_empty, length-append, filter, All, All-append, max_or,
}
use bitcoin_data_exporter.Common.Dict
use bitcoin_data_exporter.Common.Dict.{Dict, dict_laws}
use bitcoin_data_exporter.CsvWriter.{
  Csv, File, Dir, write_csv, part_path, existing_part_numbers, st_size, append_rows,
}

-- The durable side: the parts under state_base and under export_base, and the counter file
-- `*_part_seq.csv` with its one row (current_part, part_is_open).
pub record Disk (A : Type 0) : Type 0 where
  pub state : Dir A
  pub export : Dir A
  pub seq : Option (ℕ × Bool)

-- The object in memory, beside the disk. `passed` lists the states that the disk went through
-- during the calls, the newest first: those that a crash between two steps leaves behind. Appending rows
-- is one step; a line that a crash has cut in the middle is not modelled.
pub record PartSequencer (A : Type 0) : Type 0 where
  pub current_part : ℕ
  pub part_is_open : Bool
  pub max_part_bytes : ℕ
  pub disk : Disk A
  pub passed : List (Disk A)

-- `_read_state`, and the scan of both folders where nothing is persisted yet.
unfoldable pub initial_state : {A : Type 0} → Disk A → ℕ × Bool
unfolding existing_part_numbers
initial_state d = elim d.seq [
  | some persisted ↦ persisted
  | none ↦
      let state_highest = max_or 0 (existing_part_numbers d.state) in
      let export_highest = max_or 0 (existing_part_numbers d.export) in
      if ltb 0 state_highest
      then (state_highest, true)
      else if ltb 0 export_highest
      then (export_highest, false)
      else (0, false)
]

-- `__init__`
unfoldable pub start : {A : Type 0} → ℕ → Disk A → PartSequencer A
unfolding initial_state
start cap d = record {
  current_part = (initial_state d).0;
  part_is_open = (initial_state d).1;
  max_part_bytes = cap;
  disk = d;
  passed = [];
}

module _ {A : Type 0} where
  -- One durable change of the disk.
  abbrev pub commit : Disk A → PartSequencer A → PartSequencer A
  commit d s = record s { disk = d; passed = d ∷ s.passed }

  -- `_persist`: the counter file is replaced as a whole.
  unfoldable pub persist : PartSequencer A → PartSequencer A
  persist s = commit (record s.disk { seq = some (s.current_part, s.part_is_open) }) s

  -- `os.replace(src, dst)` from state_base to export_base.
  unfoldable pub replace : ℕ → File A → Disk A → Disk A
  replace n f d = record d { state = Dict.erase n d.state; export = Dict.insert n f d.export }

  unfoldable pub hand_off : Option (File A) → PartSequencer A → PartSequencer A
  unfolding replace
  hand_off none s = s
  hand_off (some f) s = commit (replace (part_path s.current_part) f s.disk) s

  close_part : PartSequencer A → PartSequencer A
  unfolding hand_off persist
  close_part s =
      let moved = hand_off (Dict.get (part_path s.current_part) s.disk.state) s in
      persist (record moved { part_is_open = false })

  -- `_close_if_open`
  unfoldable pub close_if_open : PartSequencer A → PartSequencer A
  unfolding close_part
  close_if_open s = if s.part_is_open then close_part s else s

module _ {A : Type 0} ⦃c : Csv A⦄ where
  -- `target.exists() and target.stat().st_size >= max_part_bytes`
  abbrev pub is_full : Option (File A) → ℕ → Bool
  is_full none cap = false
  is_full (some f) cap = leb cap (st_size f)

  abbrev pub needs_new_part : PartSequencer A → Bool
  needs_new_part s =
      not s.part_is_open
      || is_full (Dict.get (part_path s.current_part) s.disk.state) s.max_part_bytes

  unfoldable pub open_next : PartSequencer A → PartSequencer A
  open_next s = record s { current_part = s.current_part + 1; part_is_open = true }

  -- The open part grows by the rows, in one step.
  unfoldable pub append_to_part : List A → PartSequencer A → PartSequencer A
  append_to_part rows s =
      let target = part_path s.current_part in
      commit
        (record s.disk {
          state = Dict.insert target (append_rows (Dict.get target s.disk.state) rows) s.disk.state;
        })
        s

  unfoldable pub write_batched : List A → PartSequencer A → PartSequencer A
  unfolding close_if_open open_next append_to_part persist
  write_batched rows s =
      if is_empty rows
      then s
      else (let s' = if needs_new_part s then open_next (close_if_open s) else s in
          persist (append_to_part rows s'))

  unfoldable pub begin_atomic : PartSequencer A → PartSequencer A
  begin_atomic s = record s { current_part = s.current_part + 1; part_is_open = false }

  -- `atomic_replace(target, ...)` under export_base.
  unfoldable pub export_part : List A → PartSequencer A → PartSequencer A
  export_part rows s =
      commit
        (record s.disk {
          export = Dict.insert (part_path s.current_part) (write_csv rows true) s.disk.export;
        })
        s

  unfoldable pub write_atomic : List A → PartSequencer A → PartSequencer A
  unfolding close_if_open begin_atomic export_part persist
  write_atomic rows s =
      if is_empty rows then s else export_part rows (persist (begin_atomic (close_if_open s)))
