-- ===== src/Ingest/Cover.antt =====
-- Every block that the index shows as exported has its row in the parts of blocks.csv: the steps.
use bitcoin_data_exporter.Common.{
  ℕ, ◌≤◌, ◌≡◌, refl, sym, ap, ◌∙◌, ◌⊎◌, inl, inr, Bool, true, false, ◌||◌, Option, none, some, List,
  [], ◌∷◌, ◌++◌, map, append-nil, arith, if◌then◌else◌, Bool-cases, or_else, nat_eq, string_eq,
  contains, is_empty,
}
use bitcoin_data_exporter.Common.Dict
use bitcoin_data_exporter.Common.Dict.{Dict, dict_laws}
use bitcoin_data_exporter.Common.{subst}
use bitcoin_data_exporter.CsvWriter.{Csv}
use bitcoin_data_exporter.PartWriter.{PartSequencer}
use bitcoin_data_exporter.PartWriter.Contents.{contents}
use bitcoin_data_exporter.PartWriter.Log.{
  IsSound, batched, atomic, call, rows_given, call-IsSound, contents-call,
}
use bitcoin_data_exporter.ReorgState.Index
use bitcoin_data_exporter.ReorgState.Index.{
  Hash, IndexRow, IndexSize, IndexStore, current_index_schema_version, known, new_row, add,
  discard_pending, earliest_stale, remember, stale_rows, lowest_row,
}
use bitcoin_data_exporter.Catchup.{BlockEvent}
use bitcoin_data_exporter.ReorgState.Seed.{or_empty, add_rows, seed_rows}
use bitcoin_data_exporter.Ingest.{write}

abbrev pub IsCurrent : IndexRow → Type 0
IsCurrent r = current_index_schema_version ≤ r.schema_version

module _ ⦃z : IndexSize⦄ where
  flush-pending : (ix : IndexStore) → (Index.flush ix).pending ≡ []
  unfolding Index.flush
  flush-pending ix = empty-or ix.pending refl
    where
      empty-or :
          (p : Dict Hash IndexRow)
          → ix.pending ≡ p
          → (if is_empty p then ix else Index.flush_to (Index.flush_part ix) ix).pending ≡ []
      empty-or [] e = e
      empty-or (x ∷ p) e = refl

  get-flush :
      (h : Hash) (ix : IndexStore)
      → Dict.NodupKeys ix.pending
      → Dict.get h (Index.flush ix).by_hash
        ≡ or_else (Dict.get h ix.pending) (Dict.get h ix.by_hash)
  unfolding Index.flush
  get-flush h ix u =
      ground (arith, Dict.get-update h ix.pending ix.by_hash u, Dict.get-nil {V = IndexRow} h)

module _ {R : Type 0} where
  abbrev pub hash_of : BlockEvent R → Hash
  hash_of e = e.hash

  abbrev pub HasRow : List (BlockEvent R) → Hash → Type 0
  HasRow rows h = contains (map hash_of rows) h ≡ true

  -- `exported_before` says which blocks were exported in parts that may be gone by now. Every other block
  -- that the index on file shows at the current version has its row in the parts, and one that is staged
  -- has its row in the buffer.
  pub record IsCovered (exported_before : Hash → Bool) (ix : IndexStore)
      (s : PartSequencer (BlockEvent R)) (rows : List (BlockEvent R)) : Type 0 where
    pub sound : IsSound s
    pub unique : Dict.NodupKeys ix.pending
    pub durable :
        (h : Hash) (r : IndexRow)
        → Dict.get h ix.by_hash ≡ some r
        → IsCurrent r
        → (exported_before h ≡ true) ⊎ HasRow (contents s) h
    pub staged :
        (h : Hash) (r : IndexRow) → Dict.get h ix.pending ≡ some r → IsCurrent r → HasRow rows h

  HasRow-append :
      (xs ys : List (BlockEvent R)) (h : Hash)
      → contains (map hash_of (xs ++ ys)) h
        ≡ (contains (map hash_of xs) h || contains (map hash_of ys) h)
  HasRow-append [] ys h = refl
  HasRow-append (x ∷ xs) ys h = ground (arith, HasRow-append xs ys h)

  module _ (old : Hash → Bool) where
    pub add-IsCovered :
        (n : ℕ) (prev : Hash) (version : ℕ) (e : BlockEvent R)
        → (ix : IndexStore) (s : PartSequencer (BlockEvent R)) (rows : List (BlockEvent R))
        → IsCovered old ix s rows
        → IsCovered old (add n e.hash prev version ix) s (rows ++ e ∷ [])
    unfolding add
    add-IsCovered n prev version e ix s rows c = record {
      sound = c.sound;
      unique =
          ground (
            arith,
            Dict.insert-NodupKeys e.hash (new_row n e.hash prev version) ix.pending c.unique,
          );
      durable = λ h r g cur. ground (arith, c.durable h r);
      staged = λ h r g cur. ground (
        arith,
        c.staged h r,
        HasRow-append rows (e ∷ []) h,
        Dict.get-insert h e.hash (new_row n e.hash prev version) ix.pending,
      );
    }

    -- Rows of an older version may be staged without a row in the buffer.
    add_old-IsCovered :
        (n : ℕ) (h prev : Hash) (ix : IndexStore) (s : PartSequencer (BlockEvent R))
        → (rows : List (BlockEvent R)) → IsCovered old ix s rows
        → IsCovered old (add n h prev 1 ix) s rows
    unfolding add new_row
    add_old-IsCovered n h prev ix s rows c = record {
      sound = c.sound;
      unique = ground (arith, Dict.insert-NodupKeys h (new_row n h prev 1) ix.pending c.unique);
      durable = λ k r g cur. ground (arith, c.durable k r);
      staged = λ k r g cur.
          ground (arith, c.staged k r, Dict.get-insert k h (new_row n h prev 1) ix.pending);
    }

    pub discard-IsCovered :
        (ix : IndexStore) (s : PartSequencer (BlockEvent R)) (rows : List (BlockEvent R))
        → IsCovered old ix s rows
        → IsCovered old (discard_pending ix) s []
    unfolding discard_pending
    discard-IsCovered ix s rows c = record {
      sound = c.sound;
      unique = tt;
      durable = c.durable;
      staged = λ h r g. absurd (ground (arith, Dict.get-nil {V = IndexRow} h));
    }

    module _ ⦃z : IndexSize⦄ ⦃ce : Csv (BlockEvent R)⦄ where
      write-call :
          (at : Bool) (rows : List (BlockEvent R)) (s : PartSequencer (BlockEvent R))
          → write at rows s ≡ call (if at then atomic rows else batched rows) s
      unfolding write call
      write-call true rows s = refl
      write-call false rows s = refl

      write_lem :
          (at : Bool) (rows : List (BlockEvent R)) (s : PartSequencer (BlockEvent R))
          → IsSound s
          → IsSound (write at rows s) × (contents (write at rows s) ≡ contents s ++ rows)
      unfolding rows_given write call
      write_lem true rows s v = (
        call-IsSound (atomic rows) s v,
        contents-call (atomic rows) s v ∙ ap (λ l. contents s ++ l) (append-nil rows),
      )
      write_lem false rows s v = (
        call-IsSound (batched rows) s v,
        contents-call (batched rows) s v ∙ ap (λ l. contents s ++ l) (append-nil rows),
      )

      -- A flush of the index is safe once the rows are in the parts.
      after_write-IsCovered :
          (ix : IndexStore) (s s' : PartSequencer (BlockEvent R)) (rows : List (BlockEvent R))
          → IsCovered old ix s rows
          → IsSound s'
          → contents s' ≡ contents s ++ rows
          → IsCovered old (Index.flush ix) s' []
      after_write-IsCovered ix s s' rows c sound same = record {
        sound = sound;
        unique = subst Dict.NodupKeys (sym (flush-pending ix)) tt;
        durable = λ h r g cur.
            subst (λ rs. (old h ≡ true) ⊎ HasRow rs h) (sym same)
              (ground (
                arith,
                get-flush h ix c.unique,
                c.durable h r,
                c.staged h r,
                HasRow-append (contents s) rows h,
              ));
        staged = λ h r g cur.
            absurd (
              ground (arith, g, Dict.get-nil {V = IndexRow} h, ap (Dict.get h) (flush-pending ix)));
      }

      -- Rows are written before the index.
      pub flush-IsCovered :
          (at : Bool) (ix : IndexStore) (s : PartSequencer (BlockEvent R))
          (rows : List (BlockEvent R))
          → IsCovered old ix s rows
          → IsCovered old (Index.flush ix) (write at rows s) []
      flush-IsCovered at ix s rows c =
          let (sound, same) = write_lem at rows s c.sound in
          after_write-IsCovered ix s (write at rows s) rows c sound same

      add_rows-IsCovered :
          (es : List (BlockEvent R)) (ix : IndexStore) (s : PartSequencer (BlockEvent R))
          → IsCovered old ix s []
          → IsCovered old (add_rows es ix) s []
      unfolding add_rows
      add_rows-IsCovered [] ix s c = c
      add_rows-IsCovered (e ∷ es) ix s c =
          add_rows-IsCovered es (add e.height e.hash (or_empty e.previousblockhash) 1 ix) s
            (add_old-IsCovered e.height e.hash (or_empty e.previousblockhash) ix s [] c)

      -- Rows that the index is seeded with are of version 1.
      pub seed-IsCovered :
          (es : List (BlockEvent R)) (ix : IndexStore) (s : PartSequencer (BlockEvent R))
          → IsCovered old ix s []
          → IsCovered old (seed_rows es ix).1 s []
      unfolding seed_rows
      seed-IsCovered [] ix s c = c
      seed-IsCovered (e ∷ es) ix s c =
          after_write-IsCovered (add_rows (e ∷ es) ix) s s [] (add_rows-IsCovered (e ∷ es) ix s c)
            c.sound (sym (append-nil _))

    remember-IsCovered :
        (o : Option IndexRow) (ix : IndexStore) (s : PartSequencer (BlockEvent R))
        → IsCovered old ix s []
        → IsCovered old (remember o ix).1 s []
    unfolding remember
    remember-IsCovered (some r) ix s c = c
    remember-IsCovered none ix s c = record {
      sound = c.sound;
      unique = c.unique;
      durable = c.durable;
      staged = c.staged;
    }

    pub stale-IsCovered :
        (ix : IndexStore) (s : PartSequencer (BlockEvent R))
        → IsCovered old ix s []
        → IsCovered old (earliest_stale ix).1 s []
    unfolding earliest_stale
    stale-IsCovered ix s c = elim (Bool-cases ix.all_current) [
      | inl e ↦ simp e c
      | inr e ↦ simp e (remember-IsCovered (lowest_row (stale_rows ix.by_hash)) ix s c)
    ]
