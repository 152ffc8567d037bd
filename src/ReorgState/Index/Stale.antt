-- ===== src/ReorgState/Index/Stale.antt =====
-- `earliest_stale` finds the lowest block that was indexed under an older event schema.
use bitcoin_data_exporter.Common.{
  ℕ, ◌≤◌, ◌<◌, ◌≡◌, refl, ◌⊎◌, inl, inr, true, Option, none, some, [], ◌∷◌, arith, ltb, leb, ltb→lt,
  Bool-cases, nat_eq, string_eq, All,
}
use bitcoin_data_exporter.Common.Dict.{Dict}
use bitcoin_data_exporter.ReorgState.Index.{
  Hash, IndexRow, current_index_schema_version, IndexStore, stale_rows, lowest_row, lower_row,
  remember, earliest_stale,
}

abbrev pub IsStale : IndexRow → Type 0
IsStale r = r.schema_version < current_index_schema_version

-- No row on file is below the height n and of an older version.
abbrev pub NoneBelow : ℕ → Dict Hash IndexRow → Type 0
NoneBelow n = All (λ (p : Hash × IndexRow). IsStale p.1 → n ≤ p.1.height)

abbrev pub NoneStale : Dict Hash IndexRow → Type 0
NoneStale = All (λ (p : Hash × IndexRow). current_index_schema_version ≤ p.1.schema_version)

-- The row stands in the dictionary.
abbrev pub Holds : IndexRow → Dict Hash IndexRow → Type 0
Holds r [] = ⊥
Holds r ((_, q) ∷ d) = (r ≡ q) ⊎ Holds r d

-- What a search for the lowest stale row may answer.
abbrev pub Answers : Option IndexRow → Dict Hash IndexRow → Type 0
Answers none d = NoneStale d
Answers (some r) d = Holds r d × IsStale r × NoneBelow r.height d

lower : (d : Dict Hash IndexRow) (m n : ℕ) → m ≤ n → NoneBelow n d → NoneBelow m d
lower [] m n l h = tt
lower ((_, q) ∷ d) m n l h = (λ s. omega (arith, h.0 s), lower d m n l h.1)

NoneStale-below : (d : Dict Hash IndexRow) (n : ℕ) → NoneStale d → NoneBelow n d
NoneStale-below [] n h = tt
NoneStale-below ((_, q) ∷ d) n h = (λ s. absurd (omega (arith, h.0)), NoneStale-below d n h.1)

Answers-lower :
    (k : Hash) (q : IndexRow) (d : Dict Hash IndexRow) (o : Option IndexRow)
    → Answers o d
    → IsStale q
    → Answers (lower_row q o) ((k, q) ∷ d)
unfolding lower_row
Answers-lower k q d none a s = (inl refl, s, ((λ _. omega arith), NoneStale-below d q.height a))
Answers-lower k q d (some m) (holds, stale, below) s = elim (Bool-cases (leb q.height m.height)) [
  | inl e ↦ rw e (inl refl, s, ((λ _. omega arith), lower d q.height m.height (ground arith) below))
  | inr e ↦ rw e (inr holds, stale, ((λ _. ground arith), below))
]

Answers-skip :
    (k : Hash) (q : IndexRow) (d : Dict Hash IndexRow) (o : Option IndexRow)
    → Answers o d
    → current_index_schema_version ≤ q.schema_version
    → Answers o ((k, q) ∷ d)
Answers-skip k q d none a s = (s, a)
Answers-skip k q d (some m) (holds, stale, below) s =
    (inr holds, stale, ((λ t. absurd (omega arith)), below))

lowest_row-Answers : (d : Dict Hash IndexRow) → Answers (lowest_row (stale_rows d)) d
unfolding lowest_row stale_rows
lowest_row-Answers [] = tt
lowest_row-Answers ((k, q) ∷ d) =
    elim (Bool-cases (ltb q.schema_version current_index_schema_version)) [
      | inl e ↦
          rw e
            (Answers-lower k q d (lowest_row (stale_rows d)) (lowest_row-Answers d) (ltb→lt _ _ e))
      | inr e ↦
          rw e
            (Answers-skip k q d (lowest_row (stale_rows d)) (lowest_row-Answers d) (ground arith))
    ]

-- The answer `None` is remembered; that is right while nothing stale is on file.
abbrev pub RemembersRightly : IndexStore → Type 0
RemembersRightly ix = ix.all_current ≡ true → NoneStale ix.by_hash

remember_lem :
    (o : Option IndexRow) (ix : IndexStore)
    → RemembersRightly ix
    → Answers o ix.by_hash
    → let (answer, ix') = remember o ix in
      Answers answer ix.by_hash × RemembersRightly ix' × (ix'.by_hash ≡ ix.by_hash)
unfolding remember
remember_lem none ix h a = (a, (λ _. a), refl)
remember_lem (some r) ix h a = (a, h, refl)

-- Where the store remembers that no row is stale only if that is so: `earliest_stale` answers with a
-- row on file of an older schema version such that no row of an older version lies lower, or with none
-- if no row on file is of an older version; the store keeps its rows, and what it remembers stays
-- right.
pub earliest_stale_lem :
    (ix : IndexStore)
    → RemembersRightly ix
    → let (answer, ix') = earliest_stale ix in
      Answers answer ix.by_hash × RemembersRightly ix' × (ix'.by_hash ≡ ix.by_hash)
unfolding earliest_stale
earliest_stale_lem ix h = elim (Bool-cases ix.all_current) [
  | inl e ↦ simp e (h e, (λ _. h e), refl)
  | inr e ↦
      simp e
        (remember_lem (lowest_row (stale_rows ix.by_hash)) ix h (lowest_row-Answers ix.by_hash))
]
