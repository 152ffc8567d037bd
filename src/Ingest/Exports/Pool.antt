-- ===== src/Ingest/Exports/Pool.antt =====
-- The blocks that the workers yield carry their own hashes.
use bitcoin_data_exporter.Common.{
  ℕ, ◌≡◌, refl, inl, inr, Option, none, some, List, [], ◌∷◌, ◌++◌, leb, Bool-cases, ◌==◌, nat_eq,
  string_eq, length, All, All-append,
}
use bitcoin_data_exporter.Common.{Result, returned, raised}
use bitcoin_data_exporter.ReorgState.Index.{Hash}
use bitcoin_data_exporter.Catchup.{
  ParsedBlock, Prefetch, expect_height, parse_at, fetch_and_parse, fill, submit_next, next_block,
}
use bitcoin_data_exporter.Ingest.{Node}
use bitcoin_data_exporter.Ingest.Exports.Blocks.{IsHonest}

abbrev pub IsHonestResult : {R : Type 0} → Result (ParsedBlock R) → Type 0
IsHonestResult (raised e) = Unit
IsHonestResult (returned p) = p.block_event.hash ≡ p.block_hash

abbrev pub IsHonestPool : {R : Type 0} → Option (Prefetch (ParsedBlock R)) → Type 0
IsHonestPool none = Unit
IsHonestPool (some p) = All IsHonestResult p.pending

abbrev pub IsHonestNext :
    {R : Type 0} → Option (Result (ParsedBlock R) × Prefetch (ParsedBlock R)) → Type 0
IsHonestNext none = Unit
IsHonestNext (some (r, p)) = IsHonestResult r × All IsHonestResult p.pending

module _ {R : Type 0} (fetch : ℕ → Result (ParsedBlock R))
    (honest : (h : ℕ) → IsHonestResult (fetch h)) where
  pub fill-IsHonest :
      (window : ℕ) (hs : List ℕ) (ps : List (Result (ParsedBlock R)))
      → All IsHonestResult ps
      → All IsHonestResult (fill fetch window hs ps).pending
  unfolding fill
  fill-IsHonest window [] ps a = a
  fill-IsHonest window (h ∷ hs) ps a =
      let b = All-append IsHonestResult ps (fetch h ∷ []) a (honest h, tt) in
      elim (Bool-cases (leb window (length (ps ++ fetch h ∷ [])))) [
        | inl e ↦ rw e b
        | inr e ↦ rw e (fill-IsHonest window hs (ps ++ fetch h ∷ []) b)
      ]

  pub submit-IsHonest :
      (ps : List (Result (ParsedBlock R))) (hs : List ℕ)
      → All IsHonestResult ps
      → All IsHonestResult (submit_next fetch ps hs).pending
  unfolding submit_next
  submit-IsHonest ps [] a = a
  submit-IsHonest ps (h ∷ hs) a = All-append IsHonestResult ps (fetch h ∷ []) a (honest h, tt)

  pub next-IsHonest :
      (ps : List (Result (ParsedBlock R))) (hs : List ℕ)
      → All IsHonestResult ps
      → IsHonestNext (next_block fetch (record { pending = ps; to_submit = hs }))
  unfolding next_block
  next-IsHonest [] hs a = tt
  next-IsHonest (raised e ∷ ps) hs a = (tt, tt)
  next-IsHonest (returned p ∷ ps) hs a = (a.0, submit-IsHonest ps hs a.1)

module _ {R : Type 0} (node : Node R) (honest : IsHonest node) where
  pub expect-IsHonest :
      (h : ℕ) (r : Result (ParsedBlock R)) → IsHonestResult r → IsHonestResult (expect_height h r)
  unfolding expect_height
  expect-IsHonest h (raised e) i = tt
  expect-IsHonest h (returned p) i = elim (Bool-cases (p.height == h)) [
    | inl e ↦ simp e i
    | inr e ↦ simp e tt
  ]

  pub parsed-IsHonest :
      (b : Hash) (r : Result (ParsedBlock R)) → node.worker_parse b ≡ r → IsHonestResult r
  parsed-IsHonest b (raised e) q = tt
  parsed-IsHonest b (returned p) q = honest.worker_parsed b p q

  pub parse_at-IsHonest :
      (h : ℕ) (a : Result Hash) → IsHonestResult (parse_at node.worker_parse h a)
  unfolding parse_at
  parse_at-IsHonest h (raised e) = tt
  parse_at-IsHonest h (returned b) =
      expect-IsHonest h (node.worker_parse b) (parsed-IsHonest b (node.worker_parse b) refl)

  pub worker-IsHonest :
      (h : ℕ) → IsHonestResult (fetch_and_parse node.worker_hash node.worker_parse h)
  unfolding fetch_and_parse
  worker-IsHonest h = parse_at-IsHonest h (node.worker_hash h)
