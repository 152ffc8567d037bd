-- ===== src/Catchup/Order.antt =====
-- The order and the bound of the blocks that workers fetch ahead.
use bitcoin_data_exporter.Common.{
  ℕ, zero, suc, ◌+◌, ◌*◌, ◌≤◌, ◌<◌, ◌≡◌, refl, sym, ap, ◌∙◌, inl, inr, none, some, List, [], ◌∷◌,
  ◌++◌, map, append_assoc, arith, leb, Bool-cases, nat_eq, string_eq, length, length-append,
}
use bitcoin_data_exporter.Common.{Result, returned, raised}
use bitcoin_data_exporter.Catchup.{
  prefetch_per_worker, Prefetch, fill, submit_next, next_block, iter_parsed_blocks, take_blocks,
}

module _ {B : Type 0} (fetch : ℕ → Result B) where
  -- The loop that fetches one height after another: it ends at the first failure.
  unfoldable pub sequential : List ℕ → List (Result B)
  sequential [] = []
  sequential (height ∷ rest) = elim (fetch height) [
    | raised e ↦ raised e ∷ []
    | returned b ↦ returned b ∷ sequential rest
  ]

  -- The results up to the first failure.
  unfoldable pub up_to_failure : List (Result B) → List (Result B)
  up_to_failure [] = []
  up_to_failure (raised e ∷ rs) = raised e ∷ []
  up_to_failure (returned b ∷ rs) = returned b ∷ up_to_failure rs

  -- All that is still to come.
  unfoldable pub to_come : Prefetch B → List (Result B)
  to_come p = p.pending ++ map fetch p.to_submit

  sequential-up_to : (hs : List ℕ) → sequential hs ≡ up_to_failure (map fetch hs)
  unfolding sequential up_to_failure
  sequential-up_to [] = refl
  sequential-up_to (h ∷ hs) = grind (arith, sequential-up_to hs)

  to_come-fill :
      (window : ℕ) (hs : List ℕ) (ps : List (Result B))
      → to_come (fill fetch window hs ps) ≡ ps ++ map fetch hs
  unfolding to_come fill
  to_come-fill window [] ps = refl
  to_come-fill window (h ∷ hs) ps = elim (Bool-cases (leb window (length (ps ++ fetch h ∷ [])))) [
    | inl e ↦ rw e (append_assoc ps (fetch h ∷ []) (map fetch hs))
    | inr e ↦ rw e (
        to_come-fill window hs (ps ++ fetch h ∷ []) ∙ append_assoc ps (fetch h ∷ []) (map fetch hs))
  ]

  to_come-submit :
      (ps : List (Result B)) (hs : List ℕ) → to_come (submit_next fetch ps hs) ≡ ps ++ map fetch hs
  unfolding to_come submit_next
  to_come-submit ps [] = refl
  to_come-submit ps (h ∷ hs) = append_assoc ps (fetch h ∷ []) (map fetch hs)

  take_nothing : (n : ℕ) → take_blocks fetch n (record { pending = []; to_submit = [] }) ≡ []
  unfolding take_blocks next_block
  take_nothing zero = refl
  take_nothing (suc n) = refl

  -- Where nothing is pending, nothing is left to submit.
  abbrev pub IsFed : Prefetch B → Type 0
  IsFed p = length p.pending ≡ 0 → length p.to_submit ≡ 0

  take_up_to :
      (n : ℕ) (ps : List (Result B)) (hs : List ℕ)
      → (length ps ≡ 0 → length hs ≡ 0)
      → length ps + length hs ≤ n
      → take_blocks fetch n (record { pending = ps; to_submit = hs })
        ≡ up_to_failure (ps ++ map fetch hs)
  unfolding take_blocks next_block up_to_failure
  take_up_to zero [] [] fed l = refl
  take_up_to zero [] (h ∷ hs) fed l = absurd (omega (arith, fed refl))
  take_up_to zero (p ∷ ps) hs fed l = absurd (omega arith)
  take_up_to (suc n) [] [] fed l = refl
  take_up_to (suc n) [] (h ∷ hs) fed l = absurd (omega (arith, fed refl))
  take_up_to (suc n) (raised e ∷ ps) hs fed l = ap (λ t. raised e ∷ t) (take_nothing n)
  take_up_to (suc n) (returned b ∷ ps) [] fed l =
      ap (λ t. returned b ∷ t) (take_up_to n ps [] (λ _. refl) (omega (arith, l)))
  take_up_to (suc n) (returned b ∷ ps) (h ∷ hs) fed l =
      ap (λ t. returned b ∷ t)
        (take_up_to n (ps ++ fetch h ∷ []) hs
            (λ z. absurd (omega (arith, z, length-append ps (fetch h ∷ []))))
            (omega (arith, l, length-append ps (fetch h ∷ [])))
          ∙ ap up_to_failure (append_assoc ps (fetch h ∷ []) (map fetch hs)))

  fill-IsFed : (window : ℕ) (hs : List ℕ) (ps : List (Result B)) → IsFed (fill fetch window hs ps)
  unfolding fill
  fill-IsFed window [] ps = λ z. refl
  fill-IsFed window (h ∷ hs) ps = elim (Bool-cases (leb window (length (ps ++ fetch h ∷ [])))) [
    | inl e ↦ rw e (λ z. absurd (omega (arith, z, length-append ps (fetch h ∷ []))))
    | inr e ↦ rw e (fill-IsFed window hs (ps ++ fetch h ∷ []))
  ]

  length-fill :
      (window : ℕ) (hs : List ℕ) (ps : List (Result B))
      → let p = fill fetch window hs ps in
        length p.pending + length p.to_submit ≡ length ps + length hs
  unfolding fill
  length-fill window [] ps = refl
  length-fill window (h ∷ hs) ps = elim (Bool-cases (leb window (length (ps ++ fetch h ∷ [])))) [
    | inl e ↦ rw e (omega (arith, length-append ps (fetch h ∷ [])))
    | inr e ↦
        rw e (
          omega
            (arith, length-fill window hs (ps ++ fetch h ∷ []), length-append ps (fetch h ∷ [])))
  ]

  -- A caller who takes all the blocks of any heights, from any number of workers, gets what the
  -- sequential loop over these heights gets, in its order: the block of each height up to the first
  -- height that fails, then that failure, and no more.
  pub iter_parsed_blocks-sequential :
      (hs : List ℕ) (workers n : ℕ)
      → length hs ≤ n
      → take_blocks fetch n (iter_parsed_blocks fetch hs workers) ≡ sequential hs
  unfolding iter_parsed_blocks to_come
  iter_parsed_blocks-sequential hs workers n l =
      let window = prefetch_per_worker * workers in
      let p = fill fetch window hs [] in
      take_up_to n p.pending p.to_submit (fill-IsFed window hs [])
        (omega (arith, l, length-fill window hs []))
      ∙ ap up_to_failure (to_come-fill window hs [])
      ∙ sym (sequential-up_to hs)

  -- The generator after n blocks.
  unfoldable pub advance : ℕ → Prefetch B → Prefetch B
  advance zero p = p
  advance (suc n) p = elim (next_block fetch p) [ none ↦ p | some (_, p') ↦ advance n p' ]

  fill-bound :
      (window : ℕ) (hs : List ℕ) (ps : List (Result B))
      → length ps < window
      → length (fill fetch window hs ps).pending ≤ window
  unfolding fill
  fill-bound window [] ps l = omega (arith, l)
  fill-bound window (h ∷ hs) ps l = elim (Bool-cases (leb window (length (ps ++ fetch h ∷ [])))) [
    | inl e ↦ rw e (omega (arith, l, length-append ps (fetch h ∷ [])))
    | inr e ↦ rw e (fill-bound window hs (ps ++ fetch h ∷ []) (ground (arith)))
  ]

  advance-bound :
      (n window : ℕ) (ps : List (Result B)) (hs : List ℕ)
      → length ps ≤ window
      → length (advance n (record { pending = ps; to_submit = hs })).pending ≤ window
  unfolding advance next_block submit_next
  advance-bound zero window ps hs l = l
  advance-bound (suc n) window [] hs l = l
  advance-bound (suc n) window (raised e ∷ ps) hs l = advance-bound n window [] [] (omega arith)
  advance-bound (suc n) window (returned b ∷ ps) [] l =
      advance-bound n window ps [] (omega (arith, l))
  advance-bound (suc n) window (returned b ∷ ps) (h ∷ hs) l =
      advance-bound n window (ps ++ fetch h ∷ []) hs
        (omega (arith, l, length-append ps (fetch h ∷ [])))

  -- However many blocks have been taken, no more than prefetch_per_worker blocks for each worker are
  -- under way, where there is at least one worker.
  pub iter_parsed_blocks-bound :
      (n : ℕ) (hs : List ℕ) (workers : ℕ)
      → 0 < workers
      → length (advance n (iter_parsed_blocks fetch hs workers)).pending
        ≤ prefetch_per_worker * workers
  unfolding iter_parsed_blocks
  iter_parsed_blocks-bound n hs workers w =
      let p = fill fetch (prefetch_per_worker * workers) hs [] in
      advance-bound n (prefetch_per_worker * workers) p.pending p.to_submit
        (fill-bound (prefetch_per_worker * workers) hs [] (omega (arith, w)))
