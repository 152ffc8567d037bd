-- ===== src/MempoolWatch/LifeCycle.antt =====
-- The exported events of a transaction follow its life cycle.
use bitcoin_data_exporter.Common.{
  ℕ, ◌≡◌, refl, sym, ap, ◌∙◌, ◌≢◌, ◌⊎◌, inl, inr, true, false, not, ◌||◌, Option, none, some, List,
  [], ◌∷◌, ◌++◌, arith, leb, if◌then◌else◌, Bool-cases, ◌==◌, nat_eq, string_eq, is_empty,
}
use bitcoin_data_exporter.Common.Dict
use bitcoin_data_exporter.Common.Dict.{Dict, dict_laws}
use bitcoin_data_exporter.Common.{subst}
use bitcoin_data_exporter.ReorgState.Index.{Hash}
use bitcoin_data_exporter.MempoolWatch.{
  Txid, TxStatus, in_mempool, confirmed, FlaggedTx, TxEvent, seen, replaced, removed, was_confirmed,
  unconfirmed, Watcher, Fetched, Answers, export, put, remove, new_entry, on_added, departure,
  on_left_unmined, mark_confirmed, unconfirm, by_depth, check_block, check_depth, check_depths,
}

pub data Phase : Type 0 where
  absent : Phase
  waiting : Phase
  mined : Phase

-- The life cycle. A mined transaction may have been forgotten, which exports nothing, and be seen again.
unfoldable pub next : Phase → TxEvent → Option Phase
next absent seen = some waiting
next mined seen = some waiting
next waiting (replaced t) = some absent
next waiting removed = some absent
next waiting was_confirmed = some mined
next mined unconfirmed = some waiting
next absent (replaced t) = none
next absent removed = none
next absent was_confirmed = none
next absent unconfirmed = none
next waiting seen = none
next waiting unconfirmed = none
next mined (replaced t) = none
next mined removed = none
next mined was_confirmed = none

unfoldable pub next_of : Option Phase → TxEvent → Option Phase
unfolding next
next_of none e = none
next_of (some p) e = next p e

-- The phase that the rows exported of a transaction lead to; none where they do not follow the cycle.
unfoldable pub follow : Txid → List (Txid × TxEvent) → Option Phase → Option Phase
unfolding next_of
follow k [] p = p
follow k ((t, e) ∷ rows) p = follow k rows (if k == t then next_of p e else p)

abbrev pub phase_of : TxStatus → Phase
phase_of in_mempool = waiting
phase_of confirmed = mined

abbrev pub IsAt : {D : Type 0} → Option (FlaggedTx D) → Option Phase → Type 0
IsAt none p = (p ≡ some absent) ⊎ (p ≡ some mined)
IsAt (some e) p = p ≡ some (phase_of e.status)

follow-append :
    (k t : Txid) (e : TxEvent) (rows : List (Txid × TxEvent)) (p : Option Phase)
    → follow k (rows ++ (t, e) ∷ []) p
      ≡ (if k == t then next_of (follow k rows p) e else follow k rows p)
unfolding follow
follow-append k t e [] p = refl
follow-append k t e ((u, f) ∷ rows) p = follow-append k t e rows (if k == u then next_of p f else p)

pub status-cases : (s : TxStatus) → (s ≡ in_mempool) ⊎ (s ≡ confirmed)
status-cases in_mempool = inl refl
status-cases confirmed = inr refl

departed : (s : Option Txid) → next waiting (departure s) ≡ some absent
unfolding next departure
departed none = refl
departed (some t) = refl

same-eq : (t : Txid) → (t == t) ≡ true
same-eq t = ground arith

differ-eq : (k t : Txid) → k ≢ t → (k == t) ≡ false
differ-eq k t n = ground arith

module _ {D : Type 0} where
  -- The rows exported of every transaction follow the life cycle, and lead to where the store has it.
  abbrev pub AllAt : Watcher D → Type 0
  AllAt w = (k : Txid) → IsAt (Dict.get k w.store) (follow k w.exported (some absent))

  -- A row is exported, and the entry changes with it.
  change :
      (w w' : Watcher D) (t : Txid) (e : TxEvent) (o : Option (FlaggedTx D))
      → w'.exported ≡ w.exported ++ (t, e) ∷ []
      → ((k : Txid) → Dict.get k w'.store ≡ (if k == t then o else Dict.get k w.store))
      → ((p : Option Phase) → IsAt (Dict.get t w.store) p → IsAt o (next_of p e))
      → AllAt w
      → AllAt w'
  change w w' t e o ex st step i k =
      subst (λ rows. IsAt (Dict.get k w'.store) (follow k rows (some absent))) (sym ex)
        (subst (λ p. IsAt (Dict.get k w'.store) p)
          (sym (follow-append k t e w.exported (some absent)))
          (subst
            (λ q. IsAt q (
              if k == t
              then next_of (follow k w.exported (some absent)) e
              else follow k w.exported (some absent)))
            (sym (st k))
            (elim (string_eq.dec k t) [
              | yes q ↦
                  subst
                    (λ j. IsAt (if j == t then o else Dict.get j w.store) (
                      if j == t
                      then next_of (follow j w.exported (some absent)) e
                      else follow j w.exported (some absent)))
                    (sym q) (self t (step (follow t w.exported (some absent)) (i t)))
              | no n ↦ other k n
            ])))
    where
      self :
          (t : Txid)
          → IsAt o (next_of (follow t w.exported (some absent)) e)
          → IsAt (if t == t then o else Dict.get t w.store) (
              if t == t
              then next_of (follow t w.exported (some absent)) e
              else follow t w.exported (some absent))
      self t h = simp (same-eq t) h

      other :
          (k : Txid)
          → k ≢ t
          → IsAt (if k == t then o else Dict.get k w.store) (
              if k == t
              then next_of (follow k w.exported (some absent)) e
              else follow k w.exported (some absent))
      other k n = simp (differ-eq k t n) (i k)

  -- Only the store changes, at a transaction that may be forgotten.
  remove-AllAt :
      (w : Watcher D) (t : Txid) (e : FlaggedTx D)
      → Dict.get t w.store ≡ some e
      → e.status ≡ confirmed
      → AllAt w
      → AllAt (remove t w)
  unfolding remove
  remove-AllAt w t e g c i k = elim (string_eq.dec k t) [
    | yes q ↦
        subst (λ j. IsAt (Dict.get j (Dict.erase t w.store)) (follow j w.exported (some absent)))
          (sym q)
          (subst (λ o. IsAt o (follow t w.exported (some absent)))
            (sym (Dict.get-erase_self t w.store))
            (inr (
              subst (λ o. IsAt o (follow t w.exported (some absent))) g (i t)
              ∙ ap (λ s. some (phase_of s)) c)))
    | no n ↦
        subst (λ o. IsAt o (follow k w.exported (some absent)))
          (sym (Dict.get-erase_ne k t w.store n)) (i k)
  ]

  seen-IsAt :
      (o : Option (FlaggedTx D)) (f : FlaggedTx D)
      → o ≡ none
      → f.status ≡ in_mempool
      → (p : Option Phase) → IsAt o p
      → IsAt (some f) (next_of p seen)
  unfolding next_of next
  seen-IsAt none f q s p (inl a) = simp (a, s) refl
  seen-IsAt none f q s p (inr a) = simp (a, s) refl
  seen-IsAt (some g) f q s p a = absurd (ground arith)

  pub on_added-AllAt :
      (t : Txid) (f : Option (Fetched D)) (w : Watcher D) → AllAt w → AllAt (on_added t f w)
  unfolding on_added put export new_entry
  on_added-AllAt t none w i = i
  on_added-AllAt t (some f) w i = elim (Bool-cases (not f.matched || Dict.has t w.store)) [
    | inl q ↦ simp q i
    | inr q ↦ simp q (
        change w
          (put (new_entry t f w.tip_height) (export t seen (record w { checked = t ∷ w.checked })))
          t seen (some (new_entry t f w.tip_height)) refl
          (λ k. Dict.get-insert k t (new_entry t f w.tip_height) w.store)
          (seen-IsAt (Dict.get t w.store) (new_entry t f w.tip_height) (ground arith) refl) i)
  ]

  -- An entry of the store, met in a phase.
  IsAt-entry :
      (w : Watcher D) (t : Txid) (e : FlaggedTx D) (o : Option (FlaggedTx D)) (f : TxEvent)
      → Dict.get t w.store ≡ some e
      → IsAt o (next (phase_of e.status) f)
      → (p : Option Phase) → IsAt (Dict.get t w.store) p
      → IsAt o (next_of p f)
  unfolding next_of
  IsAt-entry w t e o f g h p a =
      subst (λ q. IsAt o (next_of q f)) (sym (subst (λ x. IsAt x p) g a)) h

  pub on_left_unmined-AllAt :
      (a : Answers D) (t : Txid) (e : FlaggedTx D) (w : Watcher D)
      → Dict.get t w.store ≡ some e
      → e.status ≡ in_mempool
      → AllAt w
      → AllAt (on_left_unmined a t e w)
  unfolding on_left_unmined export remove
  on_left_unmined-AllAt a t e w g s i =
      let d = if is_empty e.inputs then none else a.spender t e.inputs in
      change w (on_left_unmined a t e w) t (departure d) none refl (λ k. Dict.get-erase k t w.store)
        (IsAt-entry w t e none (departure d) g
          (inl (ap (λ x. next (phase_of x) (departure d)) s ∙ departed d)))
        i

  pub mark_confirmed-AllAt :
      (t : Txid) (e : FlaggedTx D) (h : Hash) (height : ℕ) (w : Watcher D)
      → Dict.get t w.store ≡ some e
      → e.status ≡ in_mempool
      → AllAt w
      → AllAt (mark_confirmed t e h height w)
  unfolding mark_confirmed export next
  mark_confirmed-AllAt t e h height w g s i =
      let f = record e { status = confirmed; block_hash = some h; block_height = some height } in
      change w (mark_confirmed t e h height w) t was_confirmed (some f) refl
        (λ k. Dict.get-insert k t f w.store)
        (IsAt-entry w t e (some f) was_confirmed g (ap (λ x. next (phase_of x) was_confirmed) s)) i

  unconfirm-AllAt :
      (t : Txid) (e : FlaggedTx D) (w : Watcher D)
      → Dict.get t w.store ≡ some e
      → e.status ≡ confirmed
      → AllAt w
      → AllAt (unconfirm t e w)
  unfolding unconfirm export next
  unconfirm-AllAt t e w g s i =
      let f = record e { status = in_mempool; block_hash = none; block_height = none } in
      change w (unconfirm t e w) t unconfirmed (some f) refl (λ k. Dict.get-insert k t f w.store)
        (IsAt-entry w t e (some f) unconfirmed g (ap (λ x. next (phase_of x) unconfirmed) s)) i

  by_depth-AllAt :
      (forget : ℕ) (t : Txid) (e : FlaggedTx D) (c : Option ℕ) (w : Watcher D)
      → Dict.get t w.store ≡ some e
      → e.status ≡ confirmed
      → AllAt w
      → AllAt (by_depth forget t e c w)
  unfolding by_depth
  by_depth-AllAt forget t e none w g s i = unconfirm-AllAt t e w g s i
  by_depth-AllAt forget t e (some n) w g s i = elim (Bool-cases (leb forget n)) [
    | inl q ↦ simp q (remove-AllAt w t e g s i)
    | inr q ↦ simp q i
  ]

  check_block-AllAt :
      (a : Answers D) (forget : ℕ) (t : Txid) (e : FlaggedTx D) (h : Option Hash) (w : Watcher D)
      → Dict.get t w.store ≡ some e
      → e.status ≡ confirmed
      → AllAt w
      → AllAt (check_block a forget t e h w)
  unfolding check_block
  check_block-AllAt a forget t e none w g s i = i
  check_block-AllAt a forget t e (some h) w g s i =
      by_depth-AllAt forget t e (a.confirmations h) w g s i

  check_depth-AllAt :
      (a : Answers D) (forget : ℕ) (t : Txid) (o : Option (FlaggedTx D)) (w : Watcher D)
      → Dict.get t w.store ≡ o
      → AllAt w
      → AllAt (check_depth a forget t o w)
  unfolding check_depth
  check_depth-AllAt a forget t none w g i = i
  check_depth-AllAt a forget t (some e) w g i = elim (status-cases e.status) [
    | inl s ↦ simp s i
    | inr s ↦ simp s (check_block-AllAt a forget t e e.block_hash w g s i)
  ]

  pub check_depths-AllAt :
      (a : Answers D) (forget : ℕ) (ts : List Txid) (w : Watcher D)
      → AllAt w
      → AllAt (check_depths a forget ts w)
  unfolding check_depths
  check_depths-AllAt a forget [] w i = i
  check_depths-AllAt a forget (t ∷ ts) w i =
      check_depths-AllAt a forget ts _ (check_depth-AllAt a forget t (Dict.get t w.store) w refl i)
