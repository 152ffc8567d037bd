-- ===== src/Common/Dict.antt =====
-- Python's `dict` in insertion order. Proofs go by the laws, in `if` form.
use mathlib.Core.Path.{◌≡◌, refl, ◌∙◌}
use mathlib.Core.Bool.{Bool}
use mathlib.Core.Logic.{◌≢◌}
use mathlib.Core.Option.{Option, none, some}
use mathlib.Core.List.{List, [], ◌∷◌}
use native.Mathlib.Omega.{arith}
use bitcoin_data_exporter.Common.Base.{if◌then◌else◌, is_some, or_else}
use bitcoin_data_exporter.Common.Equality.{Eq, ◌==◌}

abbrev pub Dict {ℓ κ} : Type ℓ → Type κ → Type (ℓ ⊔ κ)
Dict K V = List (K × V)

module _ {ℓ κ} {K : Type ℓ} {V : Type κ} ⦃e : Eq K⦄ where
  -- `d.get(k)`
  unfoldable pub get : K → Dict K V → Option V
  get k [] = none
  get k ((j, v) ∷ d) = if k == j then some v else get k d

  -- `k in d`
  abbrev pub has : K → Dict K V → Bool
  has k d = is_some (get k d)

  -- `d[k] = v`
  unfoldable pub insert : K → V → Dict K V → Dict K V
  insert k v [] = (k, v) ∷ []
  insert k v ((j, w) ∷ d) = if k == j then (j, v) ∷ d else (j, w) ∷ insert k v d

  -- `d.pop(k, None)`. Every entry of the key goes; a real dict has at most one.
  unfoldable pub erase : K → Dict K V → Dict K V
  erase k [] = []
  erase k ((j, w) ∷ d) = let rest = erase k d in if k == j then rest else (j, w) ∷ rest

  -- `d.update(other)`
  unfoldable pub update : Dict K V → Dict K V → Dict K V
  update [] d = d
  update ((k, v) ∷ other) d = update other (insert k v d)

  pub get-insert :
      (j k : K) (v : V) (d : Dict K V) → get j (insert k v d) ≡ (if j == k then some v else get j d)
  unfolding get insert
  get-insert j k v [] = refl
  get-insert j k v ((i, w) ∷ d) = ground (arith, get-insert j k v d)

  pub get-erase : (j k : K) (d : Dict K V) → get j (erase k d) ≡ (if j == k then none else get j d)
  unfolding get erase
  get-erase j k [] = ground arith
  get-erase j k ((i, w) ∷ d) = ground (arith, get-erase j k d)

  pub get-nil : (k : K) → get k [] ≡ none
  unfolding get
  get-nil k = refl

  pub get-insert_self : (k : K) (v : V) (d : Dict K V) → get k (insert k v d) ≡ some v
  get-insert_self k v d = ground (arith, get-insert k k v d)

  pub get-erase_self : (k : K) (d : Dict K V) → get k (erase k d) ≡ none
  get-erase_self k d = ground (arith, get-erase k k d)

  pub get-insert_ne : (j k : K) (v : V) (d : Dict K V) → j ≢ k → get j (insert k v d) ≡ get j d
  get-insert_ne j k v d h = ground (arith, get-insert j k v d)

  pub get-erase_ne : (j k : K) (d : Dict K V) → j ≢ k → get j (erase k d) ≡ get j d
  get-erase_ne j k d h = ground (arith, get-erase j k d)

  -- No key stands twice.
  abbrev pub NodupKeys : Dict K V → Type κ
  NodupKeys [] = Unit
  NodupKeys ((k, _) ∷ d) = (get k d ≡ none) × NodupKeys d

  pub insert-NodupKeys : (k : K) (v : V) (d : Dict K V) → NodupKeys d → NodupKeys (insert k v d)
  unfolding insert get
  insert-NodupKeys k v [] h = (refl, tt)
  insert-NodupKeys k v ((j, w) ∷ d) h =
      ground (arith, insert-NodupKeys k v d h.1, get-insert j k v d)

  -- `update` takes the new value of a key where there is one.
  pub get-update :
      (j : K) (new d : Dict K V)
      → NodupKeys new
      → get j (update new d) ≡ (or_else (get j new) (get j d))
  unfolding get update
  get-update j [] d h = refl
  get-update j ((k, v) ∷ new) d h =
      get-update j new (insert k v d) h.1 ∙ ground (arith, get-insert j k v d)

pub ruleset dict_laws = (get-insert, get-erase, get-nil)
