-- ===== src/BlockParser/Tally.antt =====
-- What a reader of the exported rows can compute from them: sums, counts and lists of known values.
use bitcoin_data_exporter.Common.{
  ℕ, ◌+◌, String, ◌≡◌, refl, ap, ◌∙◌, inl, inr, Bool, true, false, not, ◌&&◌, ◌||◌, Option, none,
  some, List, [], ◌∷◌, ◌++◌, arith, if◌then◌else◌, Bool-cases, ◌==◌, nat_eq, string_eq, contains,
  length, length-append,
}
use bitcoin_data_exporter.Common.Dict.{Dict}
use bitcoin_data_exporter.BlockParser.{
  count_type, count_of, total_count, script_types, normalized_script_type, zero_counts,
  init_script_type_counts, other,
}
use bitcoin_data_exporter.BlockParser.Inputs.{append_known, one_if}

module _ {A : Type 0} where
  -- The sum of a column.
  unfoldable pub total : (A → ℕ) → List A → ℕ
  total f [] = 0
  total f (x ∷ xs) = f x + total f xs

  -- The number of rows with a property.
  unfoldable pub count : (A → Bool) → List A → ℕ
  count p [] = 0
  count p (x ∷ xs) = one_if (p x) + count p xs

  unfoldable pub any : (A → Bool) → List A → Bool
  any p [] = false
  any p (x ∷ xs) = p x || any p xs

  pub total-append : (f : A → ℕ) (xs ys : List A) → total f (xs ++ ys) ≡ total f xs + total f ys
  unfolding total
  total-append f [] ys = omega arith
  total-append f (x ∷ xs) ys = omega (arith, total-append f xs ys)

  pub count-append : (p : A → Bool) (xs ys : List A) → count p (xs ++ ys) ≡ count p xs + count p ys
  unfolding count
  count-append p [] ys = omega arith
  count-append p (x ∷ xs) ys = omega (arith, count-append p xs ys)

  pub total-snoc : (f : A → ℕ) (xs : List A) (x : A) → total f (xs ++ x ∷ []) ≡ total f xs + f x
  unfolding total
  total-snoc f xs x = omega (arith, total-append f xs (x ∷ []))

  pub count-snoc :
      (p : A → Bool) (xs : List A) (x : A) → count p (xs ++ x ∷ []) ≡ count p xs + one_if (p x)
  unfolding count
  count-snoc p xs x = omega (arith, count-append p xs (x ∷ []))

  pub any-snoc : (p : A → Bool) (xs : List A) (x : A) → any p (xs ++ x ∷ []) ≡ (any p xs || p x)
  unfolding any
  any-snoc p [] x = ground arith
  any-snoc p (y ∷ xs) x = ground (arith, any-snoc p xs x)

  pub length-snoc : (xs : List A) (x : A) → length (xs ++ x ∷ []) ≡ length xs + 1
  length-snoc xs x = length-append xs (x ∷ [])

-- A sum and its recomputation grow by the same.
pub grow : (n a b c : ℕ) → a ≡ b → c ≡ b + n → a + n ≡ c
grow n a b c p q = omega (arith, p, q)

pub from_zero : (a b : ℕ) → a ≡ 0 + b → a ≡ b
from_zero a b p = omega (arith, p)

pub grow-if :
    (b : Bool) (a c d g : ℕ) → a ≡ c → d ≡ a + (if b then 1 else 0) → g ≡ c + one_if b → d ≡ g
grow-if true a c d g p q r = omega (arith, p, q, r)
grow-if false a c d g p q r = omega (arith, p, q, r)

unfoldable pub prepend_known : {B : Type 0} → Option B → List B → List B
prepend_known none bs = bs
prepend_known (some b) bs = b ∷ bs

-- The values of a column, where a row has one.
unfoldable pub known : {A B : Type 0} → (A → Option B) → List A → List B
unfolding prepend_known
known f [] = []
known f (x ∷ xs) = prepend_known (f x) (known f xs)

pub prepend-append :
    {B : Type 0} (o u : Option B) (bs : List B)
    → prepend_known o (append_known u bs) ≡ append_known u (prepend_known o bs)
unfolding prepend_known append_known
prepend-append none u bs = refl
prepend-append (some b) none bs = refl
prepend-append (some b) (some c) bs = refl

prepend-append_nil : {B : Type 0} (o : Option B) → prepend_known o [] ≡ append_known o []
unfolding prepend_known append_known
prepend-append_nil none = refl
prepend-append_nil (some b) = refl

pub known-snoc :
    {A B : Type 0} (f : A → Option B) (xs : List A) (x : A)
    → known f (xs ++ x ∷ []) ≡ append_known (f x) (known f xs)
unfolding known prepend_known append_known
known-snoc f [] x = prepend-append_nil (f x)
known-snoc f (y ∷ xs) x =
    ap (prepend_known (f y)) (known-snoc f xs x) ∙ prepend-append (f y) (f x) (known f xs)

-- The keys of a dict of counts are the script types.
unfoldable pub has_type : String → Dict String ℕ → Bool
has_type t [] = false
has_type t ((u, k) ∷ d) = t == u || has_type t d

pub count_of-count_type :
    (k t : String) (n : ℕ) (d : Dict String ℕ)
    → has_type t d ≡ true
    → count_of k (count_type t n d) ≡ count_of k d + (if k == t then n else 0)
unfolding count_type has_type
count_of-count_type k t n [] h = absurd (ground arith)
count_of-count_type k t n ((u, m) ∷ d) h = ground (arith, count_of-count_type k t n d)

pub has_type-count_type :
    (k t : String) (n : ℕ) (d : Dict String ℕ) → has_type k (count_type t n d) ≡ has_type k d
unfolding count_type has_type
has_type-count_type k t n [] = refl
has_type-count_type k t n ((u, m) ∷ d) = ground (arith, has_type-count_type k t n d)

pub total_count-count_type :
    (t : String) (n : ℕ) (d : Dict String ℕ)
    → has_type t d ≡ true
    → total_count (count_type t n d) ≡ total_count d + n
unfolding count_type has_type
total_count-count_type t n [] h = absurd (ground arith)
total_count-count_type t n ((u, m) ∷ d) h = ground (arith, total_count-count_type t n d)

pub has_type-zero_counts :
    (t : String) (ts : List String) → contains ts t ≡ true → has_type t (zero_counts ts) ≡ true
unfolding has_type zero_counts
has_type-zero_counts t [] h = h
has_type-zero_counts t (u ∷ ts) h = ground (arith, has_type-zero_counts t ts)

pub count_of-zero_counts : (t : String) (ts : List String) → count_of t (zero_counts ts) ≡ 0
unfolding zero_counts
count_of-zero_counts t [] = refl
count_of-zero_counts t (u ∷ ts) = ground (arith, count_of-zero_counts t ts)

either-contains :
    (ts : List String) (t u : String)
    → contains ts u ≡ true
    → contains ts (if contains ts t && not (t == u) then t else u) ≡ true
either-contains ts t u h = elim (Bool-cases (contains ts t && not (t == u))) [
  | inl e ↦ simp e (ground arith)
  | inr e ↦ simp e h
]

pub normalized-contains :
    (o : Option String) → contains script_types (normalized_script_type o) ≡ true
unfolding normalized_script_type string_eq
normalized-contains none = refl
normalized-contains (some t) = either-contains script_types t other refl

pub normalized-has_type :
    (o : Option String) → has_type (normalized_script_type o) init_script_type_counts ≡ true
unfolding init_script_type_counts
normalized-has_type o =
    has_type-zero_counts (normalized_script_type o) script_types (normalized-contains o)
