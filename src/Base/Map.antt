-- ===== src/Base/Map.antt =====
-- A `HashMap` or `BTreeMap` as the list of its entries: what the code does with one by key. The
-- order of the entries is the order of insertion, and no theorem depends on it.
use mathlib.Core.Path.{◌≡◌, refl}
use mathlib.Core.Logic.{inl, inr}
use mathlib.Core.Bool.{Bool, true, false}
use mathlib.Core.Option.{Option, none, some}
use mathlib.Core.List.{List, [], ◌∷◌}
use mathlib.Core.List.{Memᴰ}
use native.Mathlib.Omega.{arith}
use remotehub.Base.Tests.{if◌then◌else◌, Bool-cases}
use remotehub.Base.Equality.{HasEq, ◌==◌, contains}

abbrev pub HashMap {ℓ κ} : Type ℓ → Type κ → Type (ℓ ⊔ κ)
HashMap K V = List (K × V)

module _ {ℓ κ} {K : Type ℓ} {V : Type κ} ⦃e : HasEq K⦄ where
  unfoldable pub get : HashMap K V → K → Option V
  get [] k = none
  get ((j, v) ∷ m) k = if j == k then some v else get m k

  unfoldable pub insert : HashMap K V → K → V → HashMap K V
  insert [] k v = (k, v) ∷ []
  insert ((j, w) ∷ m) k v = if j == k then (k, v) ∷ m else (j, w) ∷ insert m k v

  unfoldable pub remove : HashMap K V → K → HashMap K V
  remove [] k = []
  remove ((j, v) ∷ m) k = let rest = remove m k in if j == k then rest else (j, v) ∷ rest

  abbrev pub keys : HashMap K V → List K
  keys [] = []
  keys ((j, v) ∷ m) = j ∷ keys m

  abbrev pub contains_key : HashMap K V → K → Bool
  contains_key m k = contains (keys m) k

  -- `collect` into a map: a later entry of a key replaces an earlier one.
  abbrev pub collect_onto : HashMap K V → List (K × V) → HashMap K V
  collect_onto m [] = m
  collect_onto m ((k, v) ∷ entries) = collect_onto (insert m k v) entries

  pub get-insert :
      (m : HashMap K V) (k j : K) (v : V)
      → get (insert m k v) j ≡ (if k == j then some v else get m j)
  unfolding get insert
  get-insert [] k j v = refl
  get-insert ((i, w) ∷ m) k j v =
      ground (arith, e.test_iff i k, e.test_iff i j, e.test_iff k j, get-insert m k j v)

  pub get-remove :
      (m : HashMap K V) (k j : K) → get (remove m k) j ≡ (if k == j then none else get m j)
  unfolding get remove
  get-remove [] k j = ground arith
  get-remove ((i, w) ∷ m) k j =
      ground (arith, e.test_iff i k, e.test_iff i j, e.test_iff k j, get-remove m k j)

  pub get-contains_key :
      (m : HashMap K V) (k : K) {v : V} → get m k ≡ some v → contains_key m k ≡ true
  unfolding get
  get-contains_key [] k h = cc
  get-contains_key ((i, w) ∷ m) k {v} h = ground (arith, get-contains_key m k {v = v})

  pub get_of_contains_key :
      (m : HashMap K V) (k : K) → contains_key m k ≡ true → (v : V) × (get m k ≡ some v)
  unfolding get
  get_of_contains_key [] k h = cc
  get_of_contains_key ((i, w) ∷ m) k h = elim (Bool-cases (i == k)) [
    | inl y ↦ (w, ground arith)
    | inr n ↦ let (v, p) = get_of_contains_key m k (ground arith) in (v, ground arith)
  ]

  pub get-Memᴰ : (m : HashMap K V) (k : K) {v : V} → get m k ≡ some v → Memᴰ (k, v) m
  unfolding get
  get-Memᴰ [] k h = cc
  get-Memᴰ ((i, w) ∷ m) k h = elim (Bool-cases (i == k)) [
    | inl y ↦ Memᴰ.head (ground (arith, e.test_iff i k))
    | inr n ↦ Memᴰ.tail (get-Memᴰ m k (ground arith))
  ]

  pub contains_key_of_none : (m : HashMap K V) (k : K) → get m k ≡ none → contains_key m k ≡ false
  unfolding get
  contains_key_of_none [] k h = refl
  contains_key_of_none ((i, w) ∷ m) k h = ground (arith, contains_key_of_none m k)

abbrev pub collect {ℓ κ} : {K : Type ℓ} {V : Type κ} ⦃e : HasEq K⦄ → List (K × V) → HashMap K V
collect entries = collect_onto [] entries
