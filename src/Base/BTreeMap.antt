-- ===== src/Base/BTreeMap.antt =====
-- A `BTreeMap` as the list of its entries in the order of their keys. Lookup, removal and the keys are
-- those of `Base.Map`; insertion keeps the order.
use Prim.Native.Nat.{ℕ}
use mathlib.Core.Path.{◌≡◌, refl}
use mathlib.Core.Bool.{Bool}
use mathlib.Core.Option.{some}
use mathlib.Core.List.{[], ◌∷◌}
use native.Mathlib.Omega.{arith}
use remotehub.Base.Tests.{if◌then◌else◌, ltb}
use remotehub.Base.Equality.{HasEq, ◌==◌}
use remotehub.Base.Map.{HashMap, get}
use remotehub.Base.Text.{Text, text_before}

pub record Order {ℓ} (A : Type ℓ) : Type ℓ where
  pub before : A → A → Bool

instance abbrev pub nat_order : Order ℕ
nat_order = record { before = ltb }

instance abbrev pub text_order : Order Text
text_order = record { before = text_before }

abbrev pub BTreeMap {ℓ κ} : Type ℓ → Type κ → Type (ℓ ⊔ κ)
BTreeMap K V = HashMap K V

module _ {ℓ κ} {K : Type ℓ} {V : Type κ} ⦃e : HasEq K⦄ ⦃o : Order K⦄ where
  unfoldable pub put : BTreeMap K V → K → V → BTreeMap K V
  put [] k v = (k, v) ∷ []
  put ((j, w) ∷ m) k v =
      let rest = (j, w) ∷ put m k v in
      if j == k then (k, v) ∷ m else if o.before k j then (k, v) ∷ (j, w) ∷ m else rest

  pub get-put :
      (m : BTreeMap K V) (k j : K) (v : V)
      → get (put m k v) j ≡ (if k == j then some v else get m j)
  unfolding get put
  get-put [] k j v = refl
  get-put ((i, w) ∷ m) k j v =
      ground (arith, e.test_iff i k, e.test_iff i j, e.test_iff k j, get-put m k j v)
