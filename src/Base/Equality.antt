-- ===== src/Base/Equality.antt =====
-- Equality as an instance argument, and what the code asks of a `Vec` or a `HashSet` by equality.
use Prim.Native.Nat.{ℕ}
use Prim.Native.String.{String}
use mathlib.Core.Path.{◌≡◌, refl, sym}
use mathlib.Core.Logic.{◌↔◌, inl, inr}
use mathlib.Core.Bool.{Bool, true, false, ◌||◌}
use mathlib.Core.List.{List, [], ◌∷◌, ◌++◌, Memᴰ}
use native.Mathlib.Omega.{arith}
use text.Mathlib.Text.{◌==◌ as str_eq}
use text.Mathlib.TextEquality.{eq_iff}
use remotehub.Base.Tests.{◌=?◌, =?_iff, Bool-cases}

-- A test of equality that tells the truth: `PartialEq`, as it is derived.
pub record HasEq {κ} (T : Type κ) : Type κ where
  pub test : T → T → Bool
  pub test_iff : (x y : T) → (test x y ≡ true) ↔ (x ≡ y)

instance abbrev pub string_eq : HasEq String
string_eq = record { test = str_eq; test_iff = eq_iff }

instance abbrev pub nat_eq : HasEq ℕ
nat_eq = record { test = ◌=?◌; test_iff = =?_iff }

infix 50 ◌==◌
abbrev pub ◌==◌ {κ} : {T : Type κ} ⦃d : HasEq T⦄ → T → T → Bool
◌==◌ ⦃d⦄ x y = d.test x y

module _ {ℓ} {A : Type ℓ} ⦃e : HasEq A⦄ where
  pub ==_refl : (a : A) → (a == a) ≡ true
  ==_refl a = (e.test_iff a a).1 refl

  pub eq_of_== : {a b : A} → (a == b) ≡ true → a ≡ b
  eq_of_== {a} {b} h = (e.test_iff a b).0 h

  -- `contains`, of a slice or of a set kept as the list of its elements.
  abbrev pub contains : List A → A → Bool
  contains [] a = false
  contains (x ∷ xs) a = (x == a) || contains xs a

  pub Memᴰ-contains : (a : A) (xs : List A) → Memᴰ a xs → contains xs a ≡ true
  Memᴰ-contains a [] m = elim m [ ]
  Memᴰ-contains a (x ∷ xs) (Memᴰ.head p) = elim (Bool-cases (x == a)) [
    | inl y ↦ ground arith
    | inr n ↦ ground (arith, (e.test_iff x a).1 (sym p))
  ]
  Memᴰ-contains a (x ∷ xs) (Memᴰ.tail m) = ground (arith, Memᴰ-contains a xs m)

  pub contains-Memᴰ : (a : A) (xs : List A) → contains xs a ≡ true → Memᴰ a xs
  contains-Memᴰ a [] h = cc
  contains-Memᴰ a (x ∷ xs) h = elim (Bool-cases (x == a)) [
    | inl y ↦ Memᴰ.head (sym (eq_of_== y))
    | inr n ↦ Memᴰ.tail (contains-Memᴰ a xs (ground arith))
  ]

  pub contains-append :
      (xs ys : List A) (a : A) → contains (xs ++ ys) a ≡ (contains xs a || contains ys a)
  contains-append [] ys a = refl
  contains-append (x ∷ xs) ys a = ground (arith, contains-append xs ys a)
