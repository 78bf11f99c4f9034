-- ===== src/Base/Lists.antt =====
-- Lists measured by native numbers, tested by Boolean functions, and membership with its witness.
use Prim.Native.Nat.{ℕ, suc, ◌+◌}
use mathlib.Core.Path.{◌≡◌, refl, ap}
use mathlib.Core.Logic.{inl, inr}
use mathlib.Core.Bool.{Bool, true, false, ◌&&◌, ◌||◌}
use mathlib.Core.List.Memᴰ
use mathlib.Core.List.{List, [], ◌∷◌, ◌++◌, map, Memᴰ}
use mathlib.Core.Option.{Option, none, some}
use native.Mathlib.Omega.{arith}
use remotehub.Base.Tests.{if◌then◌else◌, Bool-cases}

module _ {ℓ} {A : Type ℓ} where
  abbrev pub length : List A → ℕ
  length [] = 0
  length (x ∷ xs) = suc (length xs)

  -- `iter().any`, `iter().all`, `iter().find` and `iter().filter`.
  abbrev pub any : (A → Bool) → List A → Bool
  any p [] = false
  any p (x ∷ xs) = p x || any p xs

  abbrev pub all : (A → Bool) → List A → Bool
  all p [] = true
  all p (x ∷ xs) = p x && all p xs

  abbrev pub find : (A → Bool) → List A → Option A
  find p [] = none
  find p (x ∷ xs) = if p x then some x else find p xs

  abbrev pub filter : (A → Bool) → List A → List A
  filter p [] = []
  filter p (x ∷ xs) = let rest = filter p xs in if p x then x ∷ rest else rest

  abbrev pub is_empty : List A → Bool
  is_empty [] = true
  is_empty (x ∷ xs) = false

  pub length-append : (xs ys : List A) → length (xs ++ ys) ≡ length xs + length ys
  length-append [] ys = omega arith
  length-append (x ∷ xs) ys = omega (arith, length-append xs ys)

  pub filter-append :
      (p : A → Bool) (xs ys : List A) → filter p (xs ++ ys) ≡ filter p xs ++ filter p ys
  filter-append p [] ys = refl
  filter-append p (x ∷ xs) ys = ground (arith, filter-append p xs ys)

  pub Memᴰ-filter :
      (p : A → Bool) (a : A) (xs : List A) → Memᴰ a (filter p xs) → Memᴰ a xs × (p a ≡ true)
  Memᴰ-filter p a [] m = absurd (Memᴰ.not-nil m)
  Memᴰ-filter p a (x ∷ xs) m = elim (Bool-cases (p x)) [
    | inl y ↦ elim (Memᴰ.cases_cons (rw (y, filter) at m)) [
      | inl e ↦ (Memᴰ.head e, rw e y)
      | inr t ↦ let (rest, h) = Memᴰ-filter p a xs t in (Memᴰ.tail rest, h)
    ]
    | inr n ↦ let (rest, h) = Memᴰ-filter p a xs (rw (n, filter) at m) in (Memᴰ.tail rest, h)
  ]

  pub filter-Memᴰ :
      (p : A → Bool) {a : A} (xs : List A) → Memᴰ a xs → p a ≡ true → Memᴰ a (filter p xs)
  filter-Memᴰ p [] m h = absurd (Memᴰ.not-nil m)
  filter-Memᴰ p {a} (x ∷ xs) (Memᴰ.head e) h = rw (← e, h, filter) (Memᴰ.head refl)
  filter-Memᴰ p (x ∷ xs) (Memᴰ.tail m) h = elim (Bool-cases (p x)) [
    | inl y ↦ rw (y, filter) (Memᴰ.tail (filter-Memᴰ p xs m h))
    | inr n ↦ rw (n, filter) (filter-Memᴰ p xs m h)
  ]

  pub any-Memᴰ : (p : A → Bool) (xs : List A) → any p xs ≡ true → (a : A) × Memᴰ a xs × (p a ≡ true)
  any-Memᴰ p [] h = cc
  any-Memᴰ p (x ∷ xs) h = elim (Bool-cases (p x)) [
    | inl y ↦ (x, Memᴰ.head refl, y)
    | inr n ↦ let (a, m, y) = any-Memᴰ p xs (ground arith) in (a, Memᴰ.tail m, y)
  ]

  pub any_of_Memᴰ : (p : A → Bool) {a : A} (xs : List A) → Memᴰ a xs → p a ≡ true → any p xs ≡ true
  any_of_Memᴰ p [] m h = absurd (Memᴰ.not-nil m)
  any_of_Memᴰ p (x ∷ xs) (Memᴰ.head e) h = rw (← e, h) refl
  any_of_Memᴰ p (x ∷ xs) (Memᴰ.tail m) h = ground (arith, any_of_Memᴰ p xs m h)

  pub find-eq-some : (p : A → Bool) {a : A} (xs : List A) → find p xs ≡ some a → p a ≡ true
  find-eq-some p [] h = cc
  find-eq-some p {a} (x ∷ xs) h = ground (arith, find-eq-some p {a = a} xs)

  pub find-Memᴰ : (p : A → Bool) {a : A} (xs : List A) → find p xs ≡ some a → Memᴰ a xs
  find-Memᴰ p [] h = cc
  find-Memᴰ p {a} (x ∷ xs) h = elim (Bool-cases (p x)) [
    | inl y ↦ Memᴰ.head (ground arith)
    | inr n ↦ Memᴰ.tail (find-Memᴰ p xs (ground arith))
  ]

  pub all-Memᴰ : (p : A → Bool) {a : A} (xs : List A) → all p xs ≡ true → Memᴰ a xs → p a ≡ true
  all-Memᴰ p [] h m = absurd (Memᴰ.not-nil m)
  all-Memᴰ p (x ∷ xs) h (Memᴰ.head e) = rw e (ground arith)
  all-Memᴰ p (x ∷ xs) h (Memᴰ.tail m) = all-Memᴰ p xs (ground arith) m

pub length-map {ℓ κ} :
    {A : Type ℓ} {B : Type κ} (f : A → B) (xs : List A) → length (map f xs) ≡ length xs
length-map f [] = refl
length-map f (x ∷ xs) = ap suc (length-map f xs)

abbrev pub or_else {ℓ} : {A : Type ℓ} → Option A → Option A → Option A
or_else none b = b
or_else (some a) b = some a
