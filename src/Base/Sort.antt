-- ===== src/Base/Sort.antt =====
-- `sort_by_key`: the stable sort, as the insertion of each element behind those that are not greater.
use mathlib.Core.List.{append-nil}
use remotehub.Base.{
  eq_of_==, subst, Bool, true, false, ◌||◌, ◌&&◌, List, [], ◌∷◌, ◌++◌, map, arith, ◌≡◌, refl, ap,
  ◌∙◌, if◌then◌else◌, Bool-cases, inl, inr, HasEq, ◌==◌, contains, contains-append, find, Option,
  some, none, or_else, all, not,
}

module _ {ℓ κ} {A : Type ℓ} {K : Type κ} (before : K → K → Bool) (key : A → K) where
  abbrev pub insert_by : A → List A → List A
  insert_by x [] = x ∷ []
  insert_by x (y ∷ ys) =
      let rest = y ∷ insert_by x ys in if before (key x) (key y) then x ∷ y ∷ ys else rest

  abbrev pub sort_onto : List A → List A → List A
  sort_onto sorted [] = sorted
  sort_onto sorted (x ∷ xs) = sort_onto (insert_by x sorted) xs

  unfoldable pub sort_by_key : List A → List A
  sort_by_key xs = sort_onto [] xs

  all-insert_by : (p : A → Bool) (x : A) (ys : List A) → all p (insert_by x ys) ≡ (p x && all p ys)
  all-insert_by p x [] = refl
  all-insert_by p x (y ∷ ys) = ground (arith, all-insert_by p x ys)

  all-sort_onto :
      (p : A → Bool) (sorted xs : List A) → all p (sort_onto sorted xs) ≡ (all p sorted && all p xs)
  all-sort_onto p sorted [] = ground arith
  all-sort_onto p sorted (x ∷ xs) =
      rw (all-sort_onto p (insert_by x sorted) xs, all-insert_by) (ground arith)

  pub all-sort_by_key : (p : A → Bool) (xs : List A) → all p (sort_by_key xs) ≡ all p xs
  unfolding sort_by_key
  all-sort_by_key p xs = all-sort_onto p [] xs

-- No two elements are the same.
abbrev pub distinct {ℓ} : {A : Type ℓ} ⦃e : HasEq A⦄ → List A → Bool
distinct [] = true
distinct (x ∷ xs) = not (contains xs x) && distinct xs

pub or_else-none {ℓ} : {A : Type ℓ} (o : Option A) → or_else o none ≡ o
or_else-none none = refl
or_else-none (some a) = refl

module _ {ℓ κ ι} {A : Type ℓ} {K : Type κ} {I : Type ι} ⦃e : HasEq I⦄ (before : K → K → Bool)
    (key : A → K) (name : A → I) where
  contains-insert_by :
      (x : A) (ys : List A) (i : I)
      → contains (map name (insert_by before key x ys)) i
        ≡ ((name x == i) || contains (map name ys) i)
  contains-insert_by x [] i = refl
  contains-insert_by x (y ∷ ys) i = ground (arith, contains-insert_by x ys i)

  contains-sort_onto :
      (sorted xs : List A) (i : I)
      → contains (map name (sort_onto before key sorted xs)) i
        ≡ (contains (map name sorted) i || contains (map name xs) i)
  contains-sort_onto sorted [] i = ground arith
  contains-sort_onto sorted (x ∷ xs) i =
      rw (contains-sort_onto (insert_by before key x sorted) xs i, contains-insert_by x sorted i)
        (ground arith)

  pub contains-sort_by_key :
      (xs : List A) (i : I)
      → contains (map name (sort_by_key before key xs)) i ≡ contains (map name xs) i
  unfolding sort_by_key
  contains-sort_by_key xs i = contains-sort_onto [] xs i

  distinct-insert_by :
      (x : A) (ys : List A)
      → distinct (map name (insert_by before key x ys))
        ≡ (not (contains (map name ys) (name x)) && distinct (map name ys))
  distinct-insert_by x [] = refl
  distinct-insert_by x (y ∷ ys) = ground (
    arith,
    distinct-insert_by x ys,
    contains-insert_by x ys (name y),
    e.test_iff (name x) (name y),
    e.test_iff (name y) (name x),
  )

  distinct-append-insert_by :
      (x : A) (as' : List I) (ys : List A)
      → distinct (as' ++ map name (insert_by before key x ys))
        ≡ distinct (as' ++ name x ∷ map name ys)
  distinct-append-insert_by x [] ys = distinct-insert_by x ys
  distinct-append-insert_by x (a ∷ as') ys =
      rw
        (
          distinct-append-insert_by x as' ys,
          contains-append,
          contains-append,
          contains-insert_by x ys a,
        )
        refl

  distinct-append-cons :
      (as' bs : List I) (b : I) → distinct (as' ++ b ∷ bs) ≡ distinct (b ∷ as' ++ bs)
  distinct-append-cons [] bs b = refl
  distinct-append-cons (a ∷ as') bs b = ground (
    arith,
    distinct-append-cons as' bs b,
    contains-append as' bs a,
    contains-append as' (b ∷ bs) a,
    contains-append as' bs b,
    e.test_iff a b,
    e.test_iff b a,
  )

  distinct-sort_onto :
      (sorted xs : List A)
      → distinct (map name (sort_onto before key sorted xs))
        ≡ distinct (map name xs ++ map name sorted)
  distinct-sort_onto sorted [] = refl
  distinct-sort_onto sorted (x ∷ xs) =
      distinct-sort_onto (insert_by before key x sorted) xs
      ∙ (distinct-append-insert_by x (map name xs) sorted
          ∙ distinct-append-cons (map name xs) (map name sorted) (name x))

  pub distinct-sort_by_key :
      (xs : List A) → distinct (map name (sort_by_key before key xs)) ≡ distinct (map name xs)
  unfolding sort_by_key
  distinct-sort_by_key xs =
      distinct-sort_onto [] xs ∙ ap {A = List I} (distinct {A = I}) (append-nil _)

  -- By a name that no two elements share, the same element is found before and after the sort.
  abbrev pub find_by : I → List A → Option A
  find_by i = find (λ x. name x == i)

  pub find_by_missing :
      (xs : List A) (i : I) → contains (map name xs) i ≡ false → find_by i xs ≡ none
  find_by_missing [] i h = refl
  find_by_missing (x ∷ xs) i h = ground (arith, find_by_missing xs i)

  find_by-insert_by :
      (x : A) (ys : List A) (i : I)
      → contains (map name ys) (name x) ≡ false
      → find_by i (insert_by before key x ys) ≡ (if name x == i then some x else find_by i ys)
  find_by-insert_by x [] i h = refl
  find_by-insert_by x (y ∷ ys) i h = ground (
    arith,
    find_by-insert_by x ys i,
    e.test_iff (name x) i,
    e.test_iff (name y) i,
    e.test_iff (name y) (name x),
  )

  find_by-sort_onto :
      (sorted xs : List A) (i : I)
      → distinct (map name xs ++ map name sorted) ≡ true
      → find_by i (sort_onto before key sorted xs) ≡ or_else (find_by i xs) (find_by i sorted)
  find_by-sort_onto sorted [] i h = refl
  find_by-sort_onto sorted (x ∷ xs) i h =
      rw
        (
          find_by-sort_onto (insert_by before key x sorted) xs i shifted,
          find_by-insert_by x sorted i fresh.1,
        )
        (elim (Bool-cases (name x == i)) [
          | inl same ↦
              let none_left : find_by i xs ≡ none =
                find_by_missing xs i
                  (subst (λ j. contains (map name xs) j ≡ false) (eq_of_== same) fresh.0) in
              rw (same, none_left) refl
          | inr other ↦ rw other refl
        ])
    where
      shifted : distinct (map name xs ++ map name (insert_by before key x sorted)) ≡ true
      shifted =
          distinct-append-insert_by x (map name xs) sorted
          ∙ (distinct-append-cons (map name xs) (map name sorted) (name x) ∙ h)

      fresh :
          (contains (map name xs) (name x) ≡ false) × (contains (map name sorted) (name x) ≡ false)
      fresh = ground (arith, contains-append (map name xs) (map name sorted) (name x))

  pub find_by-sort_by_key :
      (xs : List A) (i : I)
      → distinct (map name xs) ≡ true
      → find_by i (sort_by_key before key xs) ≡ find_by i xs
  unfolding sort_by_key
  find_by-sort_by_key xs i h =
      find_by-sort_onto [] xs i (ap {A = List I} (distinct {A = I}) (append-nil _) ∙ h)
      ∙ or_else-none (find_by i xs)
