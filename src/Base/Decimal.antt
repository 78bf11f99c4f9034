-- ===== src/Base/Decimal.antt =====
-- Decimal numbers: `to_string` of an unsigned integer, and `parse` into one of a given width.
use remotehub.Base.{
  inl, inr, le→leb, subst, ℕ, zero, suc, ◌+◌, ◌-◌, ◌*◌, ◌/◌, ◌%◌, ◌≤◌, ◌<◌, Bool, true, ◌&&◌,
  Option, none, some, List, [], ◌∷◌, ◌++◌, arith, ◌≡◌, refl, ◌∙◌, if◌then◌else◌, leb, ltb, ◌=?◌,
  all, Bool-cases,
}
use remotehub.Base.Text.{Text, is_digit}

unfoldable pub digits_from : ℕ → ℕ → Text
digits_from zero n = []
digits_from (suc fuel) n =
    let rest = digits_from fuel (n / 10) ++ (b'0' + n % 10) ∷ [] in
    if ltb n 10 then (b'0' + n) ∷ [] else rest

-- One unit of fuel serves a digit, so `suc n` of them serve.
unfoldable pub show : ℕ → Text
unfolding digits_from
show n = digits_from (suc n) n

-- The value of digits, after what comes before them.
unfoldable pub value_from : ℕ → Text → ℕ
value_from acc [] = acc
value_from acc (c ∷ s) = value_from (acc * 10 + (c - b'0')) s

abbrev pub strip_plus : Text → Text
strip_plus [] = []
strip_plus (c ∷ s) = if c =? b'+' then s else c ∷ s

-- `parse` of digits alone: at least one, and no overflow past `max`.
unfoldable pub parse_digits : ℕ → Text → Option ℕ
unfolding value_from
parse_digits max [] = none
parse_digits max (c ∷ s) =
    if all is_digit (c ∷ s) && leb (value_from 0 (c ∷ s)) max
    then some (value_from 0 (c ∷ s))
    else none

-- `str::parse` of an unsigned integer, whose largest value is `max`: a leading plus is taken.
unfoldable pub parse_uint : ℕ → Text → Option ℕ
unfolding parse_digits
parse_uint max s = parse_digits max (strip_plus s)

value_from-append :
    (acc : ℕ) (s t : Text) → value_from acc (s ++ t) ≡ value_from (value_from acc s) t
unfolding value_from
value_from-append acc [] t = refl
value_from-append acc (c ∷ s) t = value_from-append (acc * 10 + (c - b'0')) s t

pub all-append {ℓ} :
    {A : Type ℓ} (p : A → Bool) (xs ys : List A) → all p (xs ++ ys) ≡ (all p xs && all p ys)
all-append p [] ys = refl
all-append p (x ∷ xs) ys = ground (arith, all-append p xs ys)

value_from-last : (acc d : ℕ) → value_from acc ((b'0' + d) ∷ []) ≡ acc * 10 + d
unfolding value_from
value_from-last acc d = omega arith

digits_from-value : (fuel n : ℕ) → n < fuel → value_from 0 (digits_from fuel n) ≡ n
unfolding digits_from
digits_from-value zero n h = elim h [ ]
digits_from-value (suc fuel) n h = elim (Bool-cases (ltb n 10)) [
  | inl small ↦ rw (small, if◌then◌else◌) (value_from-last 0 n ∙ omega arith)
  | inr big ↦
      let less : n / 10 < fuel = ground arith in
      rw (big, if◌then◌else◌, value_from-append)
        (value_from-last (value_from 0 (digits_from fuel (n / 10))) (n % 10)
          ∙ omega (arith, digits_from-value fuel (n / 10) less))
]

digit-lem : (d : ℕ) → d < 10 → is_digit (b'0' + d) ≡ true
digit-lem d h = ground arith

digits_from-all : (fuel n : ℕ) → all is_digit (digits_from fuel n) ≡ true
unfolding digits_from
digits_from-all zero n = refl
digits_from-all (suc fuel) n = elim (Bool-cases (ltb n 10)) [
  | inl small ↦ rw (small, if◌then◌else◌) (ground (arith, digit-lem n))
  | inr big ↦
      rw (big, if◌then◌else◌, all-append)
        (ground (arith, digits_from-all fuel (n / 10), digit-lem (n % 10)))
]

-- The digits of a number are digits, and there is at least one.
pub show-all : (n : ℕ) → all is_digit (show n) ≡ true
unfolding show
show-all n = digits_from-all (suc n) n

pub value-show : (n : ℕ) → value_from 0 (show n) ≡ n
unfolding show
value-show n = digits_from-value (suc n) n (omega arith)

pub show-cons : (n : ℕ) → (c : ℕ) × (s : Text) × (show n ≡ c ∷ s)
unfolding show
show-cons n = elim (Bool-cases (ltb n 10)) [
  | inl small ↦ (b'0' + n, [], rw small refl)
  | inr big ↦ first (digits_from n (n / 10)) (n % 10) (rw big refl)
]
  where
    first :
        (s : Text) (d : ℕ) → show n ≡ s ++ (b'0' + d) ∷ [] → (c : ℕ) × (t : Text) × (show n ≡ c ∷ t)
    first [] d e = (b'0' + d, [], e)
    first (c ∷ t) d e = (c, t ++ (b'0' + d) ∷ [], e)

strip_plus-digit : (c : ℕ) (s : Text) → all is_digit (c ∷ s) ≡ true → strip_plus (c ∷ s) ≡ c ∷ s
strip_plus-digit c s d = ground arith

-- Digits whose value fits are read as that value.
pub parse_uint_of_digits :
    (max c : ℕ) (s : Text) (n : ℕ)
    → n ≤ max
    → all is_digit (c ∷ s) ≡ true
    → value_from 0 (c ∷ s) ≡ n
    → parse_uint max (c ∷ s) ≡ some n
unfolding parse_uint
parse_uint_of_digits max c s n h d v =
    rw (strip_plus-digit c s d) (rw (d, v) (rw (le→leb _ _ h) refl))

-- A number that fits is read back from its digits.
pub parse_uint-show : (max n : ℕ) → n ≤ max → parse_uint max (show n) ≡ some n
parse_uint-show max n h =
    let (c, s, e) = show-cons n in
    rw e (
      parse_uint_of_digits max c s n h (subst (λ t. all is_digit t ≡ true) e (show-all n))
        (subst (λ t. value_from 0 t ≡ n) e (value-show n)))

-- A number that is read fits.
pub parse_uint-most : (max : ℕ) (s : Text) (n : ℕ) → parse_uint max s ≡ some n → n ≤ max
unfolding parse_uint
parse_uint-most max s n h = most (strip_plus s) h
  where
    most : (t : Text) → parse_digits max t ≡ some n → n ≤ max
    most [] h = unfold parse_digits in ground arith
    most (c ∷ t) h = unfold parse_digits in ground arith
