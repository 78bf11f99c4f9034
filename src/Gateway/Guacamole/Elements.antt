-- ===== src/Gateway/Guacamole/Elements.antt =====
-- One element of an instruction, read from its bytes (`scan` of crates/gateway/src/guacamole.rs).
use mathlib.Core.List.{append_assoc}
use remotehub.Base.{
  ℕ, zero, suc, ◌+◌, ◌*◌, ◌/◌, ◌≤◌, ◌<◌, true, some, List, [], ◌∷◌, ◌++◌, arith, ◌≡◌, refl, ap, ◌∙◌,
  if◌then◌else◌, ltb, all, length, length-append, Bool-cases, inl, inr,
}
use remotehub.Base.Text.{Text, is_digit}
use remotehub.Base.Decimal.{show, digits_from, show-all, show-cons, parse_uint, parse_uint-show}
use remotehub.Base.Utf8.{to_utf8, encode_char, is_char}
use remotehub.Gateway.Guacamole.Defs.{
  digits, drop, take, at_place, skip_chars, read_length, element, read_element,
}

pub drop-append {ℓ} : {A : Type ℓ} (xs ys : List A) → drop (length xs) (xs ++ ys) ≡ ys
drop-append [] ys = refl
drop-append (x ∷ xs) ys = drop-append xs ys

pub take-append {ℓ} : {A : Type ℓ} (xs ys : List A) → take (length xs) (xs ++ ys) ≡ xs
take-append [] ys = refl
take-append (x ∷ xs) ys = ap (λ r. x ∷ r) (take-append xs ys)

digits-append : (d : List ℕ) (r : List ℕ) → all is_digit d ≡ true → digits (d ++ b'.' ∷ r) ≡ d
digits-append [] r h = refl
digits-append (b ∷ d) r h = ground (arith, digits-append d r)

pub to_utf8-digits : (d : Text) → all is_digit d ≡ true → to_utf8 d ≡ d
unfolding to_utf8
to_utf8-digits [] h = refl
to_utf8-digits (c ∷ d) h = ground (arith, to_utf8-digits d)

-- 10 to the power of the count and one.
abbrev power : ℕ → ℕ
power zero = 10
power (suc k) = power k * 10

digits_from-length : (fuel n k : ℕ) → n < power k → length (digits_from fuel n) ≤ suc k
unfolding digits_from
digits_from-length zero n k h = omega arith
digits_from-length (suc fuel) n zero h = ground arith
digits_from-length (suc fuel) n (suc k) h = elim (Bool-cases (ltb n 10)) [
  | inl y ↦ rw (y, if◌then◌else◌) (omega arith)
  | inr m ↦
      rw (m, if◌then◌else◌, length-append)
        (omega (arith, digits_from-length fuel (n / 10) k (omega arith)))
]

-- A number below 100000 has at most five digits.
show-length : (n : ℕ) → n < 100_000 → length (show n) ≤ 5
unfolding show
show-length n h = digits_from-length (suc n) n 4 h

skip_char :
    (m c : ℕ) (s : List ℕ) (at : ℕ)
    → is_char c ≡ true
    → skip_chars (suc m) (encode_char c ++ s) at ≡ skip_chars m s (at + length (encode_char c))
unfolding skip_chars
skip_char m c s at h = elim (Bool-cases (ltb c 0x80)) [
  | inl y ↦ ground arith
  | inr n ↦ elim (Bool-cases (ltb c 0x800)) [ inl y ↦ ground arith | inr n ↦ ground arith ]
]

skip_chars-to_utf8 :
    (v : Text) (s : List ℕ) (at : ℕ)
    → all is_char v ≡ true
    → skip_chars (length v) (to_utf8 v ++ s) at ≡ at_place s (at + length (to_utf8 v))
unfolding to_utf8
skip_chars-to_utf8 [] s at h = unfold skip_chars in ap (at_place s) (omega arith)
skip_chars-to_utf8 (c ∷ v) s at h = rw (append_assoc (encode_char c) (to_utf8 v) s) (
    skip_char (length v) c (to_utf8 v ++ s) at (ground arith)
    ∙ (skip_chars-to_utf8 v s (at + length (encode_char c)) (ground arith)
        ∙ ap (at_place s) (omega (arith, length-append (encode_char c) (to_utf8 v)))))

read_length-digits :
    (d : List ℕ) (n : ℕ) (s : List ℕ) (at : ℕ)
    → all is_digit d ≡ true
    → 1 ≤ length d
    → length d ≤ 5
    → parse_uint 0xffff_ffff_ffff_ffff d ≡ some n
    → read_length (d ++ b'.' ∷ s) at ≡ (some n, at_place s (at + (length d + 1)))
unfolding read_length
read_length-digits d n s at h least most p =
    rw (digits-append d s h, drop-append d (b'.' ∷ s)) (ground (arith, p))

some_digits : (n : ℕ) → 1 ≤ length (show n)
some_digits n = let (c, s, e) = show-cons n in rw e (omega arith)

pub read_element-show :
    (v : Text) (at separator : ℕ) (s : List ℕ)
    → length v < 100_000
    → all is_char v ≡ true
    → let start = at + (length (show (length v)) + 1) in
      read_element (show (length v) ++ b'.' ∷ (to_utf8 v ++ separator ∷ s)) at
      ≡ element start (start + length (to_utf8 v)) separator s
unfolding read_element
read_element-show v at separator s h c =
    let n = length v in
    rw
      (
        read_length-digits (show n) n (to_utf8 v ++ separator ∷ s) at (show-all n) (some_digits n)
            (show-length n h) (parse_uint-show 0xffff_ffff_ffff_ffff n (omega arith)),
        skip_chars-to_utf8 v (separator ∷ s) (at + (length (show n) + 1)) c,
      )
      refl
