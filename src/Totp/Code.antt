-- ===== src/Totp/Code.antt =====
-- What a code looks like, for a message authentication code of at least 20 bytes, as SHA-1 and the
-- longer hash functions give.
use remotehub.Base.{
  ℕ, zero, suc, ◌+◌, ◌-◌, ◌*◌, ◌/◌, ◌%◌, ◌^◌, ◌≤◌, ◌<◌, true, false, Option, some, List, [], ◌∷◌,
  ◌++◌, inl, inr, arith, ◌≡◌, refl, ◌∙◌, if◌then◌else◌, ltb, ◌=?◌, all, length, length-append,
  Bool-cases,
}
use remotehub.Base.Text.{Text, is_digit}
use remotehub.Base.Decimal.{show, digits_from, show-all, value-show, value_from, all-append}
use remotehub.Totp.Truncation.{IsCounter, IsTruncated, to_be_bytes-IsCounter, truncate-IsTruncated}
use remotehub.Totp.{
  Algorithm, Params, to_be_bytes, zeros, zero_padded, reduced, code_of, hmac, code, code_at,
}

length-zeros : (n : ℕ) → length (zeros n) ≡ n
length-zeros zero = refl
length-zeros (suc n) = omega (arith, length-zeros n)

zeros-all : (n : ℕ) → all is_digit (zeros n) ≡ true
zeros-all zero = refl
zeros-all (suc n) = zeros-all n

value-zeros : (n : ℕ) (s : Text) → value_from 0 (zeros n ++ s) ≡ value_from 0 s
unfolding value_from
value-zeros zero s = refl
value-zeros (suc n) s = value-zeros n s

ten_times : (k : ℕ) → 10 ^ suc k ≡ 10 * 10 ^ k
ten_times k = grind arith

tenth : (n m : ℕ) → n < 10 * m → n / 10 < m
tenth n m h = omega arith

length-digits_from : (fuel n k : ℕ) → n < 10 ^ suc k → length (digits_from fuel n) ≤ suc k
unfolding digits_from
length-digits_from zero n k h = omega arith
length-digits_from (suc fuel) n zero h = ground arith
length-digits_from (suc fuel) n (suc k) h = elim (Bool-cases (ltb n 10)) [
  | inl small ↦ rw (small, if◌then◌else◌) (omega arith)
  | inr big ↦
      rw (big, if◌then◌else◌)
        (omega (
          arith,
          length-append (digits_from fuel (n / 10)) ((b'0' + n % 10) ∷ []),
          length-digits_from fuel (n / 10) k
              (tenth n (10 ^ suc k) (omega (arith, ten_times (suc k)))),
        ))
]

length-show : (n k : ℕ) → n < 10 ^ suc k → length (show n) ≤ suc k
unfolding show
length-show n k h = length-digits_from (suc n) n k h

-- The written number has the width it is to have, of digits alone, and is read as the number.
pub IsCode : ℕ → ℕ → Text → Type 0
IsCode digits value c = (length c ≡ digits) × (all is_digit c ≡ true) × (value_from 0 c ≡ value)

zero_padded-IsCode :
    (k value : ℕ) → value < 10 ^ suc k → IsCode (suc k) value (zero_padded (suc k) value)
unfolding zero_padded IsCode
zero_padded-IsCode k value h = (
  omega (
    arith,
    length-append (zeros (suc k - length (show value))) (show value),
    length-zeros (suc k - length (show value)),
    length-show value k h,
  ),
  rw (all-append, zeros-all (suc k - length (show value)), show-all value) refl,
  value-zeros (suc k - length (show value)) (show value) ∙ value-show value,
)

pow_fits : (k : ℕ) → k < 9 → 10 ^ suc k % 2 ^ 32 ≡ 10 ^ suc k
pow_fits zero h = refl
pow_fits (suc zero) h = refl
pow_fits (suc (suc zero)) h = refl
pow_fits (suc (suc (suc zero))) h = refl
pow_fits (suc (suc (suc (suc zero)))) h = refl
pow_fits (suc (suc (suc (suc (suc zero))))) h = refl
pow_fits (suc (suc (suc (suc (suc (suc zero)))))) h = refl
pow_fits (suc (suc (suc (suc (suc (suc (suc zero))))))) h = refl
pow_fits (suc (suc (suc (suc (suc (suc (suc (suc zero)))))))) h = refl
pow_fits (suc (suc (suc (suc (suc (suc (suc (suc (suc k))))))))) h = absurd (omega arith)

modulus-positive : (k : ℕ) → k < 9 → (10 ^ suc k =? 0) ≡ false
modulus-positive k h = ground (arith, positive k)
  where
    positive : (k : ℕ) → 0 < 10 ^ k
    positive zero = omega arith
    positive (suc k) = omega (arith, positive k, ten_times k)

remainder_below : (v m : ℕ) → (m =? 0) ≡ false → v % m < m
remainder_below v m h = grind arith

reduced-some : (k v : ℕ) → k < 9 → reduced (suc k) v ≡ some (zero_padded (suc k) (v % 10 ^ suc k))
reduced-some k v h = rw (pow_fits k h, modulus-positive k h) refl

-- Digests of 20 bytes give a code of one to nine digits.
pub HasCode : ℕ → List ℕ → Option Text → Type 0
HasCode digits digest o =
    (v : ℕ) × (c : Text) × IsTruncated digest v × (o ≡ some c) × IsCode digits (v % 10 ^ digits) c

pub code_of-HasCode :
    (k : ℕ) (digest : List ℕ)
    → k < 9
    → 20 ≤ length digest
    → HasCode (suc k) digest (code_of (suc k) digest)
unfolding code_of HasCode
code_of-HasCode k digest small long =
    let (v, e, from_digest) = truncate-IsTruncated digest long in
    (
      v,
      zero_padded (suc k) (v % 10 ^ suc k),
      from_digest,
      rw e (reduced-some k v small),
      zero_padded-IsCode k (v % 10 ^ suc k)
          (remainder_below v (10 ^ suc k) (modulus-positive k small)),
    )

code_of_few :
    (d : ℕ) (digest : List ℕ)
    → 1 ≤ d
    → d ≤ 9
    → 20 ≤ length digest
    → HasCode d digest (code_of d digest)
code_of_few zero digest h few long = absurd (omega arith)
code_of_few (suc k) digest h few long = code_of-HasCode k digest (omega arith) long

-- Of a code and the seconds that it is said to hold for, at a time: the code is made for the counter of
-- the time's step, and the seconds are those up to the first time of the next step.
pub HoldsCode : ℕ → ℕ → ℕ → (List ℕ → List ℕ) → Option (Text × ℕ) → Type 0
HoldsCode digits period t mac o =
    (message : List ℕ) × (v : ℕ) × (c : Text) × (left : ℕ) × IsCounter (t / period) message
    × IsTruncated (mac message) v
    × (o ≡ some (c, left))
    × IsCode digits (v % 10 ^ digits) c
    × (1 ≤ left)
    × (left ≤ period)
    × (t + left ≡ suc (t / period) * period)

next_step : (t p : ℕ) → (p =? 0) ≡ false → t + (p - t % p) ≡ suc (t / p) * p
next_step t p h = grind arith

module _ (mac : Algorithm → List ℕ → List ℕ → List ℕ)
    (long : (a : Algorithm) (key message : List ℕ) → 20 ≤ length (mac a key message)) where
  pub code-some : (secret : List ℕ) (step : ℕ) → (c : Text) × (code mac secret step ≡ some c)
  unfolding code HasCode
  code-some secret step =
      let (v, c, e, p, q) =
        code_of-HasCode 5 (hmac mac Algorithm.sha1 secret step) (omega arith) (long _ _ _) in
      (c, p)

  -- The code at a time, when the period is not zero and the digits are one to nine, has its number of
  -- digits, and read as a number it is the remainder, by ten to that power, of the 31 bits that the last
  -- byte points at in the digest of the time's step, as eight bytes, the highest first. It is told
  -- with the exact number of seconds, from one to the period, up to the first time of the next step.
  pub code_at-HoldsCode :
      (params : Params) (t : ℕ)
      → 1 ≤ params.digits
      → params.digits ≤ 9
      → 1 ≤ params.period
      → HoldsCode params.digits params.period t
          (mac params.algorithm params.secret)
          (code_at mac params t)
  unfolding code_at HasCode HoldsCode
  code_at-HoldsCode params t some_digits few_digits some_period =
      let step = t / params.period in
      let digest = hmac mac params.algorithm params.secret step in
      let (v, c, e, p, q) = code_of_few params.digits digest some_digits few_digits (long _ _ _) in
      let period_not_zero : (params.period =? 0) ≡ false = ground arith in
      let within_period : t % params.period < params.period =
        remainder_below t params.period period_not_zero in
      (
        to_be_bytes 8 step,
        v,
        c,
        params.period - t % params.period,
        to_be_bytes-IsCounter step,
        e,
        rw (period_not_zero, if◌then◌else◌, p) refl,
        q,
        omega arith,
        omega arith,
        next_step t params.period period_not_zero,
      )
