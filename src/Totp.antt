-- ===== src/Totp.antt =====
-- crates/totp/src/lib.rs: codes of one-time passwords. The message authentication code of the crates
-- `hmac`, `sha1` and `sha2` is a parameter: of a hash function, a key and a message. Where the code
-- would panic, a definition here is `none`.
pub mod Truncation
pub mod Code
pub mod Window
pub mod Link
pub mod Bounds
pub mod RoundTrip
mod Tests
use remotehub.Base.{
  ℕ, zero, suc, ◌+◌, ◌-◌, ◌*◌, ◌/◌, ◌%◌, ◌^◌, Bool, ◌&&◌, Option, none, some, List, [], ◌∷◌, ◌++◌,
  if◌then◌else◌, ◌=?◌, length,
}
use remotehub.Base.Bits.{bit_or, bit_xor}
use remotehub.Base.Text.{Text}
use remotehub.Base.Decimal.{show}

-- `PERIOD`, `DIGITS` and `SECRET_BYTES`.
abbrev pub code_period : ℕ
code_period = 30

abbrev pub code_digits : ℕ
code_digits = 6

abbrev pub secret_bytes : ℕ
secret_bytes = 20

pub data Algorithm : Type 0 where
  sha1 : Algorithm
  sha256 : Algorithm
  sha512 : Algorithm

pub record Params : Type 0 where
  pub secret : List ℕ
  pub algorithm : Algorithm
  pub digits : ℕ
  pub period : ℕ

-- `to_be_bytes`, of a number of that many bytes.
abbrev pub to_be_bytes : ℕ → ℕ → List ℕ
to_be_bytes zero n = []
to_be_bytes (suc k) n = (n / 256 ^ k % 256) ∷ to_be_bytes k n

abbrev pub last : List ℕ → Option ℕ
last [] = none
last (b ∷ []) = some b
last (b ∷ bs) = last bs

abbrev pub skip : ℕ → List ℕ → List ℕ
skip zero bs = bs
skip (suc n) [] = []
skip (suc n) (b ∷ bs) = skip n bs

-- The four bytes from an offset, without the highest bit.
unfoldable pub four : List ℕ → Option ℕ
four (a ∷ (b ∷ (c ∷ (d ∷ rest)))) = some (((a % 128 * 256 + b) * 256 + c) * 256 + d)
four few = none

abbrev pub from_offset : List ℕ → Option ℕ → Option ℕ
from_offset digest none = none
from_offset digest (some b) = four (skip (b % 16) digest)

unfoldable pub truncate : List ℕ → Option ℕ
unfolding four
truncate digest = from_offset digest (last digest)

abbrev pub zeros : ℕ → Text
zeros zero = []
zeros (suc n) = b'0' ∷ zeros n

-- `{value:0width$}`
unfoldable pub zero_padded : ℕ → ℕ → Text
zero_padded width value = zeros (width - length (show value)) ++ show value

-- The remainder by `10u32.pow(digits)`.
abbrev pub reduced : ℕ → ℕ → Option Text
reduced digits value =
    let modulus = 10 ^ digits % 2 ^ 32 in
    if modulus =? 0 then none else some (zero_padded digits (value % modulus))

abbrev pub written : ℕ → Option ℕ → Option Text
written digits none = none
written digits (some value) = reduced digits value

unfoldable pub code_of : ℕ → List ℕ → Option Text
unfolding truncate
code_of digits digest = written digits (truncate digest)

-- The comparison in constant time, of the bytes.
abbrev pub differences : ℕ → List ℕ → List ℕ → ℕ
differences acc (a ∷ es) (b ∷ bs) = differences (bit_or acc (bit_xor a b)) es bs
differences acc _ _ = acc

unfoldable pub same_code : List ℕ → List ℕ → Bool
same_code expected given = (length expected =? length given) && (differences 0 expected given =? 0)

abbrev pub holding : ℕ → Option Text → Option (Text × ℕ)
holding left none = none
holding left (some c) = some (c, left)

module _ (mac : Algorithm → List ℕ → List ℕ → List ℕ) where
  abbrev pub hmac : Algorithm → List ℕ → ℕ → List ℕ
  hmac algorithm key step = mac algorithm key (to_be_bytes 8 step)

  unfoldable pub code : List ℕ → ℕ → Option Text
  unfolding code_of
  code secret step = code_of code_digits (hmac sha1 secret step)

  abbrev pub match_or : ℕ → List ℕ → Option Text → Option (Option ℕ) → Option (Option ℕ)
  match_or step given none rest = none
  match_or step given (some expected) rest =
      if same_code expected given then some (some step) else rest

  unfoldable pub find_step : List ℕ → List ℕ → List ℕ → Option (Option ℕ)
  unfolding code same_code
  find_step secret given [] = some none
  find_step secret given (s ∷ ss) = match_or s given (code secret s) (find_step secret given ss)

  -- The outer option is the panic, the inner one the answer.
  unfoldable pub step : List ℕ → List ℕ → ℕ → Option (Option ℕ)
  unfolding find_step
  step secret given unix_seconds =
      let now = unix_seconds / code_period in
      find_step secret given (now ∷ (now - 1) ∷ (now + 1) ∷ [])

  unfoldable pub code_at : Params → ℕ → Option (Text × ℕ)
  unfolding code_of
  code_at params unix_seconds =
      if params.period =? 0
      then none
      else holding (params.period - unix_seconds % params.period) (
          code_of params.digits
            (hmac params.algorithm params.secret (unix_seconds / params.period)))
