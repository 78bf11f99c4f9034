-- ===== src/Totp/Bounds.antt =====
-- What a link or a secret that is read has: its digits, its period and the length of its secret.
use remotehub.Base.{
  ℕ, ◌≤◌, true, false, Option, none, some, List, [], ◌∷◌, ◌⊎◌, inl, inr, arith, ◌≡◌, refl, subst,
  ◌=?◌, if◌then◌else◌, leb, is_empty, filter, length, map, Bool-cases,
}
use remotehub.Base.Text.{Text, text_eq, trim, within, split_by, split_once}
use remotehub.Base.Utf8.{to_utf8}
use remotehub.Base.Decimal.{parse_uint}
use remotehub.Directory.Sid.{max_u32, max_u64}
use remotehub.Totp.{Params}
use remotehub.Totp.Link.{
  min_secret_bytes, totp_prefix, is_secret_char, to_ascii_uppercase, algorithm_named,
  strip_prefix_ignore_case, long_enough, in_range, with_secret, with_algorithm, with_digits,
  with_period, key_and_value, usual, usual_if, with_any_secret, lenient_base32, set_pair, set_pairs,
  of_query, of_link, parse,
}

-- 6 to 8 digits, a period of 1 to 300 seconds and a secret of at least 10 bytes.
pub IsParams : Params → Type 0
IsParams p =
    (6 ≤ p.digits)
    × (p.digits ≤ 8)
    × (1 ≤ p.period)
    × (p.period ≤ 300)
    × (min_secret_bytes ≤ length p.secret)

Fits : Params → Type 0
Fits p =
    (within 6 8 p.digits ≡ true)
    × (within 1 300 p.period ≡ true)
    × ((p.secret ≡ []) ⊎ (min_secret_bytes ≤ length p.secret))

FitsIf : Option Params → Type 0
FitsIf none = true ≡ true
FitsIf (some p) = Fits p

HasLength : Option (List ℕ) → Type 0
HasLength none = true ≡ true
HasLength (some bytes) = min_secret_bytes ≤ length bytes

InRange : ℕ → ℕ → Option ℕ → Type 0
InRange lo hi none = true ≡ true
InRange lo hi (some n) = within lo hi n ≡ true

pub is_empty_long : (bytes : List ℕ) → min_secret_bytes ≤ length bytes → is_empty bytes ≡ false
is_empty_long [] h = absurd (omega arith)
is_empty_long (b ∷ bytes) h = refl

long_enough-HasLength : (o : Option (List ℕ)) → HasLength (long_enough o)
unfolding HasLength
long_enough-HasLength none = refl
long_enough-HasLength (some bytes) = elim (Bool-cases (leb min_secret_bytes (length bytes))) [
  | inl y ↦ rw (y, if◌then◌else◌) (ground arith)
  | inr n ↦ rw (n, if◌then◌else◌) refl
]

in_range-InRange : (lo hi : ℕ) (o : Option ℕ) → InRange lo hi (in_range lo hi o)
unfolding InRange
in_range-InRange lo hi none = refl
in_range-InRange lo hi (some n) = elim (Bool-cases (within lo hi n)) [
  | inl y ↦ rw (y, if◌then◌else◌) y
  | inr m ↦ rw (m, if◌then◌else◌) refl
]

module _ (p : Params) (h : Fits p) where
  with_secret-Fits : (o : Option (List ℕ)) → HasLength o → FitsIf (with_secret p o)
  unfolding FitsIf Fits HasLength
  with_secret-Fits none e = refl
  with_secret-Fits (some bytes) e = (h.0, h.1, inr e)

  with_algorithm-Fits : (name : Text) → FitsIf (with_algorithm p (algorithm_named name))
  unfolding FitsIf Fits algorithm_named
  with_algorithm-Fits name = ground (arith, h)

  with_digits-Fits : (o : Option ℕ) → InRange 6 8 o → FitsIf (with_digits p o)
  unfolding FitsIf Fits InRange
  with_digits-Fits none e = refl
  with_digits-Fits (some n) e = (e, h.1, h.2)

  with_period-Fits : (o : Option ℕ) → InRange 1 300 o → FitsIf (with_period p o)
  unfolding FitsIf Fits InRange
  with_period-Fits none e = refl
  with_period-Fits (some n) e = (h.0, e, h.2)

module _ (base32_decode : List ℕ → Option (List ℕ)) where
  lenient_base32-HasLength : (s : Text) → HasLength (lenient_base32 base32_decode s)
  unfolding lenient_base32
  lenient_base32-HasLength s =
      long_enough-HasLength
        (base32_decode (to_utf8 (map to_ascii_uppercase (filter is_secret_char s))))

  set_pair-Fits :
      (p : Params) (pair : Text × Text) → Fits p → FitsIf (set_pair base32_decode p pair)
  unfolding set_pair FitsIf
  set_pair-Fits p (key, value) h = ground (
    arith,
    with_secret-Fits p h (lenient_base32 base32_decode value) (lenient_base32-HasLength value),
    with_algorithm-Fits p h (map to_ascii_uppercase value),
    with_digits-Fits p h _ (in_range-InRange 6 8 (parse_uint max_u32 value)),
    with_period-Fits p h _ (in_range-InRange 1 300 (parse_uint max_u64 value)),
  )

  set_pairs-Fits :
      (o : Option Params) (pairs : List Text) → FitsIf o → FitsIf (set_pairs base32_decode o pairs)
  unfolding set_pairs FitsIf
  set_pairs-Fits none pairs h = refl
  set_pairs-Fits (some p) [] h = h
  set_pairs-Fits (some p) (pair ∷ pairs) h =
      set_pairs-Fits (set_pair base32_decode p (key_and_value pair (split_once b'=' pair))) pairs
        (set_pair-Fits p (key_and_value pair (split_once b'=' pair)) h)

  IsParamsIf : Option Params → Type 0
  IsParamsIf none = true ≡ true
  IsParamsIf (some p) = IsParams p

  with_any_secret-IsParams : (o : Option Params) → FitsIf o → IsParamsIf (with_any_secret o)
  unfolding IsParamsIf IsParams FitsIf Fits
  with_any_secret-IsParams none h = refl
  with_any_secret-IsParams (some p) (d, per, inl e) = rw e refl
  with_any_secret-IsParams (some p) (d, per, inr l) =
      let filled : is_empty p.secret ≡ false = is_empty_long p.secret l in
      rw (filled, if◌then◌else◌) (ground arith, ground arith, ground arith, ground arith, l)

  usual_if-IsParams : (o : Option (List ℕ)) → HasLength o → IsParamsIf (usual_if o)
  unfolding IsParamsIf IsParams HasLength
  usual_if-IsParams none h = refl
  usual_if-IsParams (some bytes) h = (omega arith, omega arith, omega arith, omega arith, h)

  of_query-IsParams : (o : Option (Text × Text)) → IsParamsIf (of_query base32_decode o)
  unfolding FitsIf IsParamsIf Fits
  of_query-IsParams none = refl
  of_query-IsParams (some (label, query)) =
      with_any_secret-IsParams _
        (set_pairs-Fits (some (usual [])) (split_by (λ c. c =? b'&') query) (refl, refl, inl refl))

  of_link-IsParams : (s : Text) (o : Option Text) → IsParamsIf (of_link base32_decode s o)
  of_link-IsParams s none = usual_if-IsParams _ (lenient_base32-HasLength s)
  of_link-IsParams s (some rest) = of_query-IsParams (split_once b'?' rest)

  -- What is read as a one-time password has 6 to 8 digits, a period of 1 to 300 seconds and a secret
  -- of at least 10 bytes.
  pub parse-IsParams : (s : Text) (p : Params) → parse base32_decode s ≡ some p → IsParams p
  unfolding parse IsParamsIf
  parse-IsParams s p e =
      subst IsParamsIf e (of_link-IsParams (trim s) (strip_prefix_ignore_case (trim s) totp_prefix))
