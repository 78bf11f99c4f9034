-- ===== src/Totp/Truncation.antt =====
-- `code` and `Params::code_at` of crates/totp/src/lib.rs: what goes into the message authentication code and which bytes of
-- its digest make the value, as RFC 4226 tells it.
use remotehub.Base.{
  ℕ, zero, suc, ◌+◌, ◌*◌, ◌%◌, ◌^◌, ◌≤◌, true, some, List, [], ◌∷◌, ◌++◌, arith, ◌≡◌, refl, ap, ◌∙◌,
  ltb, all, length,
}
use remotehub.Totp.{to_be_bytes, last, skip, four, truncate}

-- The number that bytes are, the highest byte first.
abbrev pub big_endian : ℕ → List ℕ → ℕ
big_endian acc [] = acc
big_endian acc (b ∷ bs) = big_endian (acc * 256 + b) bs

-- Eight bytes, the highest first, that are the counter as a number of 64 bits.
pub IsCounter : ℕ → List ℕ → Type 0
IsCounter counter message =
    (length message ≡ 8)
    × (all (λ b. ltb b 256) message ≡ true)
    × (big_endian 0 message ≡ counter % 2 ^ 64)

pub to_be_bytes-IsCounter : (n : ℕ) → IsCounter n (to_be_bytes 8 n)
unfolding IsCounter
to_be_bytes-IsCounter n = (refl, ground arith, omega arith)

-- The lowest four bits of the last byte say where four bytes begin, and the value is those four, the
-- highest first, with 7 bits of the first.
pub IsTruncated : List ℕ → ℕ → Type 0
IsTruncated digest value =
    (most : List ℕ) × (l : ℕ) × (front : List ℕ) × (a : ℕ) × (b : ℕ) × (c : ℕ) × (d : ℕ)
    × (back : List ℕ) × (digest ≡ most ++ (l ∷ []))
    × (digest ≡ front ++ (a ∷ b ∷ c ∷ d ∷ back))
    × (length front ≡ l % 2 ^ 4)
    × (value ≡ a % 2 ^ 7 * 2 ^ 24 + b * 2 ^ 16 + c * 2 ^ 8 + d)

last-most :
    (b : ℕ) (bs : List ℕ)
    → (most : List ℕ) × (l : ℕ) × (b ∷ bs ≡ most ++ (l ∷ [])) × (last (b ∷ bs) ≡ some l)
last-most b [] = ([], b, refl, refl)
last-most b (c ∷ bs) = let (most, l, e, f) = last-most c bs in (b ∷ most, l, ap (λ xs. b ∷ xs) e, f)

skip-front :
    (n : ℕ) (bs : List ℕ)
    → n ≤ length bs
    → (front : List ℕ) × (bs ≡ front ++ skip n bs)
      × (length front ≡ n)
      × (length bs ≡ n + length (skip n bs))
skip-front zero bs h = ([], refl, refl, omega arith)
skip-front (suc n) [] h = absurd (omega arith)
skip-front (suc n) (b ∷ bs) h =
    let (front, e, f, g) = skip-front n bs (omega arith) in
    (b ∷ front, ap (λ xs. b ∷ xs) e, omega arith, omega arith)

four-bytes :
    (bs : List ℕ)
    → 4 ≤ length bs
    → (a : ℕ) × (b : ℕ) × (c : ℕ) × (d : ℕ) × (back : List ℕ) × (bs ≡ a ∷ b ∷ c ∷ d ∷ back)
      × (four bs ≡ some (((a % 128 * 256 + b) * 256 + c) * 256 + d))
unfolding four
four-bytes [] h = absurd (omega arith)
four-bytes (a ∷ []) h = absurd (omega arith)
four-bytes (a ∷ (b ∷ [])) h = absurd (omega arith)
four-bytes (a ∷ (b ∷ (c ∷ []))) h = absurd (omega arith)
four-bytes (a ∷ (b ∷ (c ∷ (d ∷ bs)))) h = (a, b, c, d, bs, refl, refl)

-- The offset is at most 15, and four bytes from there are within 20.
pub truncate-IsTruncated :
    (digest : List ℕ)
    → 20 ≤ length digest
    → (v : ℕ) × (truncate digest ≡ some v) × IsTruncated digest v
unfolding truncate IsTruncated
truncate-IsTruncated [] h = absurd (omega arith)
truncate-IsTruncated (x ∷ bs) h =
    let (most, l, e, is_last) = last-most x bs in
    let (front, split, at, longer) = skip-front (l % 16) (x ∷ bs) (omega arith) in
    let (a, b, c, d, back, here, value) = four-bytes (skip (l % 16) (x ∷ bs)) (omega arith) in
    (
      ((a % 128 * 256 + b) * 256 + c) * 256 + d,
      rw is_last value,
      (most, l, front, a, b, c, d, back, e, split ∙ ap (λ xs. front ++ xs) here, at, omega arith),
    )
