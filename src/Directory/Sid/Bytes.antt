-- ===== src/Directory/Sid/Bytes.antt =====
-- The authority and the sub-authorities as bytes (crates/directory/src/sid.rs).
use remotehub.Base.{
  ℕ, zero, suc, ◌+◌, ◌*◌, ◌/◌, ◌%◌, ◌<◌, Bool, true, List, [], ◌∷◌, ◌++◌, leb, all, length, arith,
  ◌≡◌, refl, ap, ◌∙◌,
}
use remotehub.Base.Text.{text_eq}
use remotehub.Directory.Sid.{max_u32, big_endian, sub_authorities, be_bytes, le_bytes, push_le}

abbrev pub is_byte : ℕ → Bool
is_byte b = leb b 255

pub be_step : (x b : ℕ) → b < 256 → ((x * 256 + b) / 256 ≡ x) × ((x * 256 + b) % 256 ≡ b)
be_step x b h = (omega arith, omega arith)

pub authority_bytes :
    (a b c d e f : ℕ)
    → a < 256
    → b < 256
    → c < 256
    → d < 256
    → e < 256
    → f < 256
    → be_bytes (big_endian 0 (a ∷ b ∷ c ∷ d ∷ e ∷ f ∷ [])) ≡ a ∷ b ∷ c ∷ d ∷ e ∷ f ∷ []
unfolding big_endian
authority_bytes a b c d e f p q r s t u =
    let v1 : ℕ = 0 * 256 + a in
    let v2 : ℕ = v1 * 256 + b in
    let v3 : ℕ = v2 * 256 + c in
    let v4 : ℕ = v3 * 256 + d in
    let v5 : ℕ = v4 * 256 + e in
    let (fd, fm) = be_step v5 f u in
    let (ed, em) = be_step v4 e t in
    let (dd, dm) = be_step v3 d s in
    let (cd, cm) = be_step v2 c r in
    let (bd, bm) = be_step v1 b q in
    let am : v1 % 256 ≡ a = omega arith in rw (fm, fd, em, ed, dm, dd, cm, cd, bm, bd, am) refl

pub sub_authorities-small :
    (bytes : List ℕ)
    → all is_byte bytes ≡ true
    → all (λ s. leb s max_u32) (sub_authorities bytes) ≡ true
unfolding sub_authorities
sub_authorities-small (a ∷ (b ∷ (c ∷ (d ∷ rest)))) h = ground (arith, h, sub_authorities-small rest)
sub_authorities-small other h = refl

pub sub_bytes :
    (a b c d : ℕ)
    → a < 256
    → b < 256
    → c < 256
    → d < 256
    → le_bytes (a + 256 * (b + 256 * (c + 256 * d))) ≡ a ∷ b ∷ c ∷ d ∷ []
sub_bytes a b c d p q r s =
    let v : ℕ = c + 256 * d in
    let w : ℕ = b + 256 * v in
    let (wd, wm) = le_step a w p in
    let (vd, vm) = le_step b v q in
    let (dd, cm) = le_step c d r in
    let dm : d % 256 ≡ d = omega arith in rw (wm, wd, vm, vd, cm, dd, dm) refl
  where
    le_step :
        (x rest : ℕ) → x < 256 → ((x + 256 * rest) / 256 ≡ rest) × ((x + 256 * rest) % 256 ≡ x)
    le_step x rest h = (omega arith, omega arith)

pub push_le-subs :
    (n : ℕ) (bytes : List ℕ)
    → all is_byte bytes ≡ true
    → length bytes ≡ 4 * n
    → (push_le (sub_authorities bytes) ≡ bytes) × (length (sub_authorities bytes) ≡ n)
unfolding push_le sub_authorities
push_le-subs n [] h l = (refl, omega (arith, l))
push_le-subs n (a ∷ []) h l = ground (arith, l)
push_le-subs n (a ∷ (b ∷ [])) h l = ground (arith, l)
push_le-subs n (a ∷ (b ∷ (c ∷ []))) h l = ground (arith, l)
push_le-subs zero (a ∷ (b ∷ (c ∷ (d ∷ rest)))) h l = ground (arith, l)
push_le-subs (suc n) (a ∷ (b ∷ (c ∷ (d ∷ rest)))) h l =
    let (same, size) = push_le-subs n rest (ground (arith, h)) (omega (arith, l)) in
    (
      ap (λ xs. xs ++ push_le (sub_authorities rest))
            (sub_bytes a b c d (ground (arith, h)) (ground (arith, h)) (ground (arith, h))
              (ground (arith, h)))
          ∙ ap (λ t. a ∷ b ∷ c ∷ d ∷ t) same,
      omega (arith, size),
    )

pub big_endian-small :
    (a b c d e f : ℕ)
    → a < 256
    → b < 256
    → c < 256
    → d < 256
    → e < 256
    → f < 256
    → big_endian 0 (a ∷ b ∷ c ∷ d ∷ e ∷ f ∷ []) < 281_474_976_710_656
unfolding big_endian
big_endian-small a b c d e f p q r s t u = omega arith
