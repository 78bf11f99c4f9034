-- ===== src/Connector/Requests/Readable.antt =====
-- The names that `readable` of crates/connector/src/requests.rs makes are taken by `plain`.
use remotehub.Base.{
  ℕ, zero, suc, true, false, [], ◌∷◌, map, if◌then◌else◌, ◌≤◌, any, length, arith, ◌≡◌, refl,
  Bool-cases, inl, inr,
}
use remotehub.Base.Text.{Text, trim}
use remotehub.Connector.Requests.Defs.{is_odd, plain, take, replacement, or_replacement, readable}

abbrev shown : ℕ → ℕ
shown c = if is_odd c then replacement else c

shown-lem : (c : ℕ) → is_odd (shown c) ≡ false
shown-lem c = elim (Bool-cases (is_odd c)) [
  | inl y ↦ rw (y, if◌then◌else◌) refl
  | inr n ↦ rw (n, if◌then◌else◌) n
]

any-take-shown : (n : ℕ) (s : Text) → any is_odd (take n (map shown s)) ≡ false
any-take-shown zero s = refl
any-take-shown (suc n) [] = refl
any-take-shown (suc n) (c ∷ s) = rw (shown-lem c) (any-take-shown n s)

length-take : (n : ℕ) (s : Text) → length (take n s) ≤ n
length-take zero s = omega arith
length-take (suc n) [] = omega arith
length-take (suc n) (c ∷ s) = omega (arith, length-take n s)

plain-or_replacement :
    (s : Text) (longest : ℕ)
    → 1 ≤ longest
    → length s ≤ longest
    → any is_odd s ≡ false
    → plain (or_replacement s) longest ≡ true
unfolding plain
plain-or_replacement [] longest h l o = ground arith
plain-or_replacement (c ∷ s) longest h l o = rw o (ground arith)

-- Whatever the text is, what is made of it is plain, if at least one character may be.
pub plain-readable :
    (s : Text) (longest : ℕ) → 1 ≤ longest → plain (readable s longest) longest ≡ true
unfolding readable
plain-readable s longest h =
    let cut = take longest (map shown (trim s)) in
    plain-or_replacement cut longest h (length-take longest (map shown (trim s)))
      (any-take-shown longest (trim s))
