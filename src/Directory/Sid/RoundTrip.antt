-- ===== src/Directory/Sid/RoundTrip.antt =====
-- Security identifiers that are read from bytes are written as the same bytes (crates/directory/src/sid.rs).
use remotehub.Base.{
  ℕ, suc, ◌*◌, ◌%◌, ◌≤◌, ◌<◌, true, ◌&&◌, ◌||◌, not, none, some, List, [], ◌∷◌, ◌++◌, if◌then◌else◌,
  leb, ltb, ◌=?◌, all, length, arith, ◌≡◌, refl, ap, ◌∙◌,
}
use remotehub.Base.Text.{Text, text_eq}
use remotehub.Base.Decimal.{parse_uint-show}
use remotehub.Directory.Sid.{
  max_u32, max_u64, big_endian, sub_authorities, sid_text, of_rest, from_bytes, be_bytes, push_le,
  to_bytes, parse,
}
use remotehub.Directory.Sid.Parts.{all-is_sub, read_subs-show, split-sid}
use remotehub.Directory.Sid.Bytes.{
  authority_bytes, big_endian-small, is_byte, push_le-subs, sub_authorities-small,
}

of_text :
    (authority : ℕ) (subs : List ℕ)
    → authority ≤ max_u64
    → all (λ s. leb s max_u32) subs ≡ true
    → to_bytes (sid_text 1 authority subs)
      ≡ 1 ∷ (length subs % 256) ∷ (be_bytes authority ++ push_le subs)
unfolding to_bytes
of_text authority subs h k =
    rw (split-sid authority subs, read_subs-show subs k, parse_uint-show max_u64 authority h) refl

read_if :
    (revision count size : ℕ) (s sid : Text)
    → (if not (revision =? 1) || not (size =? 4 * count) then none else some s) ≡ some sid
    → (revision ≡ 1) × (size ≡ 4 * count) × (s ≡ sid)
read_if revision count size s sid h = ground (arith, h)

-- What is read from the bytes, as its parts.
parts_of :
    (revision count a b c d e f : ℕ) (subs : List ℕ) (sid : Text)
    → of_rest revision count (a ∷ b ∷ c ∷ d ∷ e ∷ f ∷ subs) ≡ some sid
    → (revision ≡ 1)
      × (length subs ≡ 4 * count)
      × (sid_text revision (big_endian 0 (a ∷ b ∷ c ∷ d ∷ e ∷ f ∷ [])) (sub_authorities subs) ≡ sid)
unfolding of_rest
parts_of revision count a b c d e f subs sid h = read_if revision count (length subs) _ sid h

all_step : (b : ℕ) (bs : List ℕ) → all is_byte (b ∷ bs) ≡ true → (b < 256) × (all is_byte bs ≡ true)
all_step b bs h = ground (arith, h)

parts_below :
    (r n a b c d e f : ℕ) (subs : List ℕ)
    → all is_byte (r ∷ n ∷ a ∷ b ∷ c ∷ d ∷ e ∷ f ∷ subs) ≡ true
    → (n < 256)
      × (a < 256)
      × (b < 256)
      × (c < 256)
      × (d < 256)
      × (e < 256)
      × (f < 256)
      × (all is_byte subs ≡ true)
parts_below r n a b c d e f subs h =
    let (_, hn) = all_step r (n ∷ a ∷ b ∷ c ∷ d ∷ e ∷ f ∷ subs) h in
    let (ln, ha) = all_step n (a ∷ b ∷ c ∷ d ∷ e ∷ f ∷ subs) hn in
    let (la, hb) = all_step a (b ∷ c ∷ d ∷ e ∷ f ∷ subs) ha in
    let (lb, hc) = all_step b (c ∷ d ∷ e ∷ f ∷ subs) hb in
    let (lc, hd) = all_step c (d ∷ e ∷ f ∷ subs) hc in
    let (ld, he) = all_step d (e ∷ f ∷ subs) hd in
    let (le, hf) = all_step e (f ∷ subs) he in
    let (lf, rest) = all_step f subs hf in (ln, la, lb, lc, ld, le, lf, rest)

of_bytes :
    (n a b c d e f : ℕ) (subs : List ℕ)
    → n < 256
    → a < 256
    → b < 256
    → c < 256
    → d < 256
    → e < 256
    → f < 256
    → all is_byte subs ≡ true
    → length subs ≡ 4 * n
    → to_bytes (sid_text 1 (big_endian 0 (a ∷ b ∷ c ∷ d ∷ e ∷ f ∷ [])) (sub_authorities subs))
      ≡ 1 ∷ n ∷ a ∷ b ∷ c ∷ d ∷ e ∷ f ∷ subs
of_bytes n a b c d e f subs o p q r s t u h size =
    let (le, count) = push_le-subs n subs h size in
    let v : ℕ = big_endian 0 (a ∷ b ∷ c ∷ d ∷ e ∷ f ∷ []) in
    let small : v ≤ max_u64 = omega (arith, big_endian-small a b c d e f p q r s t u) in
    let fits : n % 256 ≡ n = omega arith in
    of_text v (sub_authorities subs) small (sub_authorities-small subs h)
    ∙ ap (λ xs. 1 ∷ xs)
        (rw (count, fits, le)
          (ap (λ xs. n ∷ (xs ++ subs)) (authority_bytes a b c d e f p q r s t u)))

-- Bytes that are read as an identifier are the bytes that the identifier is written as.
pub to_bytes-from_bytes :
    (bytes : List ℕ) (sid : Text)
    → all is_byte bytes ≡ true
    → from_bytes bytes ≡ some sid
    → to_bytes sid ≡ bytes
unfolding from_bytes
to_bytes-from_bytes (r ∷ (n ∷ (a ∷ (b ∷ (c ∷ (d ∷ (e ∷ (f ∷ subs)))))))) sid h g =
    let (one, size, same) = parts_of r n a b c d e f subs sid g in
    let (ln, la, lb, lc, ld, le, lf, rest) = parts_below r n a b c d e f subs h in
    rw (← same, one) (of_bytes n a b c d e f subs ln la lb lc ld le lf rest size)
to_bytes-from_bytes other sid h g = unfold of_rest in ground (arith, g)

both_bounds :
    (n authority : ℕ)
    → authority < 281_474_976_710_656
    → (leb (suc n) 16 && (ltb authority 281_474_976_710_656 && true)) ≡ leb n 15
both_bounds n authority h = ground (arith, h)

parse-sid_text :
    (authority : ℕ) (subs : List ℕ)
    → authority < 281_474_976_710_656
    → all (λ s. leb s max_u32) subs ≡ true
    → parse (sid_text 1 authority subs)
      ≡ (if leb (length subs) 15 then some (sid_text 1 authority subs) else none)
unfolding parse
parse-sid_text authority subs h k =
    let (each, size) = all-is_sub subs k in
    let big : authority ≤ max_u64 = omega (arith, h) in
    rw (split-sid authority subs, each, size, parse_uint-show max_u64 authority big)
      (ap (λ b. if b then some (sid_text 1 authority subs) else none)
        (both_bounds (length subs) authority h))

parse_of_bytes :
    (n a b c d e f : ℕ) (subs : List ℕ)
    → a < 256
    → b < 256
    → c < 256
    → d < 256
    → e < 256
    → f < 256
    → all is_byte subs ≡ true
    → length subs ≡ 4 * n
    → let sid = sid_text 1 (big_endian 0 (a ∷ b ∷ c ∷ d ∷ e ∷ f ∷ [])) (sub_authorities subs) in
      parse sid ≡ (if leb n 15 then some sid else none)
parse_of_bytes n a b c d e f subs p q r s t u h size =
    let v : ℕ = big_endian 0 (a ∷ b ∷ c ∷ d ∷ e ∷ f ∷ []) in
    let (same, count) = push_le-subs n subs h size in
    parse-sid_text v (sub_authorities subs) (big_endian-small a b c d e f p q r s t u)
      (sub_authorities-small subs h)
    ∙ ap (λ k. if leb k 15 then some (sid_text 1 v (sub_authorities subs)) else none) count

-- The number of sub-authorities that the bytes name.
abbrev pub sub_count : List ℕ → ℕ
sub_count (revision ∷ (count ∷ rest)) = count
sub_count other = 0

-- An identifier that is read from bytes is read again from its text exactly if it has at most 15
-- sub-authorities; bytes with more are taken, and their text is refused.
pub parse-from_bytes :
    (bytes : List ℕ) (sid : Text)
    → all is_byte bytes ≡ true
    → from_bytes bytes ≡ some sid
    → parse sid ≡ (if leb (sub_count bytes) 15 then some sid else none)
unfolding from_bytes
parse-from_bytes (r ∷ (n ∷ (a ∷ (b ∷ (c ∷ (d ∷ (e ∷ (f ∷ subs)))))))) sid h g =
    let (one, size, same) = parts_of r n a b c d e f subs sid g in
    let (ln, la, lb, lc, ld, le, lf, rest) = parts_below r n a b c d e f subs h in
    rw (← same, one) (parse_of_bytes n a b c d e f subs la lb lc ld le lf rest size)
parse-from_bytes other sid h g = unfold of_rest in ground (arith, g)
