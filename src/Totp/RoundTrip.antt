-- ===== src/Totp/RoundTrip.antt =====
-- The link that `uri` writes is read back by `Params::parse`.
use mathlib.Core.List.{append_assoc}
use remotehub.Base.{
  ℕ, ◌≤◌, Bool, true, false, ◌&&◌, ◌||◌, not, Option, none, some, List, [], ◌∷◌, ◌++◌, arith, ◌≡◌,
  refl, sym, ap, ◌∙◌, if◌then◌else◌, leb, ◌=?◌, all, filter, length, map,
}
use remotehub.Base.Split.{split_by_part, trim_both}
use remotehub.Base.Text.{
  Text, text, trim, within, is_whitespace, split_by, split_once, split_once-append,
}
use remotehub.Base.Utf8.{to_utf8}
use remotehub.Base.Decimal.{all-append, show, digits_from, parse_uint, parse_digits, value_from}
use remotehub.Totp.Bounds.{is_empty_long}
use remotehub.Totp.Link.{
  min_secret_bytes, totp_prefix, is_secret_char, to_ascii_uppercase, strip_prefix_ignore_case,
  algorithm_named, after_issuer, query_of, uri, usual, lenient_base32, set_pair, set_pairs, parse,
  with_secret,
}

-- Text that goes on to the end of the link.
EndsInZero : Text → Type 0
EndsInZero s = (u : Text) × (s ≡ u ++ b'0' ∷ [])

append-EndsInZero : (s t : Text) → EndsInZero t → EndsInZero (s ++ t)
unfolding EndsInZero
append-EndsInZero s t (u, e) = (s ++ u, rw e (sym (append_assoc s u (b'0' ∷ []))))

after_issuer-EndsInZero : EndsInZero after_issuer
unfolding EndsInZero show digits_from
after_issuer-EndsInZero = (text "&algorithm=SHA1&digits=6&period=3", refl)

trim_link : (s : Text) → EndsInZero s → trim (b'o' ∷ s) ≡ b'o' ∷ s
unfolding EndsInZero
trim_link s (u, e) = rw e (trim_both b'o' b'0' u refl refl)

strip_link : (s : Text) → strip_prefix_ignore_case (totp_prefix ++ s) totp_prefix ≡ some s
unfolding strip_prefix_ignore_case
strip_link s = let long : leb 15 (length (totp_prefix ++ s)) ≡ true = ground arith in rw long refl

abbrev not_amp : ℕ → Bool
not_amp c = not (c =? b'&')

split_once-none :
    (sep : ℕ) (s : Text) → all (λ c. not (c =? sep)) s ≡ true → split_once sep s ≡ none
unfolding split_once
split_once-none sep [] h = refl
split_once-none sep (c ∷ s) h = ground (arith, split_once-none sep s)

-- The letters and digits of base32.
abbrev pub is_base32 : ℕ → Bool
is_base32 c = within b'A' b'Z' c || within b'2' b'7' c

above_space : (c : ℕ) → within 50 90 c ≡ true → is_whitespace c ≡ false
above_space c h = ground arith

base32_char :
    (c : ℕ)
    → is_base32 c ≡ true
    → (is_secret_char c ≡ true) × (to_ascii_uppercase c ≡ c) × (not_amp c ≡ true)
base32_char c h = (rw (above_space c (ground arith)) (ground arith), ground arith, ground arith)

clean_base32 :
    (s : Text) → all is_base32 s ≡ true → map to_ascii_uppercase (filter is_secret_char s) ≡ s
clean_base32 [] h = refl
clean_base32 (c ∷ s) h =
    let (keep, same, other) = base32_char c (ground arith) in
    rw (keep, if◌then◌else◌, same, clean_base32 s (ground arith)) refl

base32-not_amp : (s : Text) → all is_base32 s ≡ true → all not_amp s ≡ true
base32-not_amp [] h = refl
base32-not_amp (c ∷ s) h =
    let (keep, same, other) = base32_char c (ground arith) in
    ground (arith, other, base32-not_amp s)

lenient_base32-some :
    (base32_decode : List ℕ → Option (List ℕ)) (s : Text) (secret : List ℕ)
    → all is_base32 s ≡ true
    → base32_decode (to_utf8 s) ≡ some secret
    → min_secret_bytes ≤ length secret
    → lenient_base32 base32_decode s ≡ some secret
unfolding lenient_base32
lenient_base32-some base32_decode s secret b h long =
    let enough : leb min_secret_bytes (length secret) ≡ true = ground arith in
    rw (clean_base32 s b, h, enough) refl

split_query :
    (issuer enc : Text)
    → all not_amp issuer ≡ true
    → all not_amp enc ≡ true
    → split_by (λ c. c =? b'&') (query_of issuer enc)
      ≡ (text "secret=" ++ enc)
        ∷ (text "issuer=" ++ issuer)
        ∷ text "algorithm=SHA1"
        ∷ text "digits=6"
        ∷ text "period=30"
        ∷ []
unfolding show digits_from split_by
split_query issuer enc hi he =
    split_by_part (λ c. c =? b'&') (text "secret=" ++ enc)
      (text "issuer=" ++ (issuer ++ after_issuer)) b'&' he refl
    ∙ ap (λ rest. (text "secret=" ++ enc) ∷ rest)
        (split_by_part (λ c. c =? b'&') (text "issuer=" ++ issuer)
          (text "algorithm=SHA1&digits=6&period=30") b'&' hi refl)

set_link :
    (base32_decode : List ℕ → Option (List ℕ)) (issuer enc : Text) (secret : List ℕ)
    → lenient_base32 base32_decode enc ≡ some secret
    → set_pairs base32_decode (some (usual [])) (
        (text "secret=" ++ enc)
        ∷ (text "issuer=" ++ issuer)
        ∷ text "algorithm=SHA1"
        ∷ text "digits=6"
        ∷ text "period=30"
        ∷ [])
      ≡ some (usual secret)
unfolding set_pairs set_pair split_once algorithm_named parse_uint parse_digits value_from
set_link base32_decode issuer enc secret h =
    ap
      (λ o. set_pairs base32_decode o (
        (text "issuer=" ++ issuer)
        ∷ text "algorithm=SHA1"
        ∷ text "digits=6"
        ∷ text "period=30"
        ∷ []))
      (ap (with_secret (usual [])) h)

all_both :
    (p q : ℕ → Bool) (s : Text)
    → all (λ c. p c && q c) s ≡ true
    → (all p s ≡ true) × (all q s ≡ true)
all_both p q [] h = (refl, refl)
all_both p q (c ∷ s) h = ground (arith, all_both p q s)

link_rest :
    (issuer account enc : Text)
    → all (λ c. not (c =? b'?')) issuer ≡ true
    → all (λ c. not (c =? b'?')) account ≡ true
    → split_once b'?' (issuer ++ (b':' ∷ (account ++ (b'?' ∷ query_of issuer enc))))
      ≡ some (issuer ++ (b':' ∷ account), query_of issuer enc)
link_rest issuer account enc hi ha =
    ap (split_once b'?') (sym (append_assoc issuer (b':' ∷ account) (b'?' ∷ query_of issuer enc)))
    ∙ split_once-append b'?' (issuer ++ (b':' ∷ account)) (query_of issuer enc)
        (split_once-none b'?' (issuer ++ (b':' ∷ account)) (rw (all-append, hi) ha))

link-EndsInZero :
    (issuer account enc : Text)
    → EndsInZero
        (text "tpauth://totp/" ++ (issuer ++ (b':' ∷ (account ++ (b'?' ∷ query_of issuer enc)))))
link-EndsInZero issuer account enc = append-EndsInZero (text "tpauth://totp/") _ (
    append-EndsInZero issuer _ (
      append-EndsInZero (text ":") _ (
        append-EndsInZero account _ (
          append-EndsInZero (text "?secret=") _ (
            append-EndsInZero enc _ (
              append-EndsInZero (text "&issuer=") _
                (append-EndsInZero issuer after_issuer after_issuer-EndsInZero)))))))

-- The link for an app is read back as its secret with SHA-1, six digits and 30 seconds: when the text
-- of the secret is base32 that stands for at least 10 bytes, the issuer has neither a question mark
-- nor an ampersand, and the account has no question mark.
pub parse-uri :
    (base32_decode : List ℕ → Option (List ℕ)) (issuer account enc : Text) (secret : List ℕ)
    → all is_base32 enc ≡ true
    → base32_decode (to_utf8 enc) ≡ some secret
    → min_secret_bytes ≤ length secret
    → all (λ c. not (c =? b'?') && not (c =? b'&')) issuer ≡ true
    → all (λ c. not (c =? b'?')) account ≡ true
    → parse base32_decode (uri issuer account enc) ≡ some (usual secret)
unfolding parse uri
parse-uri base32_decode issuer account enc secret be h long hi ha =
    let (no_query, no_amp) = all_both (λ c. not (c =? b'?')) not_amp issuer hi in
    let query = query_of issuer enc in
    let rest = issuer ++ (b':' ∷ (account ++ (b'?' ∷ query))) in
    let read : lenient_base32 base32_decode enc ≡ some secret =
      lenient_base32-some base32_decode enc secret be h long in
    rw
      (
        trim_link (text "tpauth://totp/" ++ rest) (link-EndsInZero issuer account enc),
        strip_link rest,
        link_rest issuer account enc no_query ha,
        split_query issuer enc no_amp (base32-not_amp enc be),
        set_link base32_decode issuer enc secret read,
        is_empty_long secret long,
        if◌then◌else◌,
      )
      refl
