-- ===== src/Vault/Places.antt =====
-- A sealed value opens only where it belongs: the place is part of the associated data.
use mathlib.Core.Option.{some-injective}
use remotehub.Base.{
  ℕ, suc, Bool, true, false, ◌&&◌, not, Option, none, some, [], ◌∷◌, ◌++◌, arith, ◌≡◌, ◌≢◌, refl,
  sym, ap, ◌∙◌, subst, ◌=?◌, all,
}
use remotehub.Base.Int.{ℤ, pos, negsuc, show_ℤ}
use remotehub.Base.Result.{Result, and_then}
use remotehub.Base.Decimal.{show, show-all, value-show, value_from}
use remotehub.Base.Text.{Text, is_digit, split_once, split_once-append}
use remotehub.Base.Utf8.{from_utf8, from_utf8-to_utf8, is_char}
use remotehub.Vault.Opened.{IsRandom, decrypt-sealed}
use remotehub.Vault.{
  Bytes, Cipher, KeyProvider, Context, Sealed, Random, VaultError, after_at, place, associated_data,
  sealed_with, seal, open_sealed,
}

-- A text of characters, without the bar that separates the parts.
abbrev pub is_part : Text → Bool
is_part s = all is_char s && all (λ c. not (c =? b'|')) s

no_bar : (s : Text) → all (λ c. not (c =? b'|')) s ≡ true → split_once b'|' s ≡ none
unfolding split_once
no_bar [] h = refl
no_bar (c ∷ s) h = ground (arith, no_bar s)

some_inj :
    (a b c d : Text)
    → ◌≡◌ {A = Option (Text × Text)} (some (a, b)) (some (c, d))
    → (a ≡ c) × (b ≡ d)
some_inj a b c d h = (cc, cc)

-- The first part of a text and the rest are told from it.
first_part :
    (s t u v : Text)
    → is_part s ≡ true
    → is_part u ≡ true
    → s ++ b'|' ∷ t ≡ u ++ b'|' ∷ v
    → (s ≡ u) × (t ≡ v)
first_part s t u v hs hu e = some_inj s t u v (
    sym (split_once-append b'|' s t (no_bar s (ground arith)))
    ∙ ap (split_once b'|') e
    ∙ split_once-append b'|' u v (no_bar u (ground arith)))

digits-part : (s : Text) → all is_digit s ≡ true → is_part s ≡ true
digits-part [] h = refl
digits-part (c ∷ s) h = ground (arith, digits-part s)

show_ℤ-part : (n : ℤ) → is_part (show_ℤ n) ≡ true
unfolding show_ℤ
show_ℤ-part (pos n) = digits-part (show n) (show-all n)
show_ℤ-part (negsuc n) = ground (arith, digits-part (show (suc n)), show-all (suc n))

show-inj : (m n : ℕ) → show m ≡ show n → m ≡ n
show-inj m n e = sym (value-show m) ∙ ap (value_from 0) e ∙ value-show n

digit_first : (n : ℕ) (s : Text) → show n ≡ b'-' ∷ s → false ≡ true
digit_first n s e = ground (arith, subst (λ t. all is_digit t ≡ true) e (show-all n))

show_ℤ-inj : (m n : ℤ) → show_ℤ m ≡ show_ℤ n → m ≡ n
unfolding show_ℤ
show_ℤ-inj (pos m) (pos n) e = ap pos (show-inj m n e)
show_ℤ-inj (pos m) (negsuc n) e = cc (digit_first m (show (suc n)) e)
show_ℤ-inj (negsuc m) (pos n) e = cc (digit_first n (show (suc m)) (sym e))
show_ℤ-inj (negsuc m) (negsuc n) e = ap negsuc (omega (arith, show-inj (suc m) (suc n) cc))

-- The parts of a place that are texts have no bar.
abbrev pub IsPlace : Context → Text → Type 0
IsPlace c kek_id = (is_part c.owner ≡ true) × (is_part c.field ≡ true) × (is_part kek_id ≡ true)

pub SamePlace : Context → Text → ℤ → Context → Text → ℤ → Type 0
SamePlace c id v d jd w =
    (c.owner ≡ d.owner) × (c.version ≡ d.version) × (c.field ≡ d.field) × (id ≡ jd) × (v ≡ w)

place-inj :
    (c d : Context) (id jd : Text) (v w : ℤ)
    → IsPlace c id
    → IsPlace d jd
    → place c id v ≡ place d jd w
    → SamePlace c id v d jd w
unfolding place SamePlace
place-inj c d id jd v w pc pd e =
    let (owner, e1) = first_part c.owner _ d.owner _ pc.0 pd.0 (ap (after_at 31) e) in
    let (version, e2) =
      first_part (show_ℤ c.version) _ (show_ℤ d.version) _ (show_ℤ-part c.version)
        (show_ℤ-part d.version) e1 in
    let (field, e3) = first_part c.field _ d.field _ pc.1 pd.1 e2 in
    let (kek, e4) = first_part id _ jd _ pc.2 pd.2 e3 in
    (owner, show_ℤ-inj c.version d.version version, field, kek, show_ℤ-inj v w e4)

part-is_char :
    (s t : Text) → is_part s ≡ true → all is_char t ≡ true → all is_char (s ++ b'|' ∷ t) ≡ true
part-is_char [] t p h = h
part-is_char (c ∷ s) t p h = ground (arith, part-is_char s t)

place-is_char : (c : Context) (id : Text) (v : ℤ) → IsPlace c id → all is_char (place c id v) ≡ true
unfolding place
place-is_char c id v p = part-is_char c.owner _ p.0 (
    part-is_char (show_ℤ c.version) _ (show_ℤ-part c.version)
      (part-is_char c.field _ p.1 (part-is_char id (show_ℤ v) p.2 (ground (arith, show_ℤ-part v)))))

pub associated_data-inj :
    (c d : Context) (id jd : Text) (v w : ℤ)
    → IsPlace c id
    → IsPlace d jd
    → associated_data c id v ≡ associated_data d jd w
    → SamePlace c id v d jd w
associated_data-inj c d id jd v w pc pd e = place-inj c d id jd v w pc pd (
    some-injective _ _ (
      sym (from_utf8-to_utf8 (place c id v) (place-is_char c id v pc))
      ∙ ap from_utf8 e
      ∙ from_utf8-to_utf8 (place d jd w) (place-is_char d jd w pd)))

same_context :
    (c d : Context) → c.owner ≡ d.owner → c.version ≡ d.version → c.field ≡ d.field → c ≡ d
same_context c d owner version field = cc

ok-inj : {s t : Sealed} → ◌≡◌ {A = Result VaultError Sealed} (Result.ok s) (Result.ok t) → s ≡ t
ok-inj h = cc

-- What a cipher promises that tells a message with other associated data from its own.
module _ (cipher : Cipher)
    (binds : (key other nonce aad moved m : Bytes)
      → aad ≢ moved
      → cipher.decrypt_with other nonce moved (cipher.encrypt_with key nonce aad m) ≡ none)
    (keys : KeyProvider) where
  refused_with :
      (random : Random) (c d : Context) (plaintext master : Bytes) (sealed : Sealed)
      → IsRandom random
      → associated_data c keys.current.0 keys.current.1
        ≢ associated_data d keys.current.0 keys.current.1
      → keys.master_key keys.current.0 keys.current.1 ≡ Result.ok master
      → sealed_with cipher random c keys.current.0 keys.current.1 plaintext master ≡ sealed
      → open_sealed cipher keys d sealed ≡ Result.err VaultError.cannot_open
  unfolding open_sealed
  refused_with random c d plaintext master sealed r differs found e =
      let there = associated_data d keys.current.0 keys.current.1 in
      let here = associated_data c keys.current.0 keys.current.1 in
      rw (← e) (
        rw
          (
            found,
            decrypt-sealed cipher master random.key_nonce here there random.data_key r.1,
            binds master master random.key_nonce here there random.data_key differs,
          )
          refl)

  -- A value that was sealed for one place is refused in every other context, whatever the key
  -- provider: another owner, version or field. The parts of both places have no bar.
  pub moved_refused :
      (random : Random) (c d : Context) (plaintext : Bytes) (sealed : Sealed)
      → IsRandom random
      → IsPlace c keys.current.0
      → IsPlace d keys.current.0
      → c ≢ d
      → seal cipher keys random c plaintext ≡ Result.ok sealed
      → open_sealed cipher keys d sealed ≡ Result.err VaultError.cannot_open
  unfolding seal open_sealed SamePlace
  moved_refused random c d plaintext sealed r pc pd differs made =
      from_master (keys.master_key keys.current.0 keys.current.1) refl made
    where
      elsewhere :
          associated_data c keys.current.0 keys.current.1
          ≢ associated_data d keys.current.0 keys.current.1
      elsewhere = λ e.
          let (owner, version, field, id, v) =
            associated_data-inj c d keys.current.0 keys.current.0 keys.current.1 keys.current.1 pc
              pd e in
          differs (same_context c d owner version field)

      from_master :
          (o : Result VaultError Bytes)
          → keys.master_key keys.current.0 keys.current.1 ≡ o
          → and_then o (λ master.
            Result.ok (sealed_with cipher random c keys.current.0 keys.current.1 plaintext master))
            ≡ Result.ok sealed
          → open_sealed cipher keys d sealed ≡ Result.err VaultError.cannot_open
      from_master (Result.err e) found h = cc
      from_master (Result.ok master) found h =
          refused_with random c d plaintext master sealed r elsewhere found (ok-inj h)
