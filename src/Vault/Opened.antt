-- ===== src/Vault/Opened.antt =====
-- What is sealed is opened again, and stays so when its key is replaced, for a cipher that decrypts
-- what it encrypted.
use remotehub.Base.{
  ℕ, zero, suc, true, false, ◌&&◌, Option, none, some, [], ◌∷◌, ◌++◌, ◌⊎◌, inl, inr, arith, ◌≡◌,
  refl, if◌then◌else◌, ltb, ◌=?◌, ◌==◌, length, length-append, Bool-cases,
}
use remotehub.Base.Int.{ℤ, int_eq}
use remotehub.Base.Result.{Result}
use remotehub.Base.Text.{Text, text_eq}
use remotehub.Vault.{
  Bytes, Cipher, KeyProvider, Context, Sealed, Random, VaultError, key_len, nonce_len, before_at,
  after_at, opened, encrypt, decrypt, associated_data, sealed_with, seal, open_sealed, rewrap,
}

abbrev pub IsRandom : Random → Type 0
IsRandom r =
    (length r.data_key ≡ key_len)
    × (length r.key_nonce ≡ nonce_len)
    × (length r.text_nonce ≡ nonce_len)

pub before_at-append : (n : ℕ) (s t : Bytes) → length s ≡ n → before_at n (s ++ t) ≡ s
before_at-append zero [] t h = refl
before_at-append zero (b ∷ s) t h = absurd (omega arith)
before_at-append (suc n) [] t h = absurd (omega arith)
before_at-append (suc n) (b ∷ s) t h = rw (before_at-append n s t (omega arith)) refl

pub after_at-append : (n : ℕ) (s t : Bytes) → length s ≡ n → after_at n (s ++ t) ≡ t
after_at-append zero [] t h = refl
after_at-append zero (b ∷ s) t h = absurd (omega arith)
after_at-append (suc n) [] t h = absurd (omega arith)
after_at-append (suc n) (b ∷ s) t h = after_at-append n s t (omega arith)

-- What decryption makes of a value encrypted under any key and associated data.
pub decrypt-sealed :
    (cipher : Cipher) (key nonce aad other plaintext : Bytes)
    → length nonce ≡ nonce_len
    → decrypt cipher key other (encrypt cipher key nonce aad plaintext)
      ≡ opened (cipher.decrypt_with key nonce other (cipher.encrypt_with key nonce aad plaintext))
unfolding decrypt encrypt
decrypt-sealed cipher key nonce aad other plaintext h =
    let rest = cipher.encrypt_with key nonce aad plaintext in
    let long : ltb (length (nonce ++ rest)) nonce_len ≡ false =
      ground (arith, length-append nonce rest) in
    rw
      (
        long,
        if◌then◌else◌,
        before_at-append nonce_len nonce rest h,
        after_at-append nonce_len nonce rest h,
      )
      refl

module _ (cipher : Cipher)
    (reads : (key nonce aad m : Bytes)
      → cipher.decrypt_with key nonce aad (cipher.encrypt_with key nonce aad m) ≡ some m)
    (keys : KeyProvider) where
  decrypt-encrypt :
      (key nonce aad m : Bytes)
      → length nonce ≡ nonce_len
      → decrypt cipher key aad (encrypt cipher key nonce aad m) ≡ Result.ok m
  decrypt-encrypt key nonce aad m h =
      rw (decrypt-sealed cipher key nonce aad aad m h, reads key nonce aad m) refl

  -- A value that was sealed with a key of the provider opens.
  open-sealed_with :
      (random : Random) (context : Context) (kek_id : Text) (kek_version : ℤ)
      (plaintext master : Bytes)
      → IsRandom random
      → keys.master_key kek_id kek_version ≡ Result.ok master
      → open_sealed cipher keys context
          (sealed_with cipher random context kek_id kek_version plaintext master)
        ≡ Result.ok plaintext
  unfolding open_sealed
  open-sealed_with random context kek_id kek_version plaintext master r found =
      let aad = associated_data context kek_id kek_version in
      let fits : (length random.data_key =? key_len) ≡ true = ground arith in
      rw
        (
          found,
          decrypt-encrypt master random.key_nonce aad random.data_key r.1,
          fits,
          if◌then◌else◌,
          decrypt-encrypt random.data_key random.text_nonce aad plaintext r.2,
        )
        refl

  pub OpensTo : Context → Bytes → Result VaultError Sealed → Type 0
  OpensTo context plaintext sealed =
      (s : Sealed) × (sealed ≡ Result.ok s)
      × (s.kek_id ≡ keys.current.0)
      × (s.kek_version ≡ keys.current.1)
      × (open_sealed cipher keys context s ≡ Result.ok plaintext)

  -- With the current master key at hand, any plaintext is sealed, under that key, and what is sealed
  -- opens in the same context to the plaintext.
  pub open-seal :
      (random : Random) (context : Context) (plaintext master : Bytes)
      → IsRandom random
      → keys.master_key keys.current.0 keys.current.1 ≡ Result.ok master
      → OpensTo context plaintext (seal cipher keys random context plaintext)
  unfolding seal OpensTo
  open-seal random context plaintext master r found = (
    sealed_with cipher random context keys.current.0 keys.current.1 plaintext master,
    rw found refl,
    refl,
    refl,
    open-sealed_with random context keys.current.0 keys.current.1 plaintext master r found,
  )

  IsCurrent : Sealed → Type 0
  IsCurrent s = (s.kek_id ≡ keys.current.0) × (s.kek_version ≡ keys.current.1)

  pub Rewraps : Context → Bytes → Sealed → Result VaultError (Option Sealed) → Type 0
  Rewraps context plaintext sealed o =
      ((o ≡ Result.ok none) × IsCurrent sealed)
      ⊎ ((s : Sealed) × (o ≡ Result.ok (some s))
          × (¬ IsCurrent sealed)
          × IsCurrent s
          × (open_sealed cipher keys context s ≡ Result.ok plaintext))

  -- Key rotation keeps what is sealed: a value that opens stays as it is when it is under the current
  -- key, and else there is a new one under the current key that opens to the same plaintext, when the
  -- current key is at hand.
  pub rewrap-Rewraps :
      (random : Random) (context : Context) (sealed : Sealed) (plaintext master : Bytes)
      → IsRandom random
      → keys.master_key keys.current.0 keys.current.1 ≡ Result.ok master
      → open_sealed cipher keys context sealed ≡ Result.ok plaintext
      → Rewraps context plaintext sealed (rewrap cipher keys random context sealed)
  unfolding rewrap Rewraps OpensTo IsCurrent
  rewrap-Rewraps random context sealed plaintext master r found readable =
      elim (Bool-cases
        ((sealed.kek_id == keys.current.0) && (sealed.kek_version == keys.current.1))) [
          | inl y ↦ inl (
            rw (y, if◌then◌else◌) refl,
            (
              ground (arith, text_eq.test_iff sealed.kek_id keys.current.0),
              ground (arith, int_eq.test_iff sealed.kek_version keys.current.1),
            ),
          )
          | inr n ↦
              let (s, made, id, version, opens) =
                open-seal random context plaintext master r found in
              inr (
                s,
                rw (n, if◌then◌else◌, readable, made) refl,
                (λ same. cc (
                  n,
                  (text_eq.test_iff sealed.kek_id keys.current.0).1 same.0,
                  (int_eq.test_iff sealed.kek_version keys.current.1).1 same.1,
                )),
                (id, version),
                opens,
              )
        ]
