-- ===== src/Vault.antt =====
-- crates/vault/src: sealed values under master keys. The cipher (XChaCha20-Poly1305) is a parameter,
-- and so are the random bytes, which are arguments. A UUID is the text it is written as.
pub mod Places
pub mod Opened
pub mod Keyring
mod Tests
use remotehub.Base.{
  ℕ, zero, suc, Bool, true, false, ◌&&◌, not, Option, none, some, List, [], ◌∷◌, ◌++◌,
  if◌then◌else◌, ltb, ◌=?◌, ◌==◌, length,
}
use remotehub.Base.Int.{ℤ, int_eq, show_ℤ}
use remotehub.Base.Result.{Result, and_then}
use remotehub.Base.Text.{Text, text, text_eq}
use remotehub.Base.Utf8.{to_utf8}

abbrev pub Bytes : Type 0
Bytes = List ℕ

-- An authenticated cipher: of a key, a nonce, the associated data and the message.
pub record Cipher : Type 0 where
  pub encrypt_with : Bytes → Bytes → Bytes → Bytes → Bytes
  pub decrypt_with : Bytes → Bytes → Bytes → Bytes → Option Bytes

abbrev pub scheme_name : Text
scheme_name = text "xchacha20poly1305-v1"

abbrev pub key_len : ℕ
key_len = 32

abbrev pub nonce_len : ℕ
nonce_len = 24

pub data VaultError : Type 0 where
  cannot_open : VaultError
  unknown_scheme : Text → VaultError
  unknown_key : Text → ℤ → VaultError
  key_file : Text → VaultError
  invalid_public_key : VaultError

-- What a key provider answers.
pub record KeyProvider : Type 0 where
  pub current : Text × ℤ
  pub master_key : Text → ℤ → Result VaultError Bytes

pub record Context : Type 0 where
  pub owner : Text
  pub version : ℤ
  pub field : Text

pub record Sealed : Type 0 where
  pub scheme : Text
  pub kek_id : Text
  pub kek_version : ℤ
  pub wrapped_key : Bytes
  pub ciphertext : Bytes

-- The random bytes that one `seal` takes: the data key, and a nonce for each encryption.
pub record Random : Type 0 where
  pub data_key : Bytes
  pub key_nonce : Bytes
  pub text_nonce : Bytes

abbrev pub before_at : ℕ → Bytes → Bytes
before_at zero bs = []
before_at (suc n) [] = []
before_at (suc n) (b ∷ bs) = b ∷ before_at n bs

abbrev pub after_at : ℕ → Bytes → Bytes
after_at zero bs = bs
after_at (suc n) [] = []
after_at (suc n) (b ∷ bs) = after_at n bs

-- `format!("remotehub|{SCHEME}|{}|{}|{}|{kek_id}|{kek_version}")`
unfoldable pub place : Context → Text → ℤ → Text
unfolding show_ℤ
place c kek_id kek_version =
    text "remotehub|"
    ++ (scheme_name
        ++ (b'|'
            ∷ (c.owner
                ++ (b'|'
                    ∷ (show_ℤ c.version
                        ++ (b'|'
                            ∷ (c.field ++ (b'|' ∷ (kek_id ++ (b'|' ∷ show_ℤ kek_version))))))))))

abbrev pub associated_data : Context → Text → ℤ → Bytes
associated_data c kek_id kek_version = to_utf8 (place c kek_id kek_version)

abbrev pub opened : Option Bytes → Result VaultError Bytes
opened none = Result.err VaultError.cannot_open
opened (some plain) = Result.ok plain

-- `try_into` a key.
abbrev pub as_key : Bytes → Result VaultError Bytes
as_key bytes =
    if length bytes =? key_len then Result.ok bytes else Result.err VaultError.cannot_open

module _ (cipher : Cipher) where
  unfoldable pub encrypt : Bytes → Bytes → Bytes → Bytes → Bytes
  encrypt key nonce aad plaintext = nonce ++ cipher.encrypt_with key nonce aad plaintext

  unfoldable pub decrypt : Bytes → Bytes → Bytes → Result VaultError Bytes
  decrypt key aad sealed =
      if ltb (length sealed) nonce_len
      then Result.err VaultError.cannot_open
      else opened
          (cipher.decrypt_with key (before_at nonce_len sealed) aad (after_at nonce_len sealed))

  abbrev pub sealed_with : Random → Context → Text → ℤ → Bytes → Bytes → Sealed
  sealed_with random context kek_id kek_version plaintext master =
      let aad = associated_data context kek_id kek_version in
      record {
        scheme = scheme_name;
        kek_id = kek_id;
        kek_version = kek_version;
        wrapped_key = encrypt master random.key_nonce aad random.data_key;
        ciphertext = encrypt random.data_key random.text_nonce aad plaintext;
      }

  module _ (keys : KeyProvider) where
    unfoldable pub seal : Random → Context → Bytes → Result VaultError Sealed
    unfolding encrypt
    seal random context plaintext =
        and_then (keys.master_key keys.current.0 keys.current.1) (λ master.
          Result.ok (sealed_with random context keys.current.0 keys.current.1 plaintext master))

    unfoldable pub open_sealed : Context → Sealed → Result VaultError Bytes
    unfolding decrypt
    open_sealed context sealed =
        if not (sealed.scheme == scheme_name)
        then Result.err (VaultError.unknown_scheme sealed.scheme)
        else and_then (keys.master_key sealed.kek_id sealed.kek_version) (λ master.
          let aad = associated_data context sealed.kek_id sealed.kek_version in
          and_then (decrypt master aad sealed.wrapped_key)
            (λ bytes. and_then (as_key bytes) (λ data_key. decrypt data_key aad sealed.ciphertext)))

    unfoldable pub rewrap : Random → Context → Sealed → Result VaultError (Option Sealed)
    unfolding seal open_sealed
    rewrap random context sealed =
        if (sealed.kek_id == keys.current.0) && (sealed.kek_version == keys.current.1)
        then Result.ok none
        else and_then (open_sealed context sealed)
            (λ plaintext. and_then (seal random context plaintext) (λ s. Result.ok (some s)))
