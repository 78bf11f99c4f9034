-- ===== src/Vault/Tests.antt =====
-- A cipher in place of the real one, which writes the associated data before the message, and a key
-- file of two versions whose base64 is read as its own bytes.
use remotehub.Base.{
  ℕ, suc, true, false, ◌&&◌, Option, none, some, [], ◌∷◌, ◌++◌, inl, inr, arith, ◌≡◌, ◌≢◌, refl, ap,
  if◌then◌else◌, ◌=?◌, ◌==◌, ==_refl, length, Bool-cases,
}
use remotehub.Base.Int.{pos, show_ℤ, parse_int}
use remotehub.Base.Map.{get}
use remotehub.Base.BTreeMap.{put}
use remotehub.Base.Result.{Result}
use remotehub.Base.Text.{Text, text, text_eq, trim, split_by, split_once}
use remotehub.Base.Decimal.{show, digits_from, parse_digits, parse_uint, value_from}
use remotehub.Base.Utf8.{to_utf8}
use remotehub.Vault.{
  Bytes, Cipher, Context, Random, Sealed, VaultError, before_at, after_at, encrypt, decrypt, place,
  seal, open_sealed, rewrap, sealed_with,
}
use remotehub.Vault.Opened.{
  IsRandom, OpensTo, Rewraps, before_at-append, after_at-append, rewrap-Rewraps,
}
use remotehub.Vault.Places.{IsPlace, moved_refused}
use remotehub.Vault.Keyring.{
  FileKeyring, add_key, add_line, add_lines, lines, parse, master_key, provider,
}
use remotehub.Vault.Keyring.Ring.{file-OpensTo}

abbrev read_toy : Bytes → Bytes → Option Bytes
read_toy aad [] = none
read_toy aad (n ∷ rest) =
    if (n =? length aad) && (before_at n rest == aad) then some (after_at n rest) else none

abbrev toy : Cipher
toy = record {
  encrypt_with = λ key nonce aad m. length aad ∷ (aad ++ m);
  decrypt_with = λ key nonce aad c. read_toy aad c;
}

toy_reads :
    (key nonce aad m : Bytes)
    → toy.decrypt_with key nonce aad (toy.encrypt_with key nonce aad m) ≡ some m
toy_reads key nonce aad m =
    let same : (length aad =? length aad) ≡ true = ground arith in
    rw
      (
        same,
        before_at-append (length aad) aad m refl,
        after_at-append (length aad) aad m refl,
        ==_refl aad,
      )
      refl

toy_binds :
    (key other nonce aad moved m : Bytes)
    → aad ≢ moved
    → toy.decrypt_with other nonce moved (toy.encrypt_with key nonce aad m) ≡ none
toy_binds key other nonce aad moved m differs =
    rw (before_at-append (length aad) aad m refl) (elim (Bool-cases (aad == moved)) [
      | inl y ↦ absurd (differs ((text_eq.test_iff aad moved).0 y))
      | inr n ↦ rw n (ground arith)
    ])

abbrev filled : ℕ → ℕ → Bytes
filled ℕ.zero b = []
filled (suc n) b = b ∷ filled n b

abbrev random : Random
random = record { data_key = filled 32 1; key_nonce = filled 24 2; text_nonce = filled 24 3 }

random-IsRandom : IsRandom random
random-IsRandom = (refl, refl, refl)

abbrev old_key : Text
old_key = text "abcdefghijklmnopqrstuvwxyz012345"

abbrev new_key : Text
new_key = text "ABCDEFGHIJKLMNOPQRSTUVWXYZ012345"

abbrev key_file : Text
key_file =
    text "# remotehub master keys\n2:"
    ++ (new_key ++ (text "\r\n\n 1 : " ++ (old_key ++ text "\n")))

abbrev ring : FileKeyring
ring = record { keys = (pos 1, old_key) ∷ (pos 2, new_key) ∷ []; current = pos 2 }

abbrev old_ring : FileKeyring
old_ring = record { keys = (pos 1, old_key) ∷ []; current = pos 1 }

parse_tests :
    (parse some key_file ≡ Result.ok ring)
    × (parse some (text "# none\n") ≡ Result.err (VaultError.key_file (text "no key found")))
    × (parse some (text "1:short")
        ≡ Result.err (VaultError.key_file (text "line 1: a key has 32 bytes")))
    × (parse some (text "\n-1:key")
        ≡ Result.err (VaultError.key_file (text "line 2 is not <version>:<base64 key>")))
unfolding parse add_lines lines add_line add_key put split_by split_once trim parse_int parse_uint
    parse_digits value_from to_utf8 show digits_from
parse_tests = (refl, refl, refl, refl)

abbrev alice : Context
alice = record { owner = text "alice"; version = pos 1; field = text "password" }

abbrev bob : Context
bob = record alice { owner = text "bob" }

file-OpensTo_example :
    OpensTo toy toy_reads
      (provider ring)
      alice
      (text "pw")
      (seal toy (provider ring) random alice (text "pw"))
file-OpensTo_example =
    file-OpensTo some toy toy_reads key_file ring parse_tests.0 random alice (text "pw")
      random-IsRandom

old_found : master_key old_ring (text "file") (pos 1) ≡ Result.ok old_key
unfolding master_key get
old_found = refl

ring_found : master_key ring (text "file") (pos 1) ≡ Result.ok old_key
unfolding master_key get
ring_found = refl

new_found : master_key ring (text "file") (pos 2) ≡ Result.ok new_key
unfolding master_key get
new_found = refl

abbrev sealed : Sealed
sealed = sealed_with toy random alice (text "file") (pos 1) (text "pw") old_key

sealed_old : seal toy (provider old_ring) random alice (text "pw") ≡ Result.ok sealed
unfolding seal master_key get
sealed_old = refl

opened_new : open_sealed toy (provider ring) alice sealed ≡ Result.ok (text "pw")
unfolding open_sealed decrypt encrypt master_key get place show_ℤ show digits_from to_utf8
opened_new = refl

rewrap-Rewraps_example :
    Rewraps toy toy_reads
      (provider ring)
      alice
      (text "pw")
      sealed
      (rewrap toy (provider ring) random alice sealed)
rewrap-Rewraps_example =
    rewrap-Rewraps toy toy_reads (provider ring) random alice sealed (text "pw") new_key
      random-IsRandom new_found opened_new

alice-IsPlace : IsPlace alice (text "file")
alice-IsPlace = (refl, refl, refl)

bob-IsPlace : IsPlace bob (text "file")
bob-IsPlace = (refl, refl, refl)

others : alice ≢ bob
others = λ e.
    let h : false ≡ true = (text_eq.test_iff alice.owner bob.owner).1 (ap (λ c. c.owner) e) in cc

moved_refused_example :
    open_sealed toy (provider old_ring) bob sealed ≡ Result.err VaultError.cannot_open
moved_refused_example =
    moved_refused toy toy_binds (provider old_ring) random alice bob (text "pw") sealed
      random-IsRandom alice-IsPlace bob-IsPlace others sealed_old
