-- ===== src/Vault/Keyring/Ring.antt =====
-- What a key file that is read holds: the highest version is current, and it is at hand.
use remotehub.Base.{
  ℕ, suc, Bool, true, false, ◌&&◌, ◌||◌, not, Option, none, some, List, [], ◌∷◌, inl, inr, arith,
  ◌≡◌, refl, subst, ap, if◌then◌else◌, ◌=?◌, ◌==◌, ==_refl, all, length, is_empty, Bool-cases,
}
use remotehub.Base.Int.{ℤ, pos, negsuc, int_eq, leb_ℤ, parse_int}
use remotehub.Base.Map.{get}
use remotehub.Base.BTreeMap.{BTreeMap, put}
use remotehub.Base.Result.{Result, and_then}
use remotehub.Base.Text.{Text, trim, split_once}
use remotehub.Vault.{Bytes, Cipher, Random, Context, VaultError, key_len, seal}
use remotehub.Vault.Opened.{IsRandom, OpensTo, open-seal}
use remotehub.Vault.Keyring.{
  FileKeyring, int_order, add_key, last_key, ring_of, add_line, add_lines, lines, parse,
  starts_with, file_keyring_id, max_i32, master_key, provider, add_version, add_pair,
}

-- A version of at least 1, with a key of its length.
abbrev pub is_entry : ℤ × Bytes → Bool
is_entry (v, key) = leb_ℤ (pos 1) v && (length key =? key_len)

abbrev lower : ℤ → ℤ × Bytes → Bool
lower v (w, key) = not (leb_ℤ w v)

-- The versions ascend.
abbrev ascending : BTreeMap ℤ Bytes → Bool
ascending [] = true
ascending ((v, key) ∷ rest) = all (lower v) rest && ascending rest

put-all :
    (p : ℤ × Bytes → Bool) (m : BTreeMap ℤ Bytes) (v : ℤ) (key : Bytes)
    → p (v, key) ≡ true
    → all p m ≡ true
    → all p (put m v key) ≡ true
unfolding put
put-all p [] v key h hm = rw h refl
put-all p ((w, k) ∷ m) v key h hm = ground (arith, put-all p m v key)

below_trans :
    (v w : ℤ) (m : BTreeMap ℤ Bytes)
    → leb_ℤ w v ≡ false
    → all (lower w) m ≡ true
    → all (lower v) m ≡ true
below_trans v w [] h hm = refl
below_trans v w ((u, k) ∷ m) h hm = ground (arith, below_trans v w m)

only_same : (v w : ℤ) → leb_ℤ v w ≡ true → leb_ℤ w v ≡ true → v ≡ w
only_same (pos a) (pos b) h k = ap pos (ground arith)
only_same (pos a) (negsuc b) h k = ground arith
only_same (negsuc a) (pos b) h k = ground arith
only_same (negsuc a) (negsuc b) h k = ap negsuc (ground arith)

put-ascending :
    (m : BTreeMap ℤ Bytes) (v : ℤ) (key : Bytes)
    → ascending m ≡ true
    → ascending (put m v key) ≡ true
unfolding put
put-ascending [] v key h = refl
put-ascending ((w, k) ∷ m) v key h = ground (
  arith,
  int_eq.test_iff w v,
  only_same v w,
  below_trans v w m,
  put-all (lower w) m v key,
  put-ascending m v key,
)

get-all :
    (p : ℤ × Bytes → Bool) (m : BTreeMap ℤ Bytes) (v : ℤ) (key : Bytes)
    → all p m ≡ true
    → get m v ≡ some key
    → p (v, key) ≡ true
unfolding get
get-all p [] v key hm h = cc
get-all p ((w, k) ∷ m) v key hm h = elim (Bool-cases (w == v)) [
  | inl y ↦
      let same : w ≡ v = (int_eq.test_iff w v).0 y in
      let stored : some k ≡ some key = ground arith in
      let first : p (w, k) ≡ true = ground arith in cc
  | inr n ↦ get-all p m v key (ground arith) (ground arith)
]

not_same : (v w : ℤ) → leb_ℤ v w ≡ false → (w == v) ≡ false
not_same (pos a) (pos b) h = ground arith
not_same (pos a) (negsuc b) h = refl
not_same (negsuc a) (pos b) h = refl
not_same (negsuc a) (negsuc b) h = ground arith

abbrev Found : BTreeMap ℤ Bytes → ℤ → Type 0
Found m v =
    (key : Bytes) × (get m v ≡ some key)
    × (is_entry (v, key) ≡ true)
    × (all (λ e. leb_ℤ e.0 v) m ≡ true)

last_key-Found :
    (m : BTreeMap ℤ Bytes) (v : ℤ)
    → all is_entry m ≡ true
    → ascending m ≡ true
    → last_key m ≡ some v
    → Found m v
unfolding get
last_key-Found [] v he ha h = cc
last_key-Found ((w, k) ∷ []) v he ha h =
    let same : w ≡ v = cc in
    subst (Found ((w, k) ∷ [])) same (k, rw (==_refl w) refl, ground arith, ground arith)
last_key-Found ((w, k) ∷ (e ∷ m)) v he ha h =
    let (key, found, entry, most) = last_key-Found (e ∷ m) v (ground arith) (ground arith) h in
    let above = get-all (lower w) (e ∷ m) v key (ground arith) found in
    let other : (w == v) ≡ false = not_same v w (ground arith) in
    (key, rw (other, if◌then◌else◌) found, entry, ground arith)

Keeps : Result VaultError (BTreeMap ℤ Bytes) → Type 0
Keeps (Result.err e) = true ≡ true
Keeps (Result.ok m) = (all is_entry m ≡ true) × (ascending m ≡ true)

-- What a key provider of a file has at hand: the current key, under the highest version, of its
-- length; and every version is at least 1, with a key of its length.
pub HoldsKeys : FileKeyring → Type 0
HoldsKeys ring =
    (key : Bytes) × (master_key ring file_keyring_id ring.current ≡ Result.ok key)
    × (length key ≡ key_len)
    × (all (λ e. leb_ℤ e.0 ring.current) ring.keys ≡ true)
    × (all is_entry ring.keys ≡ true)

err-Keeps : (e : VaultError) → Keeps (Result.err e)
unfolding Keeps
err-Keeps e = refl

module _ (base64_decode : Bytes → Option Bytes) where
  add_key-Keeps :
      (number : ℕ) (v : ℤ) (m : BTreeMap ℤ Bytes) (o : Option Bytes)
      → leb_ℤ (pos 1) v ≡ true
      → Keeps (Result.ok m)
      → Keeps (add_key number v m o)
  unfolding add_key Keeps
  add_key-Keeps number v m none hv h = refl
  add_key-Keeps number v m (some key) hv h =
      ground (arith, put-all is_entry m v key, put-ascending m v key)

  add_version-Keeps :
      (number : ℕ) (encoded : Text) (m : BTreeMap ℤ Bytes) (o : Option ℤ)
      → Keeps (Result.ok m)
      → Keeps (add_version base64_decode number encoded m o)
  unfolding Keeps
  add_version-Keeps number encoded m none h = refl
  add_version-Keeps number encoded m (some v) h = elim (Bool-cases (leb_ℤ (pos 1) v)) [
    | inl y ↦ rw (y, if◌then◌else◌) (add_key-Keeps number v m _ y h)
    | inr n ↦ rw (n, if◌then◌else◌) refl
  ]

  add_pair-Keeps :
      (number : ℕ) (m : BTreeMap ℤ Bytes) (o : Option (Text × Text))
      → Keeps (Result.ok m)
      → Keeps (add_pair base64_decode number m o)
  unfolding Keeps
  add_pair-Keeps number m none h = refl
  add_pair-Keeps number m (some (version, encoded)) h =
      add_version-Keeps number encoded m (parse_int max_i32 (trim version)) h

  add_line-Keeps :
      (number : ℕ) (m : BTreeMap ℤ Bytes) (line : Text)
      → Keeps (Result.ok m)
      → Keeps (add_line base64_decode number m line)
  unfolding add_line
  add_line-Keeps number m line h =
      choose (is_empty line || starts_with b'#' line) h
        (add_pair-Keeps number m (split_once b':' line) h)
    where
      choose :
          (b : Bool)
          → Keeps (Result.ok m)
          → Keeps (add_pair base64_decode number m (split_once b':' line))
          → Keeps
              (if b then Result.ok m else add_pair base64_decode number m (split_once b':' line))
      choose true h k = h
      choose false h k = k

  add_lines-Keeps :
      (number : ℕ) (m : BTreeMap ℤ Bytes) (rest : List Text)
      → Keeps (Result.ok m)
      → Keeps (add_lines base64_decode number m rest)
  unfolding add_lines
  add_lines-Keeps number m [] h = h
  add_lines-Keeps number m (line ∷ rest) h =
      next (add_line base64_decode number m (trim line)) (add_line-Keeps number m (trim line) h)
        (λ more k. add_lines-Keeps (suc number) more rest k)
    where
      next :
          (o : Result VaultError (BTreeMap ℤ Bytes))
          → Keeps o
          → ((more : BTreeMap ℤ Bytes)
              → Keeps (Result.ok more)
              → Keeps (add_lines base64_decode (suc number) more rest))
          → Keeps (and_then o (λ more. add_lines base64_decode (suc number) more rest))
      next (Result.err e) k later = err-Keeps e
      next (Result.ok more) k later = later more k

  -- A key file that is read has the current key at hand: it is that of the highest version, has 32
  -- bytes, and every version is at least 1, with a key of 32 bytes.
  pub parse-HoldsKeys :
      (content : Text) (ring : FileKeyring)
      → parse base64_decode content ≡ Result.ok ring
      → HoldsKeys ring
  unfolding parse HoldsKeys master_key Keeps
  parse-HoldsKeys content ring h =
      of_lines (add_lines base64_decode 1 [] (lines content))
        (add_lines-Keeps 1 [] (lines content) (refl, refl)) h
    where
      of_last :
          (m : BTreeMap ℤ Bytes) (o : Option ℤ)
          → Keeps (Result.ok m)
          → last_key m ≡ o
          → ring_of m o ≡ Result.ok ring
          → HoldsKeys ring
      of_last m none k e h = cc
      of_last m (some v) k e h =
          let (key, found, entry, most) = last_key-Found m v k.0 k.1 e in
          let same : record { keys = m; current = v } ≡ ring = cc in
          subst HoldsKeys same (key, rw found refl, ground arith, most, k.0)

      of_lines :
          (o : Result VaultError (BTreeMap ℤ Bytes))
          → Keeps o
          → and_then o (λ m. ring_of m (last_key m)) ≡ Result.ok ring
          → HoldsKeys ring
      of_lines (Result.err e) k h = cc
      of_lines (Result.ok m) k h = of_last m (last_key m) k refl h

-- What is sealed under the keys of a file that is read opens again, for a cipher that decrypts what it
-- encrypted and base64 of any kind: no key has to be looked for elsewhere.
pub file-OpensTo :
    (base64_decode : Bytes → Option Bytes) (cipher : Cipher)
    → (reads : (key nonce aad m : Bytes)
        → cipher.decrypt_with key nonce aad (cipher.encrypt_with key nonce aad m) ≡ some m)
    → (content : Text) (ring : FileKeyring) → parse base64_decode content ≡ Result.ok ring
    → (random : Random) (context : Context) (plaintext : Bytes) → IsRandom random
    → OpensTo cipher reads
        (provider ring)
        context
        plaintext
        (seal cipher (provider ring) random context plaintext)
unfolding HoldsKeys
file-OpensTo base64_decode cipher reads content ring h random context plaintext r =
    let (key, found, length, most, entries) = parse-HoldsKeys base64_decode content ring h in
    open-seal cipher reads (provider ring) random context plaintext key r found
