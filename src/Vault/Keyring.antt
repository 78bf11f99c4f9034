-- ===== src/Vault/Keyring.antt =====
-- crates/vault/src/keyring.rs: master keys from a file. Reading the file and base64 (the crate
-- `base64`) are parameters.
pub mod Ring
use remotehub.Base.{
  ℕ, suc, ◌+◌, Bool, true, ◌||◌, not, Option, none, some, List, [], ◌∷◌, ◌++◌, if◌then◌else◌, ◌=?◌,
  ◌==◌, is_empty, length, map,
}
use remotehub.Base.Int.{ℤ, pos, int_eq, leb_ℤ, show_ℤ, parse_int}
use remotehub.Base.Map.{get, contains_key, keys}
use remotehub.Base.BTreeMap.{BTreeMap, Order, put}
use remotehub.Base.Result.{Result, and_then}
use remotehub.Base.Text.{Text, text, text_eq, trim, split_by, split_once}
use remotehub.Base.Decimal.{show}
use remotehub.Base.Utf8.{to_utf8}
use remotehub.Vault.{Bytes, KeyProvider, VaultError, key_len}

abbrev pub file_keyring_id : Text
file_keyring_id = text "file"

abbrev pub max_i32 : ℕ
max_i32 = 2_147_483_647

instance abbrev pub int_order : Order ℤ
int_order = record { before = λ a b. not (leb_ℤ b a) }

pub record FileKeyring : Type 0 where
  pub keys : BTreeMap ℤ Bytes
  pub current : ℤ

-- `lines`: the end of the last line is no line of its own. The carriage return that `lines` takes off
-- goes with the trim.
abbrev pub without_last_empty : List Text → List Text
without_last_empty [] = []
without_last_empty ([] ∷ []) = []
without_last_empty (s ∷ ss) = s ∷ without_last_empty ss

unfoldable pub lines : Text → List Text
lines s = without_last_empty (split_by (λ c. c =? b'\n') s)

abbrev pub starts_with : ℕ → Text → Bool
starts_with c [] = Bool.false
starts_with c (d ∷ s) = c =? d

-- The closure `invalid`, of the line's number from 1.
abbrev pub invalid : ℕ → VaultError
invalid number =
    VaultError.key_file (text "line " ++ (show number ++ text " is not <version>:<base64 key>"))

abbrev pub wrong_length : ℕ → VaultError
wrong_length number =
    VaultError.key_file
      (text "line " ++ (show number ++ (text ": a key has " ++ (show key_len ++ text " bytes"))))

abbrev pub twice : ℤ → VaultError
twice version = VaultError.key_file (text "version " ++ (show_ℤ version ++ text " appears twice"))

unfoldable pub add_key :
    ℕ → ℤ → BTreeMap ℤ Bytes → Option Bytes → Result VaultError (BTreeMap ℤ Bytes)
add_key number version ring none = Result.err (invalid number)
add_key number version ring (some key) =
    if not (length key =? key_len)
    then Result.err (wrong_length number)
    else if contains_key ring version
    then Result.err (twice version)
    else Result.ok (put ring version key)

-- The last key in the order of the map.
abbrev pub last_key : BTreeMap ℤ Bytes → Option ℤ
last_key [] = none
last_key ((v, key) ∷ []) = some v
last_key ((v, key) ∷ rest) = last_key rest

abbrev pub ring_of : BTreeMap ℤ Bytes → Option ℤ → Result VaultError FileKeyring
ring_of ring none = Result.err (VaultError.key_file (text "no key found"))
ring_of ring (some version) = Result.ok (record { keys = ring; current = version })

module _ (base64_decode : Bytes → Option Bytes) where
  abbrev pub add_version :
      ℕ → Text → BTreeMap ℤ Bytes → Option ℤ → Result VaultError (BTreeMap ℤ Bytes)
  add_version number encoded ring none = Result.err (invalid number)
  add_version number encoded ring (some version) =
      if not (leb_ℤ (pos 1) version)
      then Result.err (invalid number)
      else add_key number version ring (base64_decode (to_utf8 (trim encoded)))

  abbrev pub add_pair :
      ℕ → BTreeMap ℤ Bytes → Option (Text × Text) → Result VaultError (BTreeMap ℤ Bytes)
  add_pair number ring none = Result.err (invalid number)
  add_pair number ring (some (version, encoded)) =
      add_version number encoded ring (parse_int max_i32 (trim version))

  unfoldable pub add_line : ℕ → BTreeMap ℤ Bytes → Text → Result VaultError (BTreeMap ℤ Bytes)
  unfolding add_key
  add_line number ring line =
      if is_empty line || starts_with b'#' line
      then Result.ok ring
      else add_pair number ring (split_once b':' line)

  -- The loop over the lines, of which `number` is the next one's.
  unfoldable pub add_lines : ℕ → BTreeMap ℤ Bytes → List Text → Result VaultError (BTreeMap ℤ Bytes)
  unfolding add_line
  add_lines number ring [] = Result.ok ring
  add_lines number ring (line ∷ rest) =
      and_then (add_line number ring (trim line)) (λ more. add_lines (suc number) more rest)

  unfoldable pub parse : Text → Result VaultError FileKeyring
  unfolding add_lines lines
  parse content = and_then (add_lines 1 [] (lines content)) (λ ring. ring_of ring (last_key ring))

abbrev pub key_if : Text → ℤ → Option Bytes → Result VaultError Bytes
key_if id version none = Result.err (VaultError.unknown_key id version)
key_if id version (some key) =
    if id == file_keyring_id then Result.ok key else Result.err (VaultError.unknown_key id version)

unfoldable pub master_key : FileKeyring → Text → ℤ → Result VaultError Bytes
master_key ring id version = key_if id version (get ring.keys version)

-- `impl KeyProvider for FileKeyring`
abbrev pub provider : FileKeyring → KeyProvider
provider ring = record { current = (file_keyring_id, ring.current); master_key = master_key ring }

abbrev pub with_file_id : List ℤ → List (Text × ℤ)
with_file_id [] = []
with_file_id (v ∷ vs) = (file_keyring_id, v) ∷ with_file_id vs

unfoldable pub all_keys : FileKeyring → List (Text × ℤ)
all_keys ring = with_file_id (keys ring.keys)
