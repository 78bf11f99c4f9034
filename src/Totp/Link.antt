-- ===== src/Totp/Link.antt =====
-- `Params::parse`, `lenient_base32` and `uri` of crates/totp/src/lib.rs. How base32 is read
-- (`data_encoding::BASE32_NOPAD`) is a parameter.
use remotehub.Base.{
  ℕ, zero, suc, ◌-◌, Bool, ◌&&◌, not, Option, none, some, List, [], ◌∷◌, ◌++◌, if◌then◌else◌, leb,
  ◌=?◌, ◌==◌, filter, map, is_empty, length,
}
use remotehub.Base.Text.{
  Text, text, text_eq, within, trim, split_by, split_once, is_whitespace, eq_ignore_ascii_case,
  to_ascii_lowercase,
}
use remotehub.Base.Utf8.{to_utf8}
use remotehub.Base.Decimal.{show, parse_uint}
use remotehub.Directory.Sid.{max_u32, max_u64}
use remotehub.Totp.{Algorithm, Params, code_digits, code_period, secret_bytes, skip}

abbrev pub min_secret_bytes : ℕ
min_secret_bytes = 10

abbrev pub to_ascii_uppercase : ℕ → ℕ
to_ascii_uppercase c = if within b'a' b'z' c then c - 32 else c

abbrev pub taken : ℕ → Text → Text
taken zero s = []
taken (suc n) [] = []
taken (suc n) (c ∷ s) = c ∷ taken n s

-- The prefix has ASCII letters alone, so bytes and characters are counted alike: a text with another
-- character among its first ones does not have it.
unfoldable pub strip_prefix_ignore_case : Text → Text → Option Text
strip_prefix_ignore_case s prefix =
    if leb (length prefix) (length s) && eq_ignore_ascii_case (taken (length prefix) s) prefix
    then some (skip (length prefix) s)
    else none

abbrev pub totp_prefix : Text
totp_prefix = text "otpauth://totp/"

abbrev pub is_secret_char : ℕ → Bool
is_secret_char c = not (is_whitespace c) && (not (c =? b'-') && not (c =? b'='))

abbrev pub long_enough : Option (List ℕ) → Option (List ℕ)
long_enough none = none
long_enough (some bytes) = if leb min_secret_bytes (length bytes) then some bytes else none

abbrev pub full_length : Option (List ℕ) → Option (List ℕ)
full_length none = none
full_length (some bytes) = if length bytes =? secret_bytes then some bytes else none

unfoldable pub algorithm_named : Text → Option Algorithm
algorithm_named name =
    if name == text "SHA1"
    then some Algorithm.sha1
    else if name == text "SHA256"
    then some Algorithm.sha256
    else if name == text "SHA512"
    then some Algorithm.sha512
    else none

-- `filter` of what is read, by the range it has to be in.
abbrev pub in_range : ℕ → ℕ → Option ℕ → Option ℕ
in_range lo hi none = none
in_range lo hi (some n) = if within lo hi n then some n else none

abbrev pub with_secret : Params → Option (List ℕ) → Option Params
with_secret params none = none
with_secret params (some bytes) = some (record params { secret = bytes })

abbrev pub with_algorithm : Params → Option Algorithm → Option Params
with_algorithm params none = none
with_algorithm params (some a) = some (record params { algorithm = a })

abbrev pub with_digits : Params → Option ℕ → Option Params
with_digits params none = none
with_digits params (some n) = some (record params { digits = n })

abbrev pub with_period : Params → Option ℕ → Option Params
with_period params none = none
with_period params (some n) = some (record params { period = n })

abbrev pub key_and_value : Text → Option (Text × Text) → Text × Text
key_and_value pair none = (pair, [])
key_and_value pair (some kv) = kv

abbrev pub usual : List ℕ → Params
usual bytes = record {
  secret = bytes;
  algorithm = Algorithm.sha1;
  digits = code_digits;
  period = code_period;
}

abbrev pub usual_if : Option (List ℕ) → Option Params
usual_if none = none
usual_if (some bytes) = some (usual bytes)

abbrev pub with_any_secret : Option Params → Option Params
with_any_secret none = none
with_any_secret (some params) = if not (is_empty params.secret) then some params else none

abbrev pub after_issuer : Text
after_issuer =
    text "&algorithm=SHA1&digits=" ++ (show code_digits ++ (text "&period=" ++ show code_period))

abbrev pub query_of : Text → Text → Text
query_of issuer secret_base32 =
    text "secret=" ++ (secret_base32 ++ (text "&issuer=" ++ (issuer ++ after_issuer)))

unfoldable pub uri : Text → Text → Text → Text
uri issuer account secret_base32 =
    totp_prefix ++ (issuer ++ (b':' ∷ (account ++ (b'?' ∷ query_of issuer secret_base32))))

module _ (base32_decode : List ℕ → Option (List ℕ)) where
  -- A secret as `encode` writes it.
  unfoldable pub decode : Text → Option (List ℕ)
  decode secret = full_length (base32_decode (to_utf8 (trim secret)))

  unfoldable pub lenient_base32 : Text → Option (List ℕ)
  lenient_base32 s =
      long_enough (base32_decode (to_utf8 (map to_ascii_uppercase (filter is_secret_char s))))

  -- The arms of the `match` on the key.
  unfoldable pub set_pair : Params → Text × Text → Option Params
  unfolding lenient_base32 algorithm_named
  set_pair params (key, value) =
      let name = map to_ascii_lowercase key in
      if name == text "secret"
      then with_secret params (lenient_base32 value)
      else if name == text "algorithm"
      then with_algorithm params (algorithm_named (map to_ascii_uppercase value))
      else if name == text "digits"
      then with_digits params (in_range 6 8 (parse_uint max_u32 value))
      else if name == text "period"
      then with_period params (in_range 1 300 (parse_uint max_u64 value))
      else some params

  unfoldable pub set_pairs : Option Params → List Text → Option Params
  unfolding set_pair
  set_pairs none pairs = none
  set_pairs (some params) [] = some params
  set_pairs (some params) (pair ∷ pairs) =
      set_pairs (set_pair params (key_and_value pair (split_once b'=' pair))) pairs

  abbrev pub of_query : Option (Text × Text) → Option Params
  of_query none = none
  of_query (some (label, query)) =
      with_any_secret (set_pairs (some (usual [])) (split_by (λ c. c =? b'&') query))

  abbrev pub of_link : Text → Option Text → Option Params
  of_link s none = usual_if (lenient_base32 s)
  of_link s (some rest) = of_query (split_once b'?' rest)

  unfoldable pub parse : Text → Option Params
  unfolding set_pairs strip_prefix_ignore_case
  parse s = of_link (trim s) (strip_prefix_ignore_case (trim s) totp_prefix)
