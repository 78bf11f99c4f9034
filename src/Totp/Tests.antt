-- ===== src/Totp/Tests.antt =====
-- A code in place of RFC 6238's, whose digest is the time step's bytes, the lowest first, and base32 that
-- stands for its own bytes.
use mathlib.Core.List.{reverse}
use remotehub.Base.{
  ℕ, ◌≤◌, none, some, Option, List, [], ◌++◌, arith, ◌≡◌, refl, length, length-append, all,
  if◌then◌else◌,
}
use remotehub.Base.Text.{Text, text, split_by, split_once, trim}
use remotehub.Base.Decimal.{show, digits_from, parse_uint, parse_digits, value_from}
use remotehub.Base.Utf8.{to_utf8}
use remotehub.Totp.{
  Algorithm, Params, zeros, zero_padded, truncate, four, code_of, same_code, code, find_step, step,
  code_at,
}
use remotehub.Totp.Code.{HoldsCode, code_at-HoldsCode}
use remotehub.Totp.Window.{Answers, window, step-Answers, step_drift}
use remotehub.Totp.Link.{
  uri, parse, set_pairs, set_pair, lenient_base32, algorithm_named, strip_prefix_ignore_case, usual,
}
use remotehub.Totp.RoundTrip.{is_base32, parse-uri}

abbrev toy_mac : Algorithm → List ℕ → List ℕ → List ℕ
toy_mac a key message = reverse message ++ (key ++ zeros 20)

toy_mac_long : (a : Algorithm) (key message : List ℕ) → 20 ≤ length (toy_mac a key message)
toy_mac_long a key message =
    omega (arith, length-append (reverse message) (key ++ zeros 20), length-append key (zeros 20))

-- Time 90 is of step 3: the first bytes are 3 0 0 0, and 3 * 2 ^ 24 is 50331648.
code_test : code toy_mac [] 3 ≡ some (text "331648")
unfolding code code_of truncate four zero_padded show digits_from
code_test = refl

code_at_test : code_at toy_mac (record (usual []) { digits = 8 }) 100 ≡ some (text "50331648", 20)
unfolding code_at code_of truncate four zero_padded show digits_from
code_at_test = refl

step_tests :
    (step toy_mac [] (text "331648") 60 ≡ some (some 3))
    × (step toy_mac [] (text "331648") 149 ≡ some (some 3))
    × (step toy_mac [] (text "331648") 59 ≡ some none)
    × (step toy_mac [] (text "331648") 150 ≡ some none)
    × (step toy_mac [] (text "31648") 90 ≡ some none)
unfolding step find_step same_code code code_of truncate four zero_padded show digits_from
step_tests = (refl, refl, refl, refl, refl)

code_at-HoldsCode_example :
    HoldsCode 8 30 100
      (toy_mac Algorithm.sha1 [])
      (code_at toy_mac (record (usual []) { digits = 8 }) 100)
code_at-HoldsCode_example =
    code_at-HoldsCode toy_mac toy_mac_long (record (usual []) { digits = 8 }) 100 (omega arith)
      (omega arith) (omega arith)

step-Answers_example :
    Answers toy_mac [] (text "331648") (window 60) (step toy_mac [] (text "331648") 60)
step-Answers_example = step-Answers toy_mac [] (text "331648") 60

step_drift_example : (s : ℕ) × (step toy_mac [] (text "331648") 62 ≡ some (some s))
step_drift_example =
    step_drift toy_mac toy_mac_long [] (text "331648") 90 62 code_test (omega arith) (omega arith)

abbrev toy_base32 : List ℕ → Option (List ℕ)
toy_base32 bytes = if all is_base32 bytes then some bytes else none

abbrev ten_bytes : Text
ten_bytes = text "JBSWY3DPEH"

abbrev link : Text
link = text " otpauth://totp/Shop:alice?secret=jbsw y3dp-eh==&digits=8&ALGORITHM=sha256&period=60 "

abbrev link_params : Params
link_params = record { secret = ten_bytes; algorithm = Algorithm.sha256; digits = 8; period = 60 }

parse_tests :
    (parse toy_base32 link ≡ some link_params)
    × (parse toy_base32 (text "jbsw y3dp eh") ≡ some (usual ten_bytes))
    × (parse toy_base32 (text "JBSWY3DPE") ≡ none)
    × (parse toy_base32 (text "otpauth://hotp/x?secret=JBSWY3DPEH&counter=1") ≡ none)
    × (parse toy_base32 (text "otpauth://totp/x?secret=JBSWY3DPEH&digits=9") ≡ none)
    × (parse toy_base32 (text "otpauth://totp/x?secret=JBSWY3DPEH&algorithm=MD5") ≡ none)
    × (parse toy_base32 (text "otpauth://totp/x?issuer=nothing") ≡ none)
unfolding parse set_pairs set_pair lenient_base32 algorithm_named strip_prefix_ignore_case split_by
    split_once trim to_utf8 parse_uint parse_digits value_from
parse_tests = (refl, refl, refl, refl, refl, refl, refl)

parse-uri_example :
    parse toy_base32 (uri (text "remotehub") (text "alice") ten_bytes) ≡ some (usual ten_bytes)
unfolding to_utf8
parse-uri_example =
    parse-uri toy_base32 (text "remotehub") (text "alice") ten_bytes ten_bytes refl refl
      (omega arith) refl refl
