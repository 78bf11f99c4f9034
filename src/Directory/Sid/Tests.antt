-- ===== src/Directory/Sid/Tests.antt =====
-- The identifier of a group of domain administrators, and one with more parts than it may have.
use remotehub.Base.{ℕ, none, some, List, [], ◌∷◌, if◌then◌else◌, leb, ◌≡◌, refl}
use remotehub.Base.Text.{text}
use remotehub.Base.Decimal.{show}
use remotehub.Directory.Sid.{
  big_endian, sub_authorities, push_subs, of_rest, from_bytes, to_bytes, parse,
}
use remotehub.Directory.Sid.RoundTrip.{sub_count, to_bytes-from_bytes, parse-from_bytes}

abbrev domain_admins : List ℕ
domain_admins = 1 ∷ 2 ∷ 0 ∷ 0 ∷ 0 ∷ 0 ∷ 0 ∷ 5 ∷ 21 ∷ 0 ∷ 0 ∷ 0 ∷ 0 ∷ 2 ∷ 0 ∷ 0 ∷ []

from_bytes_test : from_bytes domain_admins ≡ some (text "S-1-5-21-512")
unfolding from_bytes of_rest big_endian sub_authorities push_subs show
from_bytes_test = refl

to_bytes-from_bytes_example : to_bytes (text "S-1-5-21-512") ≡ domain_admins
to_bytes-from_bytes_example =
    to_bytes-from_bytes domain_admins (text "S-1-5-21-512") refl from_bytes_test

parse-from_bytes_example :
    parse (text "S-1-5-21-512")
    ≡ (if leb (sub_count domain_admins) 15 then some (text "S-1-5-21-512") else none)
parse-from_bytes_example = parse-from_bytes domain_admins (text "S-1-5-21-512") refl from_bytes_test

parse_tests :
    (parse (text "S-1") ≡ none)
    × (parse (text "S-1-5-4294967296") ≡ none)
    × (parse (text "S-1-5-x") ≡ none)
    × (parse (text "S-1-+5") ≡ some (text "S-1-+5"))
unfolding parse
parse_tests = (refl, refl, refl, refl)
