-- ===== src/Server/SecondFactor/Tests.antt =====
-- A user whose app has a toy's code, and who uses the code of step 3, then of step 4.
use mathlib.Core.List.{reverse}
use remotehub.Base.{ℕ, ◌<◌, true, false, Option, none, List, [], ◌∷◌, ◌++◌, ◌≡◌, refl}
use remotehub.Base.Result.{Result}
use remotehub.Base.Text.{Text, text, trim}
use remotehub.Base.Decimal.{show, digits_from}
use remotehub.Base.Utf8.{to_utf8}
use remotehub.Totp.{
  Algorithm, zeros, zero_padded, truncate, four, code_of, same_code, code, find_step, step,
}
use remotehub.Server.SecondFactor.{Factor, Secret, FactorError, verify}
use remotehub.Server.SecondFactor.Once.{Accepted, checks, later_step}

abbrev toy_mac : Algorithm → List ℕ → List ℕ → List ℕ
toy_mac a key message = reverse message ++ (key ++ zeros 20)

abbrev no_base32 : List ℕ → Option (List ℕ)
no_base32 s = none

abbrev alice : ℕ → Factor
alice last = record { user_id = 1; totp_version = 2; last_totp_step = last }

abbrev bob : Factor
bob = record { user_id = 5; totp_version = 1; last_totp_step = 0 }

abbrev rows : ℕ → List Factor
rows last = bob ∷ alice last ∷ []

abbrev secrets : List Secret
secrets =
    record { owner = 1; version = 1; bytes = text "old" }
    ∷ record { owner = 1; version = 2; bytes = text "new" }
    ∷ []

verify_tests :
    (verify toy_mac no_base32 (rows 0) secrets 1 (text " 331648 ") 100 ≡ (rows 3, Result.ok true))
    × (verify toy_mac no_base32 (rows 3) secrets 1 (text "331648") 100 ≡ (rows 3, Result.ok false))
    × (verify toy_mac no_base32 (rows 3) secrets 1 (text "108864") 100 ≡ (rows 4, Result.ok true))
    × (verify toy_mac no_base32 (rows 3) secrets 2 (text "108864") 100 ≡ (rows 3, Result.ok false))
    × (verify toy_mac no_base32 (rows 3) secrets 5 (text "108864") 100
        ≡ (rows 3, Result.err FactorError.internal))
unfolding verify trim to_utf8 step find_step same_code code code_of truncate four zero_padded show
    digits_from
verify_tests = (refl, refl, refl, refl, refl)

abbrev between : List (Text × ℕ)
between = (text "331648", 100) ∷ []

between_test : checks toy_mac no_base32 secrets 1 (rows 3) between ≡ rows 3
unfolding checks verify trim to_utf8 step find_step same_code code code_of truncate four zero_padded
    show digits_from
between_test = refl

later_step_example :
    (s r : ℕ) × Accepted toy_mac no_base32 secrets 1 (rows 0) (text " 331648 ") 100 (rows 3) s
    × Accepted toy_mac no_base32 secrets 1
        (checks toy_mac no_base32 secrets 1 (rows 3) between)
        (text "108864")
        100
        (rows 4)
        r
    × (s < r)
later_step_example =
    later_step toy_mac no_base32 secrets 1 (rows 0) (rows 3) (rows 4) (text " 331648 ")
      (text "108864") 100 100 between refl verify_tests.0 (rw between_test verify_tests.2)
