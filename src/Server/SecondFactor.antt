-- ===== src/Server/SecondFactor.antt =====
-- The authenticator apps of crates/server/src/second_factor.rs: whether a code is right, and that it is
-- used up. The secrets are what the sealed fields open to; the message authentication code is that of
-- the one-time codes. Security keys are no part of the model.
pub mod Once
mod Tests
use remotehub.Base.{
  ℕ, suc, ◌+◌, ◌-◌, ◌^◌, Bool, true, false, ◌&&◌, not, Option, none, some, List, [], ◌∷◌, ◌++◌,
  if◌then◌else◌, leb, ltb, ◌=?◌, any, find, filter, length,
}
use remotehub.Base.Result.{Result}
use remotehub.Base.Text.{Text, trim}
use remotehub.Base.Utf8.{to_utf8}
use remotehub.Totp.{Algorithm, step}
use remotehub.Totp.Link.{decode}

-- A row of `second_factors`.
pub record Factor : Type 0 where
  pub user_id : ℕ
  pub totp_version : ℕ
  pub last_totp_step : ℕ

-- A row of `secret_fields` with the field `totp`, opened.
pub record Secret : Type 0 where
  pub owner : ℕ
  pub version : ℕ
  pub bytes : List ℕ

pub data FactorError : Type 0 where
  internal : FactorError
  invalid_secret : FactorError
  panicked : FactorError

abbrev pub is_of : ℕ → Factor → Bool
is_of user f = f.user_id =? user

-- `i64::try_from(step).unwrap_or(i64::MAX)`
abbrev pub as_i64 : ℕ → ℕ
as_i64 at = if ltb at (2 ^ 63) then at else 2 ^ 63 - 1

abbrev pub secret_bytes_of : Option Secret → Option (List ℕ)
secret_bytes_of none = none
secret_bytes_of (some s) = some s.bytes

abbrev pub load_secret : List Secret → ℕ → ℕ → Option (List ℕ)
load_secret secrets user version =
    secret_bytes_of (find (λ s. (s.owner =? user) && (s.version =? version)) secrets)

abbrev pub is_newer : ℕ → ℕ → Factor → Bool
is_newer user at f = is_of user f && ltb f.last_totp_step (as_i64 at)

abbrev pub used_step : ℕ → Factor → Factor
used_step at f = record f { last_totp_step = as_i64 at }

abbrev pub use_up : ℕ → ℕ → List Factor → List Factor
use_up user at [] = []
use_up user at (f ∷ rows) = (if is_newer user at f then used_step at f else f) ∷ use_up user at rows

-- The rest of `verify`, by what `totp::step` says.
abbrev pub used : List Factor → ℕ → Option (Option ℕ) → List Factor × Result FactorError Bool
used rows user none = (rows, Result.err FactorError.panicked)
used rows user (some none) = (rows, Result.ok false)
used rows user (some (some s)) =
    (use_up user s rows, Result.ok (length (filter (is_newer user s) rows) =? 1))

abbrev pub max_version : ℕ → List Secret → ℕ
max_version user [] = 0
max_version user (s ∷ secrets) =
    let rest = max_version user secrets in
    if (s.owner =? user) && ltb rest s.version then s.version else rest

-- `INSERT … ON CONFLICT (user_id) DO UPDATE`; the order of the rows means nothing.
abbrev pub set_up : ℕ → ℕ → ℕ → List Factor → List Factor
set_up user version at rows =
    filter (λ f. not (is_of user f)) rows
    ++ record { user_id = user; totp_version = version; last_totp_step = as_i64 at } ∷ []

pub record Enrolled : Type 0 where
  pub factors : List Factor
  pub secrets : List Secret

-- `remove`, and whether there was a row.
unfoldable pub remove : List Factor → ℕ → List Factor × Bool
remove rows user = (filter (λ f. not (is_of user f)) rows, length (filter (is_of user) rows) =? 1)

module _ (mac : Algorithm → List ℕ → List ℕ → List ℕ)
    (base32_decode : List ℕ → Option (List ℕ)) where
  abbrev pub with_secret :
      List Factor → ℕ → Text → ℕ → Option (List ℕ) → List Factor × Result FactorError Bool
  with_secret rows user code unix_seconds none = (rows, Result.err FactorError.internal)
  with_secret rows user code unix_seconds (some secret) =
      used rows user (step mac secret (to_utf8 (trim code)) unix_seconds)

  abbrev pub with_factor :
      List Factor
      → List Secret
      → ℕ
      → Text
      → ℕ
      → Option Factor
      → List Factor × Result FactorError Bool
  with_factor rows secrets user code unix_seconds none = (rows, Result.ok false)
  with_factor rows secrets user code unix_seconds (some f) =
      with_secret rows user code unix_seconds (load_secret secrets user f.totp_version)

  unfoldable pub verify :
      List Factor → List Secret → ℕ → Text → ℕ → List Factor × Result FactorError Bool
  verify rows secrets user code unix_seconds =
      with_factor rows secrets user code unix_seconds (find (is_of user) rows)

  abbrev pub enroll_at :
      Enrolled → ℕ → List ℕ → Option (Option ℕ) → Enrolled × Result FactorError Bool
  enroll_at state user secret none = (state, Result.err FactorError.panicked)
  enroll_at state user secret (some none) = (state, Result.ok false)
  enroll_at state user secret (some (some s)) =
      let version = suc (max_version user state.secrets) in
      (
        record {
          factors = set_up user version s state.factors;
          secrets =
              state.secrets ++ record { owner = user; version = version; bytes = secret } ∷ [];
        },
        Result.ok true,
      )

  abbrev pub enroll_with :
      Enrolled → ℕ → Text → ℕ → Option (List ℕ) → Enrolled × Result FactorError Bool
  enroll_with state user code unix_seconds none = (state, Result.err FactorError.invalid_secret)
  enroll_with state user code unix_seconds (some secret) =
      enroll_at state user secret (step mac secret (to_utf8 (trim code)) unix_seconds)

  unfoldable pub enroll : Enrolled → ℕ → Text → Text → ℕ → Enrolled × Result FactorError Bool
  unfolding decode
  enroll state user secret code unix_seconds =
      enroll_with state user code unix_seconds (decode base32_decode secret)
