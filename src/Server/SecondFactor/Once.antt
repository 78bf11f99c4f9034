-- ===== src/Server/SecondFactor/Once.antt =====
-- Each code works once.
use remotehub.Base.{
  ℕ, ◌≤◌, ◌<◌, Bool, true, false, Option, none, some, List, [], ◌∷◌, inl, inr, arith, ◌≡◌, refl,
  sym, ap, subst, ◌∙◌, if◌then◌else◌, ltb, ◌=?◌, find, filter, length, Bool-cases, Memᴰ,
}
use remotehub.Base.Result.{Result}
use remotehub.Base.Text.{Text, trim}
use remotehub.Base.Utf8.{to_utf8}
use remotehub.Totp.{Algorithm, code, step}
use remotehub.Totp.Window.{Answers, window, step-Answers}
use remotehub.Server.SecondFactor.{
  Factor, Secret, FactorError, is_of, as_i64, load_secret, is_newer, use_up, used, with_secret,
  with_factor, verify,
}

abbrev pub last_of : Option Factor → ℕ
last_of none = 0
last_of (some f) = f.last_totp_step

-- The step of the user's last code.
abbrev pub last_step : ℕ → List Factor → ℕ
last_step user rows = last_of (find (is_of user) rows)

abbrev pub rows_of : ℕ → List Factor → ℕ
rows_of user rows = length (filter (is_of user) rows)

use_up-none :
    (user s : ℕ) (rows : List Factor)
    → rows_of user rows ≡ 0
    → (use_up user s rows ≡ rows) × (filter (is_newer user s) rows ≡ [])
use_up-none user s [] h = (refl, refl)
use_up-none user s (f ∷ rows) h = ground (arith, use_up-none user s rows)

-- With one row of the user, a step is taken exactly if it is newer, and then it is the last one.
use_up-one :
    (user s : ℕ) (rows : List Factor)
    → rows_of user rows ≡ 1
    → (length (filter (is_newer user s) rows)
        ≡ (if ltb (last_step user rows) (as_i64 s) then 1 else 0))
      × (last_step user (use_up user s rows)
          ≡ (if ltb (last_step user rows) (as_i64 s) then as_i64 s else last_step user rows))
      × (rows_of user (use_up user s rows) ≡ 1)
use_up-one user s [] h = absurd (omega arith)
use_up-one user s (f ∷ rows) h = elim (Bool-cases (is_of user f)) [
  | inl y ↦
      let (same, empty) = use_up-none user s rows (ground arith) in
      elim (Bool-cases (ltb f.last_totp_step (as_i64 s))) [
        | inl newer ↦
            rw (y, newer, if◌then◌else◌, y, same, empty) (refl, refl, rw (y, if◌then◌else◌) at h)
        | inr older ↦
            rw (y, older, if◌then◌else◌, y, same, empty) (refl, refl, rw (y, if◌then◌else◌) at h)
      ]
  | inr n ↦ rw (n, if◌then◌else◌, n) (use_up-one user s rows (ground arith))
]

abbrev Rows : Type 0
Rows = List Factor × Result FactorError Bool

-- What a check leaves: one row of the user, and a last step that is not earlier.
Keeps : ℕ → List Factor → Rows → Type 0
Keeps user rows o = (rows_of user o.0 ≡ 1) × (last_step user rows ≤ last_step user o.0)

used-Keeps :
    (rows : List Factor) (user : ℕ) (o : Option (Option ℕ))
    → rows_of user rows ≡ 1
    → Keeps user rows (used rows user o)
unfolding Keeps
used-Keeps rows user none h = (h, omega arith)
used-Keeps rows user (some none) h = (h, omega arith)
used-Keeps rows user (some (some s)) h =
    let (counted, last, one) = use_up-one user s rows h in (one, ground arith)

ok-true : (b : Bool) → ◌≡◌ {A = Result FactorError Bool} (Result.ok b) (Result.ok true) → b ≡ true
ok-true b h = cc

if_newer : (last s n : ℕ) → n ≡ (if ltb last s then 1 else 0) → (n =? 1) ≡ true → ltb last s ≡ true
if_newer last s n e h = ground arith

as_i64_strict : (s r : ℕ) → as_i64 s < as_i64 r → s < r
as_i64_strict s r h = ground arith

module _ (mac : Algorithm → List ℕ → List ℕ → List ℕ) (base32_decode : List ℕ → Option (List ℕ))
    (secrets : List Secret) (user : ℕ) where
  with_factor-Keeps :
      (rows : List Factor) (given : Text) (t : ℕ) (o : Option Factor)
      → rows_of user rows ≡ 1
      → Keeps user rows (with_factor mac base32_decode rows secrets user given t o)
  unfolding Keeps
  with_factor-Keeps rows given t none h = (h, omega arith)
  with_factor-Keeps rows given t (some f) h = of_secret (load_secret secrets user f.totp_version)
    where
      of_secret :
          (o : Option (List ℕ))
          → Keeps user rows (with_secret mac base32_decode rows user given t o)
      of_secret none = (h, omega arith)
      of_secret (some secret) = used-Keeps rows user (step mac secret (to_utf8 (trim given)) t) h

  -- Codes that are checked one after the other, each at its time.
  unfoldable pub checks : List Factor → List (Text × ℕ) → List Factor
  checks rows [] = rows
  checks rows ((given, t) ∷ rest) =
      checks (verify mac base32_decode rows secrets user given t).0 rest

  checks-last :
      (rows : List Factor) (attempts : List (Text × ℕ))
      → rows_of user rows ≡ 1
      → (rows_of user (checks rows attempts) ≡ 1)
        × (last_step user rows ≤ last_step user (checks rows attempts))
  unfolding checks verify Keeps
  checks-last rows [] h = (h, omega arith)
  checks-last rows ((given, t) ∷ rest) h =
      let (one, later) = with_factor-Keeps rows given t (find (is_of user) rows) h in
      let (kept, last) =
        checks-last (verify mac base32_decode rows secrets user given t).0 rest one in
      (kept, omega arith)

  -- A code that is accepted: of which secret and step it is, and that the step is used up.
  pub Accepted : List Factor → Text → ℕ → List Factor → ℕ → Type 0
  Accepted rows given t more s =
      (secret : List ℕ) × Memᴰ s (window t)
      × (code mac secret s ≡ some (to_utf8 (trim given)))
      × (last_step user rows < as_i64 s)
      × (last_step user more ≡ as_i64 s)

  used-Accepted :
      (rows more : List Factor) (given : Text) (t : ℕ) (secret : List ℕ) (o : Option (Option ℕ))
      → rows_of user rows ≡ 1
      → Answers mac secret (to_utf8 (trim given)) (window t) o
      → used rows user o ≡ (more, Result.ok true)
      → (s : ℕ) × Accepted rows given t more s
  unfolding Accepted Answers
  used-Accepted rows more given t secret none h a e =
      let bad : Result.err FactorError.panicked ≡ Result.ok true = ap (λ o. o.1) e in cc
  used-Accepted rows more given t secret (some none) h a e =
      let bad : Result.ok false ≡ Result.ok true = ap (λ o. o.1) e in cc
  used-Accepted rows more given t secret (some (some s)) h a e =
      let (counted, last, one) = use_up-one user s rows h in
      let newer : ltb (last_step user rows) (as_i64 s) ≡ true =
        if_newer (last_step user rows) (as_i64 s) (length (filter (is_newer user s) rows)) counted
          (ok-true _ (ap (λ o. o.1) e)) in
      (
        s,
        (
          secret,
          a.0,
          a.1,
          ground arith,
          ap (λ o. last_step user o.0) (sym e) ∙ (last ∙ rw newer refl),
        ),
      )

  with_factor-Accepted :
      (rows more : List Factor) (given : Text) (t : ℕ) (o : Option Factor)
      → rows_of user rows ≡ 1
      → with_factor mac base32_decode rows secrets user given t o ≡ (more, Result.ok true)
      → (s : ℕ) × Accepted rows given t more s
  with_factor-Accepted rows more given t none h e =
      let bad : Result.ok false ≡ Result.ok true = ap (λ o. o.1) e in cc
  with_factor-Accepted rows more given t (some f) h e =
      of_secret (load_secret secrets user f.totp_version) e
    where
      of_secret :
          (o : Option (List ℕ))
          → with_secret mac base32_decode rows user given t o ≡ (more, Result.ok true)
          → (s : ℕ) × Accepted rows given t more s
      of_secret none e =
          let bad : Result.err FactorError.internal ≡ Result.ok true = ap (λ o. o.1) e in cc
      of_secret (some secret) e =
          used-Accepted rows more given t secret (step mac secret (to_utf8 (trim given)) t) h
            (step-Answers mac secret (to_utf8 (trim given)) t) e

  -- Of two codes of a user that are accepted, whatever was checked in between, the second one is of a
  -- later step than the first, so that no step is used twice: each is the code of its step, which is
  -- within one step of its time. The user has one row.
  pub later_step :
      (rows more last : List Factor) (first second : Text) (t u : ℕ) (attempts : List (Text × ℕ))
      → rows_of user rows ≡ 1
      → verify mac base32_decode rows secrets user first t ≡ (more, Result.ok true)
      → verify mac base32_decode (checks more attempts) secrets user second u
        ≡ (last, Result.ok true)
      → (s r : ℕ) × Accepted rows first t more s
        × Accepted (checks more attempts) second u last r
        × (s < r)
  unfolding verify Accepted Keeps
  later_step rows more last first second t u attempts h e f =
      let one = (with_factor-Keeps rows first t (find (is_of user) rows) h).0 in
      let one_more : rows_of user more ≡ 1 = subst (λ o. rows_of user o.0 ≡ 1) e one in
      let (kept, on) = checks-last more attempts one_more in
      let (s, accepted) = with_factor-Accepted rows more first t (find (is_of user) rows) h e in
      let (r, again) =
        with_factor-Accepted (checks more attempts) last second u
          (find (is_of user) (checks more attempts)) kept f in
      let (secret, within, is_code, newer, is_last) = accepted in
      let (secret2, within2, is_code2, newer2, is_last2) = again in
      (s, r, accepted, again, as_i64_strict s r (omega (arith, on, is_last, newer2)))
