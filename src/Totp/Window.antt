-- ===== src/Totp/Window.antt =====
-- Which codes `step` accepts: those of the step of the time, of the one before and of the one after.
use remotehub.Base.{
  ℕ, ◌+◌, ◌-◌, ◌/◌, ◌≤◌, true, Option, none, some, List, [], ◌∷◌, inl, inr, arith, ◌≡◌, ◌≢◌, refl,
  ap, ◌∙◌, if◌then◌else◌, ◌=?◌, length, Bool-cases, Memᴰ,
}
use mathlib.Core.List.Memᴰ
use remotehub.Base.Bits.{bit_or, bit_xor, bit_or-zero, bit_xor-zero, bit_xor_self, zero-bit_or}
use remotehub.Base.Text.{Text}
use remotehub.Totp.{Algorithm, code_period, differences, same_code, code, match_or, find_step, step}
use remotehub.Totp.Code.{code-some}

differences_start : (acc : ℕ) (s t : List ℕ) → differences acc s t ≡ 0 → acc ≡ 0
differences_start acc [] t h = h
differences_start acc (a ∷ s) [] h = h
differences_start acc (a ∷ s) (b ∷ t) h =
    (bit_or-zero acc (bit_xor a b) (differences_start (bit_or acc (bit_xor a b)) s t h)).0

differences-zero : (acc : ℕ) (s t : List ℕ) → length s ≡ length t → differences acc s t ≡ 0 → s ≡ t
differences-zero acc [] [] l h = refl
differences-zero acc [] (b ∷ t) l h = absurd (omega arith)
differences-zero acc (a ∷ s) [] l h = absurd (omega arith)
differences-zero acc (a ∷ s) (b ∷ t) l h =
    let d = bit_or-zero acc (bit_xor a b) (differences_start (bit_or acc (bit_xor a b)) s t h) in
    let e : a ≡ b = bit_xor-zero a b d.1 in
    let rest : s ≡ t = differences-zero (bit_or acc (bit_xor a b)) s t (omega arith) h in
    rw (e, rest) refl

differences_self : (s : List ℕ) → differences 0 s s ≡ 0
differences_self [] = refl
differences_self (a ∷ s) = rw (bit_xor_self a, zero-bit_or 0) (differences_self s)

pub same_code-eq : (s t : List ℕ) → same_code s t ≡ true → s ≡ t
unfolding same_code
same_code-eq s t h = differences-zero 0 s t (ground arith) (ground arith)

pub same_code_self : (s : List ℕ) → same_code s s ≡ true
unfolding same_code
same_code_self s = ground (arith, differences_self s)

-- The steps whose codes are accepted at a time.
abbrev pub window : ℕ → List ℕ
window unix_seconds =
    (unix_seconds / code_period)
    ∷ (unix_seconds / code_period - 1)
    ∷ (unix_seconds / code_period + 1)
    ∷ []

near : (t u : ℕ) → t ≤ u + code_period → u ≤ t + code_period → Memᴰ (t / code_period) (window u)
near t u before after = elim (Bool-cases (t / code_period =? u / code_period)) [
  | inl same ↦ Memᴰ.head (ground arith)
  | inr n ↦ elim (Bool-cases (t / code_period =? u / code_period - 1)) [
    | inl earlier ↦ Memᴰ.tail (Memᴰ.head (ground arith))
    | inr m ↦ Memᴰ.tail (Memᴰ.tail (Memᴰ.head (ground arith)))
  ]
]

module _ (mac : Algorithm → List ℕ → List ℕ → List ℕ) where
  pub NoneOf : List ℕ → List ℕ → List ℕ → Type 0
  NoneOf secret given [] = given ≡ given
  NoneOf secret given (s ∷ steps) = (code mac secret s ≢ some given) × NoneOf secret given steps

  -- What an answer says of the codes of the steps asked for.
  unfoldable pub Answers : List ℕ → List ℕ → List ℕ → Option (Option ℕ) → Type 0
  Answers secret given steps none = (s : ℕ) × Memᴰ s steps × (code mac secret s ≡ none)
  Answers secret given steps (some none) = NoneOf secret given steps
  Answers secret given steps (some (some s)) = Memᴰ s steps × (code mac secret s ≡ some given)

  passed_on :
      (secret given : List ℕ) (s : ℕ) (steps : List ℕ) (o : Option (Option ℕ))
      → (code mac secret s ≢ some given)
      → Answers secret given steps o
      → Answers secret given (s ∷ steps) o
  unfolding Answers NoneOf
  passed_on secret given s steps none differs (r, m, e) = (r, Memᴰ.tail m, e)
  passed_on secret given s steps (some none) differs h = (differs, h)
  passed_on secret given s steps (some (some r)) differs (m, e) = (Memᴰ.tail m, e)

  other :
      (c given : Text) (s : ℕ) (secret : List ℕ)
      → code mac secret s ≡ some c
      → code mac secret s ≡ some given
      → c ≡ given
  other c given s secret e same = cc

  match_or-Answers :
      (secret given : List ℕ) (s : ℕ) (steps : List ℕ) (o : Option Text) (rest : Option (Option ℕ))
      → code mac secret s ≡ o
      → Answers secret given steps rest
      → Answers secret given (s ∷ steps) (match_or mac s given o rest)
  unfolding Answers
  match_or-Answers secret given s steps none rest e h = (s, Memᴰ.head refl, e)
  match_or-Answers secret given s steps (some c) rest e h = elim (Bool-cases (same_code c given)) [
    | inl y ↦ rw (y, if◌then◌else◌) (Memᴰ.head refl, e ∙ ap some (same_code-eq c given y))
    | inr n ↦
        rw (n, if◌then◌else◌)
          (passed_on secret given s steps rest
            (λ same. cc (n, other c given s secret e same, same_code_self given)) h)
  ]

  find_step-Answers :
      (secret given steps : List ℕ) → Answers secret given steps (find_step mac secret given steps)
  unfolding find_step Answers NoneOf
  find_step-Answers secret given [] = refl
  find_step-Answers secret given (s ∷ steps) =
      match_or-Answers secret given s steps (code mac secret s) (find_step mac secret given steps)
        refl (find_step-Answers secret given steps)

  -- The answer at a time, whatever the length of the digests: an accepted code is that of the
  -- accepted step, which is the time's, the one before or the one after; a refused code is that of
  -- none of the three; and without an answer one of the three has no code.
  pub step-Answers :
      (secret given : List ℕ) (unix_seconds : ℕ)
      → Answers secret given (window unix_seconds) (step mac secret given unix_seconds)
  unfolding step
  step-Answers secret given unix_seconds = find_step-Answers secret given (window unix_seconds)

  none_of :
      (secret given : List ℕ) (s : ℕ) (steps : List ℕ)
      → Memᴰ s steps
      → NoneOf secret given steps
      → (code mac secret s ≢ some given)
  unfolding NoneOf
  none_of secret given s [] m h = absurd (Memᴰ.not-nil m)
  none_of secret given s (r ∷ steps) (Memᴰ.head e) h = rw e (h.0)
  none_of secret given s (r ∷ steps) (Memᴰ.tail m) h = none_of secret given s steps m h.1

  accepted_of :
      (secret given : List ℕ) (s : ℕ) (steps : List ℕ) (o : Option (Option ℕ))
      → ((r : ℕ) → (c : Text) × (code mac secret r ≡ some c))
      → Memᴰ s steps
      → code mac secret s ≡ some given
      → Answers secret given steps o
      → (r : ℕ) × (o ≡ some (some r))
  unfolding Answers
  accepted_of secret given s steps none total m e (r, n, p) =
      let (c, q) = total r in absurd (cc (p, q))
  accepted_of secret given s steps (some none) total m e h =
      absurd (none_of secret given s steps m h e)
  accepted_of secret given s steps (some (some r)) total m e h = (r, refl)

module _ (mac : Algorithm → List ℕ → List ℕ → List ℕ)
    (long : (a : Algorithm) (key message : List ℕ) → 20 ≤ length (mac a key message)) where
  -- With digests of at least 20 bytes, the code of a time is accepted up to 30 seconds before that
  -- time and up to 30 seconds after it.
  pub step_drift :
      (secret given : List ℕ) (t u : ℕ)
      → code mac secret (t / code_period) ≡ some given
      → t ≤ u + code_period
      → u ≤ t + code_period
      → (s : ℕ) × (step mac secret given u ≡ some (some s))
  step_drift secret given t u e before after =
      accepted_of mac secret given (t / code_period) (window u) (step mac secret given u)
        (code-some mac long secret) (near t u before after) e (step-Answers mac secret given u)
