-- ===== src/Directory/Sid/Parts.antt =====
-- The text of a security identifier, split into its numbers (crates/directory/src/sid.rs).
use mathlib.Core.List.{append-nil}
use remotehub.Base.{
  ℕ, true, false, List, [], ◌∷◌, ◌++◌, map, if◌then◌else◌, leb, all, length, arith, ◌≡◌, refl, ap,
  ◌∙◌,
}
use remotehub.Base.Text.{Text, text, text_eq, split_by, onto_first, is_digit}
use remotehub.Base.Decimal.{show, show-all, parse_uint-show}
use remotehub.Directory.Sid.{max_u32, push_subs, sid_text, is_dash, read_subs, is_sub}

-- Characters before the parts of a split text.
abbrev pub onto_all : Text → List Text → List Text
onto_all [] parts = parts
onto_all (c ∷ s) parts = onto_first c (onto_all s parts)

pub onto_all-first : (s t : Text) (parts : List Text) → onto_all s (t ∷ parts) ≡ (s ++ t) ∷ parts
onto_all-first [] t parts = refl
onto_all-first (c ∷ s) t parts = rw (onto_all-first s t parts) refl

pub split-digits :
    (s t : Text)
    → all is_digit s ≡ true
    → split_by is_dash (s ++ t) ≡ onto_all s (split_by is_dash t)
unfolding split_by
split-digits [] t h = refl
split-digits (c ∷ s) t h =
    let rest = split-digits s t (ground (arith, h)) in
    let digit : is_dash c ≡ false = ground (arith, h) in rw (digit, rest, if◌then◌else◌) refl

pub split-number :
    (n : ℕ) (subs : List ℕ) → split_by is_dash (show n ++ push_subs subs) ≡ show n ∷ map show subs
unfolding push_subs split_by
split-number n [] =
    split-digits (show n) [] (show-all n)
    ∙ (onto_all-first (show n) [] [] ∙ rw (append-nil (show n)) refl)
split-number n (s ∷ ss) =
    split-digits (show n) (b'-' ∷ (show s ++ push_subs ss)) (show-all n)
    ∙ rw (split-number s ss)
        (onto_all-first (show n) [] (map show (s ∷ ss)) ∙ rw (append-nil (show n)) refl)

pub split-start :
    (r : Text)
    → split_by is_dash (b'S' ∷ (b'-' ∷ (b'1' ∷ (b'-' ∷ r))))
      ≡ text "S" ∷ text "1" ∷ split_by is_dash r
unfolding split_by
split-start r = refl

pub show-one : show 1 ≡ b'1' ∷ []
unfolding show
show-one = refl

pub split-sid :
    (authority : ℕ) (subs : List ℕ)
    → split_by is_dash (sid_text 1 authority subs)
      ≡ text "S" ∷ text "1" ∷ show authority ∷ map show subs
split-sid authority subs = rw show-one (
    split-start (show authority ++ push_subs subs)
    ∙ ap (λ parts. text "S" ∷ text "1" ∷ parts) (split-number authority subs))

pub read_subs-show :
    (subs : List ℕ) → all (λ s. leb s max_u32) subs ≡ true → read_subs (map show subs) ≡ subs
unfolding read_subs
read_subs-show [] h = refl
read_subs-show (s ∷ ss) h =
    rw (parse_uint-show max_u32 s (ground (arith, h)), read_subs-show ss (ground (arith, h))) refl

pub all-is_sub :
    (subs : List ℕ)
    → all (λ s. leb s max_u32) subs ≡ true
    → (all is_sub (map show subs) ≡ true) × (length (map show subs) ≡ length subs)
all-is_sub [] h = (refl, refl)
all-is_sub (s ∷ ss) h =
    let (each, size) = all-is_sub ss (ground (arith, h)) in
    (rw (parse_uint-show max_u32 s (ground (arith, h)), each) refl, omega (arith, size))
