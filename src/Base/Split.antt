-- ===== src/Base/Split.antt =====
-- `split` and `trim` on a text that is put together from parts.
use mathlib.Core.List.{reverse, reverse-append, reverse-reverse}
use remotehub.Base.{
  ℕ, Bool, true, false, not, [], ◌∷◌, ◌++◌, arith, ◌≡◌, refl, ap, sym, ◌∙◌, if◌then◌else◌, all,
}
use remotehub.Base.Text.{Text, split_by, trim, trim_start_by, trim_end_by, is_whitespace}

-- A part without a separator is the first one.
pub split_by_part :
    (sep : ℕ → Bool) (s t : Text) (c : ℕ)
    → all (λ b. not (sep b)) s ≡ true
    → sep c ≡ true
    → split_by sep (s ++ c ∷ t) ≡ s ∷ split_by sep t
unfolding split_by
split_by_part sep [] t c h e = rw e refl
split_by_part sep (b ∷ s) t c h e =
    let b_no : sep b ≡ false = ground arith in
    rw (b_no, split_by_part sep s t c (ground arith) e) refl

pub split_by_last :
    (sep : ℕ → Bool) (s : Text) → all (λ b. not (sep b)) s ≡ true → split_by sep s ≡ s ∷ []
unfolding split_by
split_by_last sep [] h = refl
split_by_last sep (b ∷ s) h =
    let b_no : sep b ≡ false = ground arith in rw (b_no, split_by_last sep s (ground arith)) refl

trim_end-last :
    (s : Text) (d : ℕ)
    → is_whitespace d ≡ false
    → trim_end_by is_whitespace (s ++ d ∷ []) ≡ s ++ d ∷ []
trim_end-last s d hd =
    ap (λ r. reverse (trim_start_by is_whitespace r)) (reverse-append s (d ∷ []))
    ∙ rw (hd, if◌then◌else◌)
        (ap reverse (sym (reverse-append s (d ∷ []))) ∙ reverse-reverse (s ++ d ∷ []))

-- A text that neither begins nor ends with white space stays.
pub trim_both :
    (c d : ℕ) (s : Text)
    → is_whitespace c ≡ false
    → is_whitespace d ≡ false
    → trim (c ∷ (s ++ d ∷ [])) ≡ c ∷ (s ++ d ∷ [])
unfolding trim
trim_both c d s hc hd = rw (hc, if◌then◌else◌) (trim_end-last (c ∷ s) d hd)
