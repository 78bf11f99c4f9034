-- ===== src/Base/Utf8.antt =====
-- The bytes of a text as UTF-8, and `String::from_utf8`, which refuses what is not the encoding of a
-- text: a byte out of place, a longer form than needed, a surrogate.
use remotehub.Base.{
  ℕ, zero, suc, ◌+◌, ◌-◌, ◌*◌, ◌/◌, ◌%◌, ◌≤◌, ◌<◌, Bool, true, ◌&&◌, ◌||◌, Option, none, some, List,
  [], ◌∷◌, ◌++◌, arith, ◌≡◌, refl, ◌∙◌, if◌then◌else◌, leb, ltb, all,
}
use mathlib.Core.List.{append_assoc}
use remotehub.Base.{ap, sym}
use remotehub.Base.Text.{Text, within}

-- A `char`: a code point that is no surrogate.
abbrev pub is_char : ℕ → Bool
is_char c = ltb c 0xd800 || within 0xe000 0x10ffff c

-- The continuation byte with the six bits that stand before `low`.
abbrev pub tail_byte : ℕ → ℕ → ℕ
tail_byte c low = 0x80 + c / low % 64

abbrev pub encode_char : ℕ → List ℕ
encode_char c =
    if ltb c 0x80
    then c ∷ []
    else if ltb c 0x800
    then (0xc0 + c / 64) ∷ tail_byte c 1 ∷ []
    else if ltb c 0x1_0000
    then (0xe0 + c / 4096) ∷ tail_byte c 64 ∷ tail_byte c 1 ∷ []
    else (0xf0 + c / 262_144) ∷ tail_byte c 4096 ∷ tail_byte c 64 ∷ tail_byte c 1 ∷ []

-- `str::as_bytes`
unfoldable pub to_utf8 : Text → List ℕ
to_utf8 [] = []
to_utf8 (c ∷ s) = encode_char c ++ to_utf8 s

abbrev pub cons_if : Bool → ℕ → Option Text → Option Text
cons_if true c (some s) = some (c ∷ s)
cons_if _ c _ = none

-- What is read so far of a character: how many bytes are still to come, its bits, and the least code
-- point of its form.
unfoldable pub decode_from : ℕ → ℕ → ℕ → List ℕ → Option Text
decode_from zero bits least [] = some []
decode_from (suc more) bits least [] = none
decode_from zero bits least (b ∷ s) =
    let one = cons_if true b (decode_from 0 0 0 s) in
    let two = decode_from 1 (b - 0xc0) 0x80 s in
    let three = decode_from 2 (b - 0xe0) 0x800 s in
    let four = decode_from 3 (b - 0xf0) 0x1_0000 s in
    if ltb b 0x80
    then one
    else if within 0xc0 0xdf b
    then two
    else if within 0xe0 0xef b
    then three
    else if within 0xf0 0xf7 b
    then four
    else none
decode_from (suc zero) bits least (b ∷ s) =
    let c = bits * 64 + (b - 0x80) in
    let rest = cons_if (leb least c && is_char c) c (decode_from 0 0 0 s) in
    if within 0x80 0xbf b then rest else none
decode_from (suc (suc more)) bits least (b ∷ s) =
    let rest = decode_from (suc more) (bits * 64 + (b - 0x80)) least s in
    if within 0x80 0xbf b then rest else none

unfoldable pub from_utf8 : List ℕ → Option Text
unfolding decode_from
from_utf8 bytes = decode_from 0 0 0 bytes

decode-one :
    (c : ℕ) (s : List ℕ)
    → c < 0x80
    → decode_from 0 0 0 (c ∷ s) ≡ cons_if true c (decode_from 0 0 0 s)
unfolding decode_from
decode-one c s h = ground arith

decode-two :
    (c : ℕ) (s : List ℕ)
    → 0x80 ≤ c
    → c < 0x800
    → decode_from 0 0 0 ((0xc0 + c / 64) ∷ tail_byte c 1 ∷ s) ≡ cons_if true c (decode_from 0 0 0 s)
unfolding decode_from
decode-two c s l h =
    let value : (0xc0 + c / 64 - 0xc0) * 64 + (tail_byte c 1 - 0x80) ≡ c = omega arith in
    ground (arith, value)

decode-three :
    (c : ℕ) (s : List ℕ)
    → 0x800 ≤ c
    → c < 0x1_0000
    → is_char c ≡ true
    → decode_from 0 0 0 ((0xe0 + c / 4096) ∷ tail_byte c 64 ∷ tail_byte c 1 ∷ s)
      ≡ cons_if true c (decode_from 0 0 0 s)
unfolding decode_from
decode-three c s l h k =
    let value : ((0xe0 + c / 4096 - 0xe0) * 64 + (tail_byte c 64 - 0x80)) * 64
          + (tail_byte c 1 - 0x80)
        ≡ c =
      omega arith in
    rw value (ground arith)

decode-four :
    (c : ℕ) (s : List ℕ)
    → 0x1_0000 ≤ c
    → is_char c ≡ true
    → decode_from 0 0 0
        ((0xf0 + c / 262_144) ∷ tail_byte c 4096 ∷ tail_byte c 64 ∷ tail_byte c 1 ∷ s)
      ≡ cons_if true c (decode_from 0 0 0 s)
unfolding decode_from
decode-four c s l k =
    let value : (((0xf0 + c / 262_144 - 0xf0) * 64 + (tail_byte c 4096 - 0x80)) * 64
              + (tail_byte c 64 - 0x80))
            * 64
          + (tail_byte c 1 - 0x80)
        ≡ c =
      omega arith in
    rw value (ground arith)

decode-encode_char :
    (c : ℕ) (s : List ℕ)
    → is_char c ≡ true
    → decode_from 0 0 0 (encode_char c ++ s) ≡ cons_if true c (decode_from 0 0 0 s)
decode-encode_char c s h =
    ground (arith, decode-one c s, decode-two c s, decode-three c s, decode-four c s)

-- The bytes of a text are read back as the text.
pub from_utf8-to_utf8 : (s : Text) → all is_char s ≡ true → from_utf8 (to_utf8 s) ≡ some s
unfolding from_utf8 to_utf8 decode_from
from_utf8-to_utf8 [] h = refl
from_utf8-to_utf8 (c ∷ s) h =
    decode-encode_char c (to_utf8 s) (ground arith) ∙ rw (from_utf8-to_utf8 s (ground arith)) refl

pub to_utf8-append : (s t : Text) → to_utf8 (s ++ t) ≡ to_utf8 s ++ to_utf8 t
unfolding to_utf8
to_utf8-append [] t = refl
to_utf8-append (c ∷ s) t =
    ap (λ r. encode_char c ++ r) (to_utf8-append s t)
    ∙ sym (append_assoc (encode_char c) (to_utf8 s) (to_utf8 t))
