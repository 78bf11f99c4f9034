-- ===== src/Directory/Sid.antt =====
-- crates/directory/src/sid.rs: security identifiers, as bytes and as text.
pub mod Parts
pub mod Bytes
pub mod RoundTrip
mod Tests
use remotehub.Base.{
  ℕ, suc, ◌+◌, ◌*◌, ◌/◌, ◌%◌, Bool, true, false, ◌&&◌, ◌||◌, not, Option, none, some, List, [], ◌∷◌,
  ◌++◌, if◌then◌else◌, leb, ltb, ◌=?◌, ◌==◌, all, is_empty, length,
}
use remotehub.Base.Text.{Text, text, text_eq, split_by}
use remotehub.Base.Decimal.{show, parse_uint}

abbrev pub max_u32 : ℕ
max_u32 = 4_294_967_295

abbrev pub max_u64 : ℕ
max_u64 = 18_446_744_073_709_551_615

-- The fold over the authority, of which six bytes fit in 64 bits: `acc << 8 | b`.
unfoldable pub big_endian : ℕ → List ℕ → ℕ
big_endian acc [] = acc
big_endian acc (b ∷ bs) = big_endian (acc * 256 + b) bs

-- `as_chunks::<4>` and `from_le_bytes`.
unfoldable pub sub_authorities : List ℕ → List ℕ
sub_authorities (a ∷ (b ∷ (c ∷ (d ∷ rest)))) =
    (a + 256 * (b + 256 * (c + 256 * d))) ∷ sub_authorities rest
sub_authorities other = []

unfoldable pub push_subs : List ℕ → Text
unfolding show
push_subs [] = []
push_subs (s ∷ ss) = b'-' ∷ (show s ++ push_subs ss)

abbrev pub sid_text : ℕ → ℕ → List ℕ → Text
sid_text revision authority subs =
    b'S' ∷ (b'-' ∷ (show revision ++ (b'-' ∷ (show authority ++ push_subs subs))))

-- The rest after revision and count, of which six bytes are the authority.
unfoldable pub of_rest : ℕ → ℕ → List ℕ → Option Text
unfolding big_endian sub_authorities push_subs
of_rest revision count (a ∷ (b ∷ (c ∷ (d ∷ (e ∷ (f ∷ subs)))))) =
    if not (revision =? 1) || not (length subs =? 4 * count)
    then none
    else some (sid_text revision (big_endian 0 (a ∷ b ∷ c ∷ d ∷ e ∷ f ∷ [])) (sub_authorities subs))
of_rest revision count other = none

unfoldable pub from_bytes : List ℕ → Option Text
unfolding of_rest
from_bytes (revision ∷ (count ∷ rest)) = of_rest revision count rest
from_bytes other = none

abbrev pub is_dash : ℕ → Bool
is_dash c = c =? b'-'

abbrev pub push_read : Option ℕ → List ℕ → List ℕ
push_read none subs = subs
push_read (some s) subs = s ∷ subs

-- `filter_map`
unfoldable pub read_subs : List Text → List ℕ
unfolding parse_uint
read_subs [] = []
read_subs (part ∷ parts) = push_read (parse_uint max_u32 part) (read_subs parts)

-- `to_be_bytes`, from the third byte on.
abbrev pub be_bytes : ℕ → List ℕ
be_bytes v =
    (v / 256 / 256 / 256 / 256 / 256 % 256)
    ∷ (v / 256 / 256 / 256 / 256 % 256)
    ∷ (v / 256 / 256 / 256 % 256)
    ∷ (v / 256 / 256 % 256)
    ∷ (v / 256 % 256)
    ∷ (v % 256)
    ∷ []

-- `to_le_bytes`
abbrev pub le_bytes : ℕ → List ℕ
le_bytes v = (v % 256) ∷ (v / 256 % 256) ∷ (v / 256 / 256 % 256) ∷ (v / 256 / 256 / 256 % 256) ∷ []

unfoldable pub push_le : List ℕ → List ℕ
push_le [] = []
push_le (s ∷ ss) = le_bytes s ++ push_le ss

abbrev pub or_zero : Option ℕ → ℕ
or_zero none = 0
or_zero (some n) = n

-- What is left of the parts after two of them: the authority and the sub-authorities.
abbrev pub bytes_of : List Text → List ℕ
bytes_of (s ∷ (one ∷ (authority ∷ subs))) =
    1
    ∷ (length (read_subs subs) % 256)
    ∷ (be_bytes (or_zero (parse_uint max_u64 authority)) ++ push_le (read_subs subs))
bytes_of other = 1 ∷ 0 ∷ be_bytes 0

unfoldable pub to_bytes : Text → List ℕ
unfolding split_by read_subs push_le parse_uint
to_bytes sid = bytes_of (split_by is_dash sid)

abbrev pub is_read : Option ℕ → Bool
is_read none = false
is_read (some n) = true

abbrev pub is_below : ℕ → Option ℕ → Bool
is_below n none = false
is_below n (some m) = ltb m n

abbrev pub is_sub : Text → Bool
is_sub part = is_read (parse_uint max_u32 part)

abbrev pub valid_numbers : List Text → Bool
valid_numbers [] = false
valid_numbers (authority ∷ subs) =
    leb (length (authority ∷ subs)) 16
    && (is_below 281_474_976_710_656 (parse_uint max_u64 authority) && all is_sub subs)

abbrev pub valid_parts : List Text → Bool
valid_parts (s ∷ (one ∷ numbers)) = (s == text "S") && ((one == text "1") && valid_numbers numbers)
valid_parts other = false

-- `FromStr for Sid`
unfoldable pub parse : Text → Option Text
unfolding split_by parse_uint
parse s = if valid_parts (split_by is_dash s) then some s else none
