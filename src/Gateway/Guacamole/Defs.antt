-- ===== src/Gateway/Guacamole/Defs.antt =====
-- crates/gateway/src/guacamole.rs: the instructions of the Guacamole protocol, and the parser that
-- splits a stream of bytes into them.
use remotehub.Base.{
  ℕ, zero, suc, ◌+◌, ◌-◌, Bool, not, ◌||◌, Option, none, some, List, [], ◌∷◌, ◌++◌, if◌then◌else◌,
  ltb, ◌=?◌, ◌==◌, any, length, string_eq, String,
}
use remotehub.Base.Text.{Text, is_digit, within}
use remotehub.Base.Decimal.{show, parse_uint}
use remotehub.Base.Utf8.{from_utf8}

pub data GuacError : Type 0 where
  malformed : String → GuacError

pub data Result {ℓ} (A : Type ℓ) : Type ℓ where
  ok : A → Result A
  err : GuacError → Result A

abbrev pub max_instruction_bytes : ℕ
max_instruction_bytes = 32_768

abbrev pub max_elements : ℕ
max_elements = 128

pub record Instruction : Type 0 where
  pub opcode : Text
  pub args : List Text

unfoldable pub push_element : Text → Text → Text
unfolding show
push_element out value = out ++ (show (length value) ++ b'.' ∷ value)

-- The loop over the arguments.
unfoldable pub push_args : Text → List Text → Text
unfolding push_element
push_args out [] = out
push_args out (arg ∷ args) = push_args (push_element (out ++ b',' ∷ []) arg) args

unfoldable pub encode_into : Text → Text → List Text → Text
unfolding push_element push_args
encode_into out opcode args = push_args (push_element out opcode) args ++ b';' ∷ []

unfoldable pub encode : Instruction → Text
unfolding encode_into
encode i = encode_into [] i.opcode i.args

-- `take_while` of the digits, and what follows them.
abbrev pub digits : List ℕ → List ℕ
digits [] = []
digits (b ∷ s) = let rest = b ∷ digits s in if is_digit b then rest else []

abbrev pub drop {ℓ} : {A : Type ℓ} → ℕ → List A → List A
drop zero xs = xs
drop (suc n) [] = []
drop (suc n) (x ∷ xs) = drop n xs

abbrev pub take {ℓ} : {A : Type ℓ} → ℕ → List A → List A
take zero xs = []
take (suc n) [] = []
take (suc n) (x ∷ xs) = x ∷ take n xs

-- What stands at a place of the buffer: what follows the place, and the place. A place at the end or
-- past it has nothing that follows.
pub data Step : Type 0 where
  missing : Step
  wrong : GuacError → Step
  at_place : (rest : List ℕ) → (at : ℕ) → Step

abbrev pub char_width : ℕ → Option ℕ
char_width lead =
    if ltb lead 0x80
    then some 1
    else if within 0xc0 0xdf lead
    then some 2
    else if within 0xe0 0xef lead
    then some 3
    else if within 0xf0 0xf7 lead
    then some 4
    else none

-- The loop over the characters of a value.
unfoldable pub skip_chars : ℕ → List ℕ → ℕ → Step
skip_chars zero s at = at_place s at
skip_chars (suc more) [] at = missing
skip_chars (suc more) (lead ∷ s) at = elim (char_width lead) [
  | none ↦ wrong (malformed "invalid UTF-8")
  | some width ↦ skip_chars more (drop width (lead ∷ s)) (at + width)
]

-- The length of an element, from its digits and what follows them.
abbrev pub no_length : Option ℕ × Step
no_length = (none, wrong (malformed "element without length"))

abbrev pub length_value : Option ℕ → List ℕ → ℕ → Option ℕ × Step
length_value none rest at = no_length
length_value (some n) rest at = (some n, at_place rest at)

abbrev pub length_at : List ℕ → List ℕ → ℕ → Option ℕ × Step
length_at d [] at =
    if ltb 5 (length d) then (none, wrong (malformed "element too long")) else (none, missing)
length_at d (dot ∷ rest) at =
    if ltb 5 (length d)
    then (none, wrong (malformed "element too long"))
    else if (length d =? 0) || not (dot =? b'.')
    then no_length
    else length_value (parse_uint 0xffff_ffff_ffff_ffff d) rest (at + (length d + 1))

unfoldable pub read_length : List ℕ → ℕ → Option ℕ × Step
unfolding parse_uint
read_length s at = length_at (digits s) (drop (length (digits s)) s) at

-- One element: its range, the byte after it, and what follows that byte.
pub data Element : Type 0 where
  incomplete_element : Element
  bad_element : GuacError → Element
  element : (start stop separator : ℕ) → (rest : List ℕ) → Element

abbrev pub with_separator : ℕ → Step → Element
with_separator start missing = incomplete_element
with_separator start (wrong e) = bad_element e
with_separator start (at_place [] stop) = incomplete_element
with_separator start (at_place (separator ∷ rest) stop) = element start stop separator rest

abbrev pub read_value : Option ℕ × Step → Element
unfolding skip_chars
read_value (some n, at_place s start) = with_separator start (skip_chars n s start)
read_value (none, at_place s start) = incomplete_element
read_value (n, missing) = incomplete_element
read_value (n, wrong e) = bad_element e

unfoldable pub read_element : List ℕ → ℕ → Element
unfolding read_length skip_chars
read_element s at = read_value (read_length s at)

abbrev pub Ranges : Type 0
Ranges = List (ℕ × ℕ)

unfoldable pub incomplete : List ℕ → Result (Option (ℕ × Ranges))
incomplete buffer =
    if ltb max_instruction_bytes (length buffer)
    then err (malformed "instruction too long")
    else ok none

abbrev pub after_separator :
    ℕ → ℕ → Ranges → Result (Option (ℕ × Ranges)) → Result (Option (ℕ × Ranges))
after_separator separator at elements more =
    if separator =? b';'
    then ok (some (at, elements))
    else if separator =? b','
    then more
    else err (malformed "element without separator")

-- The loop of `scan`, on the number of elements that there is still room for: one element more is too
-- many, so the loop needs no other bound.
unfoldable pub scan_from : List ℕ → ℕ → List ℕ → ℕ → Ranges → Result (Option (ℕ × Ranges))
unfolding read_element incomplete
scan_from buffer zero s at elements = elim (read_element s at) [
  | incomplete_element ↦ incomplete buffer
  | bad_element e ↦ err e
  | element start stop separator rest ↦ err (malformed "too many elements")
]
scan_from buffer (suc room) s at elements = elim (read_element s at) [
  | incomplete_element ↦ incomplete buffer
  | bad_element e ↦ err e
  | element start stop separator rest ↦
      after_separator separator (stop + 1) (elements ++ (start, stop) ∷ [])
        (scan_from buffer room rest (stop + 1) (elements ++ (start, stop) ∷ []))
]

unfoldable pub scan : List ℕ → Result (Option (ℕ × Ranges))
unfolding scan_from
scan buffer = scan_from buffer max_elements buffer 0 []

-- `buffer[start..stop]` as a text.
abbrev pub slice : List ℕ → ℕ × ℕ → Option Text
slice buffer (start, stop) = from_utf8 (take (stop - start) (drop start buffer))

-- The values, up to the first that is no text.
unfoldable pub values : List ℕ → Ranges → Option (List Text)
unfolding from_utf8
values buffer [] = some []
values buffer (r ∷ rs) = elim (slice buffer r) [
  | none ↦ none
  | some value ↦ elim (values buffer rs) [ none ↦ none | some rest ↦ some (value ∷ rest) ]
]

-- `Parser::push`
unfoldable pub push : List ℕ → List ℕ → List ℕ
push buffer bytes = buffer ++ bytes

abbrev pub instruction_of :
    List ℕ → ℕ → Ranges → Option (List Text) → Result (Option Instruction) × List ℕ
instruction_of buffer end [] vs = (err (malformed "empty instruction"), buffer)
instruction_of buffer end (r ∷ rs) none = (err (malformed "invalid UTF-8"), buffer)
instruction_of buffer end (r ∷ rs) (some []) = (err (malformed "empty instruction"), buffer)
instruction_of buffer end (r ∷ rs) (some (opcode ∷ args)) =
    (ok (some (record { opcode = opcode; args = args })), drop end buffer)

-- `Parser::next_instruction`: what it returns, and the buffer after it.
unfoldable pub next_instruction : List ℕ → Result (Option Instruction) × List ℕ
unfolding scan values
next_instruction buffer = elim (scan buffer) [
  | err e ↦ (err e, buffer)
  | ok none ↦ (ok none, buffer)
  | ok (some (end, elements)) ↦ instruction_of buffer end elements (values buffer elements)
]

-- The loop of `take_complete`, with how far it came: an instruction has at least a byte, so as many
-- rounds as there are bytes, and one, are enough.
unfoldable pub complete_end : ℕ → List ℕ → ℕ → Result ℕ
unfolding scan
complete_end zero s end = ok end
complete_end (suc fuel) s end = elim (scan s) [
  | err e ↦ err e
  | ok none ↦ ok end
  | ok (some (n, _)) ↦ complete_end fuel (drop n s) (end + n)
]

abbrev pub text_of : Option Text → Result (Option Text)
text_of none = err (malformed "invalid UTF-8")
text_of (some t) = ok (some t)

-- `Parser::take_complete`: what it returns, and the buffer after it.
unfoldable pub take_complete : List ℕ → Result (Option Text) × List ℕ
unfolding complete_end
take_complete buffer = elim (complete_end (suc (length buffer)) buffer 0) [
  | err e ↦ (err e, buffer)
  | ok end ↦
      if end =? 0
      then (ok none, buffer)
      else (text_of (from_utf8 (take end buffer)), drop end buffer)
]

unfoldable pub allowed_from_browser : String → Bool
allowed_from_browser opcode =
    any (λ o. o == opcode)
      ("ack" ∷ "blob" ∷ "clipboard" ∷ "disconnect" ∷ "end" ∷ "key" ∷ "mouse" ∷ "nop" ∷ "size"
        ∷ "sync" ∷ "touch" ∷ [])

unfoldable pub is_input : String → Bool
is_input opcode =
    any (λ o. o == opcode) ("blob" ∷ "clipboard" ∷ "end" ∷ "key" ∷ "mouse" ∷ "touch" ∷ [])
