-- ===== src/Gateway/Guacamole/Tests.antt =====
-- Instructions as guacd and the browser send them, and what is none.
use remotehub.Base.{
  ℕ, zero, suc, ltb, length, true, false, none, some, [], ◌∷◌, ◌++◌, ◌≡◌, refl, nat_eq, string_eq,
}
use remotehub.Base.Text.{Text, text}
use remotehub.Base.Decimal.{show, digits_from, parse_uint, parse_digits, value_from}
use remotehub.Base.Utf8.{to_utf8, from_utf8, decode_from}
use remotehub.Gateway.Guacamole.Defs.{
  max_instruction_bytes, ok, err, malformed, Instruction, push_element, push_args, encode_into,
  encode, skip_chars, read_length, read_element, incomplete, scan_from, scan, values,
  next_instruction, complete_end, take_complete, allowed_from_browser, is_input,
}
use remotehub.Gateway.Guacamole.Stream.{encode_all, take_complete-encode_all}

guacamole_code : Unit {0}
unfolding show digits_from parse_uint parse_digits value_from to_utf8 from_utf8 decode_from
    push_element push_args encode_into encode skip_chars read_length read_element incomplete
    scan_from scan values next_instruction complete_end take_complete allowed_from_browser is_input
guacamole_code = tt

abbrev size : Instruction
size = record { opcode = text "size"; args = text "0" ∷ text "1024" ∷ text "ä;," ∷ [] }

abbrev sync : Instruction
sync = record { opcode = text "sync"; args = [] }

parser_tests :
    (encode size ≡ text "4.size,1.0,4.1024,3.ä;,;")
    × (next_instruction (text "4.sync;2.k") ≡ (ok (some sync), text "2.k"))
    × (next_instruction (text "4.syn") ≡ (ok none, text "4.syn"))
    × (next_instruction (text "4sync;") ≡ (err (malformed "element without length"), text "4sync;"))
    × (next_instruction (text "123456.") ≡ (err (malformed "element too long"), text "123456."))
    × (next_instruction (text "1.ab;")
        ≡ (err (malformed "element without separator"), text "1.ab;"))
    × (next_instruction (b'1' ∷ b'.' ∷ 0x80 ∷ [])
        ≡ (err (malformed "invalid UTF-8"), b'1' ∷ b'.' ∷ 0x80 ∷ []))
    × (allowed_from_browser "argv" ≡ false)
    × (is_input "key" ≡ true)
unfolding guacamole_code
parser_tests = (refl, refl, refl, refl, refl, refl, refl, refl, refl)

take_complete-encode_all_example :
    take_complete (to_utf8 (encode_all (size ∷ sync ∷ [])) ++ text "4.syn")
    ≡ (ok (some (encode_all (size ∷ sync ∷ []))), text "4.syn")
take_complete-encode_all_example =
    take_complete-encode_all size (sync ∷ []) (text "4.syn") refl partial
  where
    partial : scan (text "4.syn") ≡ ok none
    partial = unfold guacamole_code in refl

abbrev letters : ℕ → Text
letters zero = []
letters (suc n) = b'a' ∷ letters n

abbrev long_blob : Instruction
long_blob = record { opcode = text "blob"; args = letters 33_000 ∷ [] }

-- A complete instruction of more bytes than `MAX_INSTRUCTION_BYTES`, which is taken.
long_test :
    (ltb max_instruction_bytes (length (to_utf8 (encode long_blob))) ≡ true)
    × (take_complete (to_utf8 (encode_all (long_blob ∷ [])) ++ [])
        ≡ (ok (some (encode_all (long_blob ∷ []))), []))
unfolding guacamole_code
long_test = (refl, take_complete-encode_all long_blob [] [] refl refl)
