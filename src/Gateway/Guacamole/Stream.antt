-- ===== src/Gateway/Guacamole/Stream.antt =====
-- What the browser gets of a stream of instructions in one piece (`take_complete` of
-- crates/gateway/src/guacamole.rs).
use mathlib.Core.List.{append_assoc}
use remotehub.Base.{
  ℕ, zero, suc, ◌+◌, ◌≤◌, Bool, true, false, ◌&&◌, none, some, List, [], ◌∷◌, ◌++◌, arith, ◌≡◌,
  refl, ap, ◌∙◌, ◌=?◌, all, length, length-append,
}
use remotehub.Base.Text.{Text, is_digit}
use remotehub.Base.Decimal.{show, show-all}
use remotehub.Base.Utf8.{to_utf8, is_char, from_utf8-to_utf8, to_utf8-append}
use remotehub.Gateway.Guacamole.Defs.{ok, Instruction, encode, scan, complete_end, take_complete}
use remotehub.Gateway.Guacamole.Elements.{drop-append, take-append}
use remotehub.Gateway.Guacamole.Sent.{body, bytes, encode-body, to_utf8-body}
use remotehub.Gateway.Guacamole.RoundTrip.{is_value, is_sendable, scan-encode}

-- Instructions, one after the other.
abbrev pub encode_all : List Instruction → Text
encode_all [] = []
encode_all (i ∷ is) = encode i ++ encode_all is

encode-bytes : (i : Instruction) → to_utf8 (encode i) ≡ bytes i.opcode i.args
encode-bytes i = ap to_utf8 (encode-body i) ∙ to_utf8-body i.opcode i.args

bytes-length : (v : Text) (args : List Text) → 1 ≤ length (bytes v args)
bytes-length v [] = omega (arith, length-append (show (length v)) (b'.' ∷ (to_utf8 v ++ b';' ∷ [])))
bytes-length v (w ∷ ws) =
    omega (arith, length-append (show (length v)) (b'.' ∷ (to_utf8 v ++ b',' ∷ bytes w ws)))

all-append {ℓ} :
    {A : Type ℓ} (p : A → Bool) (xs ys : List A) → all p (xs ++ ys) ≡ (all p xs && all p ys)
all-append p [] ys = refl
all-append p (x ∷ xs) ys = ground (arith, all-append p xs ys)

digits-is_char : (d : Text) → all is_digit d ≡ true → all is_char d ≡ true
digits-is_char [] h = refl
digits-is_char (c ∷ d) h = ground (arith, digits-is_char d)

body-is_char :
    (v : Text) (args : List Text)
    → is_value v ≡ true
    → all is_value args ≡ true
    → all is_char (body v args) ≡ true
body-is_char v [] h hs =
    let d = show (length v) in
    ground (
      arith,
      all-append is_char d (b'.' ∷ (v ++ b';' ∷ [])),
      all-append is_char v (b';' ∷ []),
      digits-is_char d (show-all (length v)),
    )
body-is_char v (w ∷ ws) h hs =
    let d = show (length v) in
    ground (
      arith,
      all-append is_char d (b'.' ∷ (v ++ b',' ∷ body w ws)),
      all-append is_char v (b',' ∷ body w ws),
      digits-is_char d (show-all (length v)),
      body-is_char w ws,
    )

encode_all-is_char :
    (is : List Instruction) → all is_sendable is ≡ true → all is_char (encode_all is) ≡ true
encode_all-is_char [] h = refl
encode_all-is_char (i ∷ is) h =
    rw (all-append, encode-body i, body-is_char i.opcode i.args (ground arith) (ground arith))
      (encode_all-is_char is (ground arith))

complete_end-none :
    (fuel : ℕ) (rest : List ℕ) (end : ℕ) → scan rest ≡ ok none → complete_end fuel rest end ≡ ok end
unfolding complete_end
complete_end-none zero rest end e = refl
complete_end-none (suc fuel) rest end e = rw (e, complete_end) refl

complete_end-some :
    (fuel : ℕ) (front rest : List ℕ) (end : ℕ) {ranges : List (ℕ × ℕ)}
    → scan (front ++ rest) ≡ ok (some (length front, ranges))
    → complete_end (suc fuel) (front ++ rest) end ≡ complete_end fuel rest (end + length front)
unfolding complete_end
complete_end-some fuel front rest end e =
    rw (e, complete_end)
      (ap (λ s. complete_end fuel s (end + length front)) (drop-append front rest))

complete_end-stream :
    (fuel : ℕ) (is : List Instruction) (rest : List ℕ) (end : ℕ)
    → length is ≤ fuel
    → all is_sendable is ≡ true
    → scan rest ≡ ok none
    → complete_end fuel (to_utf8 (encode_all is) ++ rest) end
      ≡ ok (end + length (to_utf8 (encode_all is)))
complete_end-stream fuel [] rest end l h e =
    unfold to_utf8 in (complete_end-none fuel rest end e ∙ ap ok (omega arith))
complete_end-stream zero (i ∷ is) rest end l h e = absurd (omega arith)
complete_end-stream (suc fuel) (i ∷ is) rest end l h e =
    let one = bytes i.opcode i.args in
    let others = to_utf8 (encode_all is) in
    rw (to_utf8-append (encode i) (encode_all is), encode-bytes i, append_assoc one others rest)
      (complete_end-some fuel one (others ++ rest) end
          (scan-encode i (others ++ rest) (ground arith))
        ∙ (complete_end-stream fuel is rest (end + length one) (omega arith) (ground arith) e
            ∙ ap ok (omega (arith, length-append one others))))

stream-length : (is : List Instruction) → length is ≤ length (to_utf8 (encode_all is))
stream-length [] = unfold to_utf8 in omega arith
stream-length (i ∷ is) =
    rw (to_utf8-append (encode i) (encode_all is), encode-bytes i)
      (omega (
        arith,
        length-append (bytes i.opcode i.args) (to_utf8 (encode_all is)),
        stream-length is,
        bytes-length i.opcode i.args,
      ))

positive : (n : ℕ) → 1 ≤ n → (n =? 0) ≡ false
positive n h = ground arith

-- Instructions that can be sent, at least one, followed by the start of another that is not complete
-- yet and that the parser waits for: what is taken in one piece are the instructions as they were
-- sent, and the start of the other stays in the buffer. An instruction can be sent that has at most 128
-- elements, each a text of at most 99 999 characters; what the buffer holds of complete instructions
-- has no limit, so the 32 KiB of `MAX_INSTRUCTION_BYTES` bound only the start of the other.
pub take_complete-encode_all :
    (i : Instruction) (is : List Instruction) (rest : List ℕ)
    → all is_sendable (i ∷ is) ≡ true
    → scan rest ≡ ok none
    → take_complete (to_utf8 (encode_all (i ∷ is)) ++ rest)
      ≡ (ok (some (encode_all (i ∷ is))), rest)
unfolding take_complete
take_complete-encode_all i is rest h e =
    let stream = to_utf8 (encode_all (i ∷ is)) in
    let end : complete_end (suc (length (stream ++ rest))) (stream ++ rest) 0 ≡ ok (length stream) =
      complete_end-stream (suc (length (stream ++ rest))) (i ∷ is) rest 0
        (omega (arith, length-append stream rest, stream-length (i ∷ is))) h e
      ∙ ap ok (omega arith) in
    rw (take_complete, end)
      (rw
        (
          take-append stream rest,
          drop-append stream rest,
          from_utf8-to_utf8 (encode_all (i ∷ is)) (encode_all-is_char (i ∷ is) h),
        )
        (rw (positive (length stream) (omega (arith, stream-length (i ∷ is)))) refl))
