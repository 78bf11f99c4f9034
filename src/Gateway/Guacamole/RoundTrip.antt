-- ===== src/Gateway/Guacamole/RoundTrip.antt =====
-- An instruction that is sent is the one that is read (crates/gateway/src/guacamole.rs).
use mathlib.Core.List.{append_assoc}
use remotehub.Base.{
  ℕ, zero, suc, ◌+◌, ◌<◌, Bool, true, ◌&&◌, some, List, [], ◌∷◌, ◌++◌, arith, ◌≡◌, refl, ap, ◌∙◌,
  leb, ltb, all, length, length-append,
}
use remotehub.Base.Text.{Text}
use remotehub.Base.Decimal.{show}
use remotehub.Base.Utf8.{to_utf8, from_utf8, is_char, from_utf8-to_utf8}
use remotehub.Gateway.Guacamole.Defs.{
  ok, Instruction, encode, drop, take, element, read_element, Ranges, after_separator, scan_from,
  scan, slice, values, instruction_of, next_instruction, max_elements,
}
use remotehub.Gateway.Guacamole.Elements.{drop-append, take-append, read_element-show}
use remotehub.Gateway.Guacamole.Sent.{bytes, encode-body, to_utf8-body}

-- What can be sent: characters, and no more of them than five digits count.
abbrev pub is_value : Text → Bool
is_value v = ltb (length v) 100_000 && all is_char v

abbrev pub start_of : ℕ → Text → ℕ
start_of at v = at + (length (show (length v)) + 1)

abbrev pub stop_of : ℕ → Text → ℕ
stop_of at v = start_of at v + length (to_utf8 v)

abbrev pub ranges : ℕ → Text → List Text → Ranges
ranges at v [] = (start_of at v, stop_of at v) ∷ []
ranges at v (w ∷ ws) = (start_of at v, stop_of at v) ∷ ranges (stop_of at v + 1) w ws

abbrev end_of : ℕ → Text → List Text → ℕ
end_of at v [] = stop_of at v + 1
end_of at v (w ∷ ws) = end_of (stop_of at v + 1) w ws

regroup :
    (d v s rest : List ℕ) (separator : ℕ)
    → (d ++ b'.' ∷ (v ++ separator ∷ s)) ++ rest ≡ d ++ b'.' ∷ (v ++ separator ∷ (s ++ rest))
regroup d v s rest separator = simp (append_assoc)

scan_round :
    (buffer s rest : List ℕ) (room at start stop separator : ℕ) (elements : Ranges)
    → read_element s at ≡ element start stop separator rest
    → scan_from buffer (suc room) s at elements
      ≡ after_separator separator
          (stop + 1)
          (elements ++ (start, stop) ∷ [])
          (scan_from buffer room rest (stop + 1) (elements ++ (start, stop) ∷ []))
unfolding scan_from
scan_round buffer s rest room at start stop separator elements e = rw (e, scan_from) refl

scan_from-bytes :
    (buffer rest : List ℕ) (v : Text) (args : List Text) (room at : ℕ) (elements : Ranges)
    → length args < room
    → is_value v ≡ true
    → all is_value args ≡ true
    → scan_from buffer room (bytes v args ++ rest) at elements
      ≡ ok (some (end_of at v args, elements ++ ranges at v args))
scan_from-bytes buffer rest v args zero at elements l h hs = absurd (omega arith)
scan_from-bytes buffer rest v [] (suc room) at elements l h hs =
    rw (regroup (show (length v)) (to_utf8 v) [] rest b';') (
      scan_round buffer _ rest room at (start_of at v) (stop_of at v) b';' elements
        (read_element-show v at b';' rest (ground arith) (ground arith)))
scan_from-bytes buffer rest v (w ∷ ws) (suc room) at elements l h hs =
    let more = elements ++ (start_of at v, stop_of at v) ∷ [] in
    rw (regroup (show (length v)) (to_utf8 v) (bytes w ws) rest b',') (
      scan_round buffer _ (bytes w ws ++ rest) room at (start_of at v) (stop_of at v) b',' elements
        (read_element-show v at b',' (bytes w ws ++ rest) (ground arith) (ground arith))
      ∙ (scan_from-bytes buffer rest w ws room (stop_of at v + 1) more (omega arith) (ground arith)
            (ground arith)
          ∙ ap (λ e. ok (some (end_of at v (w ∷ ws), e)))
              (append_assoc elements ((start_of at v, stop_of at v) ∷ [])
                (ranges (stop_of at v + 1) w ws))))

-- A place behind a front.
slice-front :
    (front value back : List ℕ) (start stop : ℕ)
    → start ≡ length front
    → stop ≡ length front + length value
    → slice (front ++ (value ++ back)) (start, stop) ≡ from_utf8 value
slice-front front value back start stop p q =
    rw (p, q, drop-append front (value ++ back))
      (ap from_utf8 (ap (λ n. take n (value ++ back)) (omega arith) ∙ take-append value back))

values-cons :
    (buffer : List ℕ) (r : ℕ × ℕ) (rs : Ranges) (v : Text) (vs : List Text)
    → slice buffer r ≡ some v
    → values buffer rs ≡ some vs
    → values buffer (r ∷ rs) ≡ some (v ∷ vs)
unfolding values
values-cons buffer r rs v vs e es = ground (arith, e, es)

-- The front that stands before a value, and the one that stands before the next element.
before_value :
    (front d v s rest : List ℕ) (separator : ℕ)
    → front ++ ((d ++ b'.' ∷ (v ++ separator ∷ s)) ++ rest)
      ≡ (front ++ (d ++ b'.' ∷ [])) ++ (v ++ separator ∷ (s ++ rest))
before_value front d v s rest separator = simp (append_assoc)

before_next :
    (front d v s rest : List ℕ) (separator : ℕ)
    → front ++ ((d ++ b'.' ∷ (v ++ separator ∷ s)) ++ rest)
      ≡ (front ++ (d ++ b'.' ∷ (v ++ separator ∷ []))) ++ (s ++ rest)
before_next front d v s rest separator = simp (append_assoc)

slice-value :
    (front rest s : List ℕ) (v : Text) (separator at : ℕ)
    → at ≡ length front
    → all is_char v ≡ true
    → slice
        (front ++ ((show (length v) ++ b'.' ∷ (to_utf8 v ++ separator ∷ s)) ++ rest))
        (start_of at v, stop_of at v)
      ≡ some v
slice-value front rest s v separator at e c =
    let d = show (length v) in
    ap (λ b. slice b (start_of at v, stop_of at v))
      (before_value front d (to_utf8 v) s rest separator)
    ∙ (slice-front (front ++ (d ++ b'.' ∷ [])) (to_utf8 v) (separator ∷ (s ++ rest)) (start_of at v)
          (stop_of at v)
          (omega (arith, length-append front (d ++ b'.' ∷ []), length-append d (b'.' ∷ [])))
          (omega (arith, length-append front (d ++ b'.' ∷ []), length-append d (b'.' ∷ [])))
        ∙ from_utf8-to_utf8 v c)

values-bytes :
    (buffer front rest : List ℕ) (v : Text) (args : List Text) (at : ℕ)
    → buffer ≡ front ++ (bytes v args ++ rest)
    → at ≡ length front
    → is_value v ≡ true
    → all is_value args ≡ true
    → values buffer (ranges at v args) ≡ some (v ∷ args)
values-bytes buffer front rest v [] at b e h hs =
    values-cons buffer (start_of at v, stop_of at v) [] v []
      (rw b (slice-value front rest [] v b';' at e (ground arith))) (unfold values in refl)
values-bytes buffer front rest v (w ∷ ws) at b e h hs =
    let d = show (length v) in
    let front' = front ++ (d ++ b'.' ∷ (to_utf8 v ++ b',' ∷ [])) in
    values-cons buffer (start_of at v, stop_of at v) (ranges (stop_of at v + 1) w ws) v (w ∷ ws)
      (rw b (slice-value front rest (bytes w ws) v b',' at e (ground arith)))
      (values-bytes buffer front' rest w ws (stop_of at v + 1)
        (b ∙ before_next front d (to_utf8 v) (bytes w ws) rest b',')
        (omega (
          arith,
          length-append front (d ++ b'.' ∷ (to_utf8 v ++ b',' ∷ [])),
          length-append d (b'.' ∷ (to_utf8 v ++ b',' ∷ [])),
          length-append (to_utf8 v) (b',' ∷ []),
        ))
        (ground arith) (ground arith))

end_of-length :
    (at : ℕ) (v : Text) (args : List Text) → end_of at v args ≡ at + length (bytes v args)
end_of-length at v [] = omega (
  arith,
  length-append (show (length v)) (b'.' ∷ (to_utf8 v ++ b';' ∷ [])),
  length-append (to_utf8 v) (b';' ∷ []),
)
end_of-length at v (w ∷ ws) = omega (
  arith,
  end_of-length (stop_of at v + 1) w ws,
  length-append (show (length v)) (b'.' ∷ (to_utf8 v ++ b',' ∷ bytes w ws)),
  length-append (to_utf8 v) (b',' ∷ bytes w ws),
)

-- At most 128 elements, each of characters, at most 99999.
abbrev pub is_sendable : Instruction → Bool
is_sendable i = leb (length i.args + 1) max_elements && (is_value i.opcode && all is_value i.args)

instruction_of-values :
    (buffer : List ℕ) (end at : ℕ) (i : Instruction)
    → instruction_of buffer end (ranges at i.opcode i.args) (some (i.opcode ∷ i.args))
      ≡ (ok (some i), drop end buffer)
instruction_of-values buffer end at i = first i.args
  where
    first :
        (args : List Text)
        → instruction_of buffer end (ranges at i.opcode args) (some (i.opcode ∷ i.args))
          ≡ (ok (some i), drop end buffer)
    first [] = refl
    first (w ∷ ws) = refl

pub scan-encode :
    (i : Instruction) (rest : List ℕ)
    → is_sendable i ≡ true
    → scan (bytes i.opcode i.args ++ rest)
      ≡ ok (some (length (bytes i.opcode i.args), ranges 0 i.opcode i.args))
unfolding scan
scan-encode i rest h =
    scan_from-bytes (bytes i.opcode i.args ++ rest) rest i.opcode i.args max_elements 0 []
      (ground arith) (ground arith) (ground arith)
    ∙ ap (λ n. ok (some (n, ranges 0 i.opcode i.args)))
        (end_of-length 0 i.opcode i.args ∙ omega arith)

-- An instruction of at most 128 elements, each of at most 99999 characters, is read from the bytes that
-- it is sent as, whatever follows them, and leaves exactly what follows.
pub next_instruction-encode :
    (i : Instruction) (rest : List ℕ)
    → is_sendable i ≡ true
    → next_instruction (to_utf8 (encode i) ++ rest) ≡ (ok (some i), rest)
unfolding next_instruction
next_instruction-encode i rest h =
    let buffer = bytes i.opcode i.args ++ rest in
    rw (encode-body i, to_utf8-body i.opcode i.args)
      (rw (next_instruction, scan-encode i rest h)
        (rw
          (values-bytes buffer [] rest i.opcode i.args 0 refl (refl) (ground arith) (ground arith))
          (instruction_of-values buffer (length (bytes i.opcode i.args)) 0 i
            ∙ ap (λ b. (ok (some i), b)) (drop-append (bytes i.opcode i.args) rest))))
