-- ===== src/Gateway/Guacamole/Sent.antt =====
-- The bytes that an instruction is sent as (crates/gateway/src/guacamole.rs).
use mathlib.Core.List.{append_assoc}
use remotehub.Base.{ℕ, ◌<◌, List, [], ◌∷◌, ◌++◌, arith, ◌≡◌, ap, ◌∙◌, length}
use remotehub.Base.Text.{Text}
use remotehub.Base.Decimal.{show, show-all}
use remotehub.Base.Utf8.{to_utf8, to_utf8-append}
use remotehub.Gateway.Guacamole.Defs.{Instruction, push_element, push_args, encode_into, encode}
use remotehub.Gateway.Guacamole.Elements.{to_utf8-digits}

-- The elements of an instruction, the last with its `;`.
abbrev pub body : Text → List Text → Text
body v [] = show (length v) ++ b'.' ∷ (v ++ b';' ∷ [])
body v (w ∷ ws) = show (length v) ++ b'.' ∷ (v ++ b',' ∷ body w ws)

push_args-body :
    (out v : Text) (args : List Text)
    → push_args (push_element out v) args ++ b';' ∷ [] ≡ out ++ body v args
unfolding push_args push_element
push_args-body out v [] = simp (append_assoc)
push_args-body out v (w ∷ ws) =
    push_args-body (push_element out v ++ b',' ∷ []) w ws ∙ simp (append_assoc)

pub encode-body : (i : Instruction) → encode i ≡ body i.opcode i.args
unfolding encode encode_into
encode-body i = push_args-body [] i.opcode i.args

-- The bytes of the elements.
abbrev pub bytes : Text → List Text → List ℕ
bytes v [] = show (length v) ++ b'.' ∷ (to_utf8 v ++ b';' ∷ [])
bytes v (w ∷ ws) = show (length v) ++ b'.' ∷ (to_utf8 v ++ b',' ∷ bytes w ws)

to_utf8-element :
    (v : Text) (separator : ℕ) (rest : Text)
    → separator < 0x80
    → to_utf8 (show (length v) ++ b'.' ∷ (v ++ separator ∷ rest))
      ≡ show (length v) ++ b'.' ∷ (to_utf8 v ++ separator ∷ to_utf8 rest)
unfolding to_utf8
to_utf8-element v separator rest h =
    to_utf8-append (show (length v)) (b'.' ∷ (v ++ separator ∷ rest))
    ∙ rw (to_utf8-digits (show (length v)) (show-all (length v))) (
        ap (λ r. show (length v) ++ b'.' ∷ r)
          (to_utf8-append v (separator ∷ rest) ∙ ap (λ r. to_utf8 v ++ r) one))
  where
    one : to_utf8 (separator ∷ rest) ≡ separator ∷ to_utf8 rest
    one = ground arith

pub to_utf8-body : (v : Text) (args : List Text) → to_utf8 (body v args) ≡ bytes v args
unfolding to_utf8
to_utf8-body v [] = to_utf8-element v b';' [] (omega arith)
to_utf8-body v (w ∷ ws) =
    to_utf8-element v b',' (body w ws) (omega arith)
    ∙ ap (λ r. show (length v) ++ b'.' ∷ (to_utf8 v ++ b',' ∷ r)) (to_utf8-body w ws)
