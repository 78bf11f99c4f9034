-- ===== src/Base/Result.antt =====
-- `Result`, with the `?` of the code.
pub data Result {ℓ κ} (E : Type ℓ) (A : Type κ) : Type (ℓ ⊔ κ) where
  ok : A → Result E A
  err : E → Result E A

abbrev pub and_then {ℓ} : {E A B : Type ℓ} → Result E A → (A → Result E B) → Result E B
and_then (Result.ok a) f = f a
and_then (Result.err e) f = Result.err e
