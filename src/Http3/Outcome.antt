-- ===== src/Http3/Outcome.antt =====
-- What a decoder of src/http3 can do: give a result, report an error (the result -1 or `false`), or
-- perform an operation on `int` that C++ leaves undefined.

pub data Outcome {ℓ} (A : Type ℓ) : Type ℓ where
  done : A → Outcome A
  failed : Outcome A
  undefined : Outcome A

infixl 5 ◌>>=◌
abbrev pub ◌>>=◌ {ℓ κ} : {A : Type ℓ} {B : Type κ} → Outcome A → (A → Outcome B) → Outcome B
done a >>= f = f a
failed >>= f = failed
undefined >>= f = undefined
