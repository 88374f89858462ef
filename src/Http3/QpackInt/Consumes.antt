-- ===== src/Http3/QpackInt/Consumes.antt =====
-- Each read takes at least one byte off the buffer.
use jacktrip.Base.{
  Bool-cases, List, [], arith, inl, inr, leb, length, low_bits, ltb, suc, test_bit, ℕ, ◌*◌, ◌+◌,
  ◌-◌, ◌==◌, ◌^◌, ◌||◌, ◌∷◌, ◌≤◌,
}
use jacktrip.Http3.Outcome.{Outcome, done, failed, undefined, ◌>>=◌}
use jacktrip.Http3.QpackInt.{read_continuation, read_qpack_int}

-- What a reader leaves is at most `n` bytes.
abbrev pub Leaves {ℓ} : {A : Type ℓ} → ℕ → Outcome (A × List ℕ) → Type 0
Leaves n (done (a, rest)) = length rest ≤ n
Leaves n failed = Unit
Leaves n undefined = Unit

pub Leaves-weaken {ℓ} :
    {A : Type ℓ} (n m : ℕ) (o : Outcome (A × List ℕ)) → n ≤ m → Leaves n o → Leaves m o
Leaves-weaken n m (done (a, rest)) h l = omega arith
Leaves-weaken n m failed h l = tt
Leaves-weaken n m undefined h l = tt

pub Leaves-bind {ℓ κ} :
    {A : Type ℓ} {B : Type κ} (n m : ℕ) (o : Outcome (A × List ℕ))
    (f : A × List ℕ → Outcome (B × List ℕ))
    → Leaves n o
    → ((a : A) (rest : List ℕ) → length rest ≤ n → Leaves m (f (a, rest)))
    → Leaves m (o >>= f)
Leaves-bind n m (done (a, rest)) f l k = k a rest l
Leaves-bind n m failed f l k = tt
Leaves-bind n m undefined f l k = tt

read_continuation-Leaves :
    (m value : ℕ) (bytes : List ℕ) → Leaves (length bytes) (read_continuation m value bytes)
unfolding read_continuation
read_continuation-Leaves m value [] = tt
read_continuation-Leaves m value (b ∷ rest) =
    let term = low_bits b 7 * 2 ^ m in
    elim (Bool-cases (leb 31 m || leb (2 ^ 31) term)) [
      | inl e ↦ rw e tt
      | inr e ↦ rw e (elim (Bool-cases (test_bit b 7)) [
        | inl t ↦ rw t (
            Leaves-weaken (length rest) (suc (length rest)) _ (omega arith)
              (read_continuation-Leaves (m + 7) (value + term) rest))
        | inr t ↦ rw t (omega arith)
      ])
    ]

pub read_qpack_int-Leaves :
    (prefix_bits b : ℕ) (bytes : List ℕ)
    → Leaves (length bytes) (read_qpack_int prefix_bits (b ∷ bytes))
unfolding read_qpack_int
read_qpack_int-Leaves prefix_bits b bytes =
    elim (Bool-cases (ltb prefix_bits 1 || ltb 8 prefix_bits)) [
      | inl e ↦ rw e tt
      | inr e ↦ rw e (elim (Bool-cases (low_bits b prefix_bits == 2 ^ prefix_bits - 1)) [
        | inl t ↦ rw t (read_continuation-Leaves 0 (low_bits b prefix_bits) bytes)
        | inr t ↦ rw t (omega arith)
      ])
    ]
