-- ===== src/Http3/QpackInt/Continuation.antt =====
-- The continuation bytes of an integer, read back, and where an `int` is too small for them.
use native.Mathlib.Nat.{
  pow-le-pow_right, le-mul_of_pos_right, mul_comm, mul-lt-mul_of_pos_right, one-le-pow,
}
use native.Mathlib.Numerals.{towards_suc}
use jacktrip.Base.{
  List, [], ap, arith, bit_or_0x80, dec_lt, low_bits, refl, suc, zero, ℕ, ◌%◌, ◌*◌, ◌++◌, ◌+◌, ◌/◌,
  ◌<◌, ◌^◌, ◌∷◌, ◌≡◌, ◌≤◌,
}
use jacktrip.Http3.Outcome.{done, undefined}
use jacktrip.Http3.QpackInt.{read_continuation, push_remaining}

pow_shift : (m : ℕ) → 2 ^ (m + 7) ≡ 128 * 2 ^ m
pow_shift m = simp towards_suc (omega arith)

lt_of_pow-lt : (m : ℕ) → 2 ^ m < 2 ^ 31 → m < 31
lt_of_pow-lt m h = elim (dec_lt m 31) [
  | yes p ↦ p
  | no p ↦
      absurd (omega (arith, pow-le-pow_right {n = 2} (omega arith) {i = 31} {j = m} (omega arith)))
]

split_mul : (r p : ℕ) → r * p ≡ r / 128 * (128 * p) + r % 128 * p
split_mul r p = omega (arith, ap (λ (t : ℕ). t * p) (e))
  where
    e : r ≡ r / 128 * 128 + r % 128
    e = omega arith

module _ (m acc c : ℕ) (rest : List ℕ) (hm : m < 31) (small : c < 128) where
  last_byte : c * 2 ^ m < 2 ^ 31 → read_continuation m acc (c ∷ rest) ≡ done (acc + c * 2 ^ m, rest)
  unfolding read_continuation
  last_byte h = let e : low_bits c 7 ≡ c = omega arith in rw e (ground arith)

  more_byte :
      c * 2 ^ m < 2 ^ 31
      → read_continuation m acc ((128 + c) ∷ rest)
        ≡ read_continuation (m + 7) (acc + c * 2 ^ m) rest
  unfolding read_continuation
  more_byte h = let e : low_bits (128 + c) 7 ≡ c = omega arith in rw e (ground arith)

push_remaining_short : (fuel r : ℕ) → r < 128 → push_remaining fuel r ≡ r ∷ []
unfolding push_remaining
push_remaining_short zero r h = ground arith
push_remaining_short (suc fuel) r h = ground arith

push_remaining_more :
    (fuel r : ℕ)
    → 128 ≤ r
    → push_remaining (suc fuel) r ≡ (128 + r % 128) ∷ push_remaining fuel (r / 128)
unfolding push_remaining
push_remaining_more fuel r h = ground (arith, bit_or_0x80 (r % 128))

-- Continuation bytes are read back as long as their sum stays an `int`.
pub read_continuation-push :
    (fuel m acc r : ℕ) (rest : List ℕ)
    → r ≤ fuel
    → m < 31
    → r * 2 ^ m < 2 ^ 31
    → read_continuation m acc (push_remaining fuel r ++ rest) ≡ done (acc + r * 2 ^ m, rest)
read_continuation-push zero m acc r rest f hm h =
    rw (push_remaining_short zero r (omega arith)) (last_byte m acc r rest hm (omega arith) h)
read_continuation-push (suc fuel) m acc r rest f hm h = elim (dec_lt r 128) [
  | yes p ↦ rw (push_remaining_short (suc fuel) r p) (last_byte m acc r rest hm p h)
  | no p ↦
      step
        (read_continuation-push fuel (m + 7) (acc + r % 128 * 2 ^ m) (r / 128) rest (omega arith))
        (omega arith)
]
  where
    step :
        (m + 7 < 31
          → r / 128 * 2 ^ (m + 7) < 2 ^ 31
          → read_continuation
              (m + 7)
              (acc + r % 128 * 2 ^ m)
              (push_remaining fuel (r / 128) ++ rest)
            ≡ done (acc + r % 128 * 2 ^ m + r / 128 * 2 ^ (m + 7), rest))
        → 128 ≤ r
        → read_continuation m acc (push_remaining (suc fuel) r ++ rest)
          ≡ done (acc + r * 2 ^ m, rest)
    step ih big =
        let split = split_mul r (2 ^ m) in
        let shift = pow_shift m in
        let high = ap (λ (t : ℕ). r / 128 * t) shift in
        let wide = le-mul_of_pos_right {m = r / 128} (2 ^ (m + 7)) (omega arith) in
        let flip = mul_comm (2 ^ (m + 7)) (r / 128) in
        let next = ih (lt_of_pow-lt (m + 7) (omega arith)) (omega arith) in
        let here =
          more_byte m acc (r % 128) (push_remaining fuel (r / 128) ++ rest) hm (omega arith)
            (omega arith) in
        rw (push_remaining_more fuel r big, here, next) (ap (λ k. done (k, rest)) (omega arith))

-- A byte whose product is no `int`.
wide_byte :
    (m acc b : ℕ) (rest : List ℕ)
    → 2 ^ 31 ≤ b % 128 * 2 ^ m
    → read_continuation m acc (b ∷ rest) ≡ undefined
unfolding read_continuation
wide_byte m acc b rest h = ground arith

-- A sixth byte is shifted out of the `int`.
sixth_byte :
    (acc fuel r : ℕ) (rest : List ℕ)
    → read_continuation 35 acc (push_remaining fuel r ++ rest) ≡ undefined
unfolding read_continuation push_remaining
sixth_byte acc zero r rest = refl
sixth_byte acc (suc fuel) r rest = ground arith

fifth_byte :
    (acc fuel r : ℕ) (rest : List ℕ)
    → r ≤ fuel
    → 8 ≤ r
    → read_continuation 28 acc (push_remaining fuel r ++ rest) ≡ undefined
fifth_byte acc zero r rest f h = absurd (omega arith)
fifth_byte acc (suc fuel) r rest f h = elim (dec_lt r 128) [
  | yes p ↦ rw (push_remaining_short (suc fuel) r p) (wide_byte 28 acc r rest (omega arith))
  | no p ↦ rw (push_remaining_more fuel r (omega arith)) (elim (dec_lt (r % 128) 8) [
    | yes q ↦
        rw
          (more_byte 28 acc (r % 128) (push_remaining fuel (r / 128) ++ rest) (omega arith)
            (omega arith) (omega arith))
          (sixth_byte _ fuel (r / 128) rest)
    | no q ↦ wide_byte 28 acc (128 + r % 128) (push_remaining fuel (r / 128) ++ rest) (omega arith)
  ])
]

-- One more byte in front, while its product stays an `int`.
wide_step :
    (m acc fuel r : ℕ) (rest : List ℕ)
    → m < 31
    → 128 ≤ r
    → r ≤ suc fuel
    → 128 * 2 ^ m ≤ 2 ^ 31
    → ((acc' : ℕ)
        → read_continuation (m + 7) acc' (push_remaining fuel (r / 128) ++ rest) ≡ undefined)
    → read_continuation m acc (push_remaining (suc fuel) r ++ rest) ≡ undefined
wide_step m acc fuel r rest hm big f room next =
    let small : r % 128 * 2 ^ m < 2 ^ 31 = omega (
      arith,
      mul-lt-mul_of_pos_right {m = r % 128} {n = 128} {k = 2 ^ m} (omega arith)
          (one-le-pow m 2 (omega arith)),
    ) in
    rw
      (
        push_remaining_more fuel r big,
        more_byte m acc (r % 128) (push_remaining fuel (r / 128) ++ rest) hm (omega arith) (small),
      )
      (next _)

wide_21 :
    (acc fuel r : ℕ) (rest : List ℕ)
    → r ≤ fuel
    → 2 ^ 10 ≤ r
    → read_continuation 21 acc (push_remaining fuel r ++ rest) ≡ undefined
wide_21 acc zero r rest f h = absurd (omega arith)
wide_21 acc (suc fuel) r rest f h =
    wide_step 21 acc fuel r rest (omega arith) (omega arith) f (omega arith)
      λ acc'. fifth_byte acc' fuel (r / 128) rest (omega arith) (omega arith)

wide_14 :
    (acc fuel r : ℕ) (rest : List ℕ)
    → r ≤ fuel
    → 2 ^ 17 ≤ r
    → read_continuation 14 acc (push_remaining fuel r ++ rest) ≡ undefined
wide_14 acc zero r rest f h = absurd (omega arith)
wide_14 acc (suc fuel) r rest f h =
    wide_step 14 acc fuel r rest (omega arith) (omega arith) f (omega arith)
      λ acc'. wide_21 acc' fuel (r / 128) rest (omega arith) (omega arith)

wide_7 :
    (acc fuel r : ℕ) (rest : List ℕ)
    → r ≤ fuel
    → 2 ^ 24 ≤ r
    → read_continuation 7 acc (push_remaining fuel r ++ rest) ≡ undefined
wide_7 acc zero r rest f h = absurd (omega arith)
wide_7 acc (suc fuel) r rest f h =
    wide_step 7 acc fuel r rest (omega arith) (omega arith) f (omega arith)
      λ acc'. wide_14 acc' fuel (r / 128) rest (omega arith) (omega arith)

-- From 2 ^ 31 on the bytes are read by undefined arithmetic.
pub read_continuation_wide :
    (acc fuel r : ℕ) (rest : List ℕ)
    → r ≤ fuel
    → 2 ^ 31 ≤ r
    → read_continuation 0 acc (push_remaining fuel r ++ rest) ≡ undefined
read_continuation_wide acc zero r rest f h = absurd (omega arith)
read_continuation_wide acc (suc fuel) r rest f h =
    wide_step 0 acc fuel r rest (omega arith) (omega arith) f (omega arith)
      λ acc'. wide_7 acc' fuel (r / 128) rest (omega arith) (omega arith)
