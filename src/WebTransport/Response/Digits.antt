-- ===== src/WebTransport/Response/Digits.antt =====
-- The digits of a status code.
use native.Mathlib.Nat.{pow-suc}
use jacktrip.Base.{
  All-append, List, [], arith, dec_lt, length, length-append, ltb-false, lt→ltb, refl, suc, zero, ℕ,
  ◌%◌, ◌*◌, ◌++◌, ◌+◌, ◌-◌, ◌/◌, ◌<◌, ◌^◌, ◌∷◌, ◌≡◌, ◌≤◌,
}
use jacktrip.Http3.Headers.Fields.{IsAscii}
use jacktrip.WebTransport.Response.{to_string_loop, to_string}

-- Decimal digits are ASCII, and ten of them hold every `int`.
pub to_string_loop-IsAscii : (fuel n : ℕ) → IsAscii (to_string_loop fuel n)
unfolding to_string_loop
to_string_loop-IsAscii zero n = omega arith
to_string_loop-IsAscii (suc fuel) n = elim (dec_lt n 10) [
  | yes p ↦ rw (lt→ltb n 10 p) (omega arith)
  | no p ↦ rw (ltb-false n 10 (omega arith)) (
      All-append (λ b. b < 128) (to_string_loop fuel (n / 10)) _
        (to_string_loop-IsAscii fuel (n / 10)) (omega arith))
]

pub to_string_loop-length :
    (fuel n k : ℕ)
    → n < 10 ^ suc k
    → (0 < length (to_string_loop fuel n)) × (length (to_string_loop fuel n) ≤ suc k)
unfolding to_string_loop
to_string_loop-length zero n k h = omega arith
to_string_loop-length (suc fuel) n zero h = rw (lt→ltb n 10 (omega arith)) (omega arith)
to_string_loop-length (suc fuel) n (suc k) h = ground (
  arith,
  pow-suc 10 (suc k),
  to_string_loop-length fuel (n / 10) k,
  length-append (to_string_loop fuel (n / 10)) ((48 + n % 10) ∷ []),
)

-- The number that digits stand for, after the digits of `n`.
pub digits_value : ℕ → List ℕ → ℕ
digits_value n [] = n
digits_value n (d ∷ ds) = digits_value (n * 10 + (d - 48)) ds

digits_value-append :
    (n : ℕ) (xs ys : List ℕ) → digits_value n (xs ++ ys) ≡ digits_value (digits_value n xs) ys
unfolding digits_value
digits_value-append n [] ys = refl
digits_value-append n (x ∷ xs) ys = digits_value-append (n * 10 + (x - 48)) xs ys

to_string_loop-value : (fuel n : ℕ) → n ≤ fuel → digits_value 0 (to_string_loop fuel n) ≡ n
unfolding to_string_loop digits_value
to_string_loop-value zero n h = omega arith
to_string_loop-value (suc fuel) n h = elim (dec_lt n 10) [
  | yes p ↦ rw (lt→ltb n 10 p) (omega arith)
  | no p ↦
      let front = to_string_loop-value fuel (n / 10) (omega arith) in
      rw
        (
          ltb-false n 10 (omega arith),
          digits_value-append 0 (to_string_loop fuel (n / 10)) ((48 + n % 10) ∷ []),
          front,
        )
        (omega arith)
]

-- The digits that `to_string` gives for a number of up to `k + 1` digits stand for that number, and
-- there are 1 to `k + 1` of them.
to_string_lem :
    (n k : ℕ)
    → n < 10 ^ suc k
    → (digits_value 0 (to_string n) ≡ n)
      × (0 < length (to_string n))
      × (length (to_string n) ≤ suc k)
unfolding to_string
to_string_lem n k h =
    let l = to_string_loop-length n n k h in (to_string_loop-value n n (omega arith), l.0, l.1)
