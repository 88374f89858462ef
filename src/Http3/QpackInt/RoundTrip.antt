-- ===== src/Http3/QpackInt/RoundTrip.antt =====
-- What `readQpackInt` makes of every integer that an encoder can send.
use native.Mathlib.Nat.{one-le-pow, mul-add-mod_self_right, mod-eq_of_lt}
use jacktrip.Http3.QpackInt.Continuation.{read_continuation-push, read_continuation_wide}
use jacktrip.Base.{
  List, [], ap, arith, dec_lt, if◌then◌else◌, low_bits, ltb, ltb-false, lt→ltb, ℕ, ◌*◌, ◌++◌, ◌+◌,
  ◌-◌, ◌<◌, ◌^◌, ◌∙◌, ◌∷◌, ◌≡◌, ◌≤◌,
}
use jacktrip.Http3.Outcome.{done, undefined}
use jacktrip.Http3.QpackInt.{read_continuation, read_qpack_int, push_remaining}

-- The encoding of RFC 9204: the prefix if it fits, else a full prefix and continuation bytes.
-- `flags` are the bits above the prefix.
unfoldable pub qpack_int : ℕ → ℕ → ℕ → List ℕ
unfolding push_remaining
qpack_int prefix_bits flags v =
    let mask = 2 ^ prefix_bits - 1 in
    if ltb v mask
    then (flags * 2 ^ prefix_bits + v) ∷ []
    else (flags * 2 ^ prefix_bits + mask) ∷ push_remaining (v - mask) (v - mask)

module _ (prefix_bits flags : ℕ) (rest : List ℕ) (lo : 1 ≤ prefix_bits) (hi : prefix_bits ≤ 8) where
  prefix_value :
      (c : ℕ) → c < 2 ^ prefix_bits → low_bits (flags * 2 ^ prefix_bits + c) prefix_bits ≡ c
  prefix_value c h = mul-add-mod_self_right flags (2 ^ prefix_bits) c ∙ mod-eq_of_lt h

  read_short :
      (v : ℕ)
      → v < 2 ^ prefix_bits - 1
      → read_qpack_int prefix_bits ((flags * 2 ^ prefix_bits + v) ∷ rest) ≡ done (v, rest)
  unfolding read_qpack_int
  read_short v h = rw (prefix_value v (omega arith)) (ground arith)

  read_full :
      (more : List ℕ)
      → read_qpack_int prefix_bits ((flags * 2 ^ prefix_bits + (2 ^ prefix_bits - 1)) ∷ more)
        ≡ read_continuation 0 (2 ^ prefix_bits - 1) more
  unfolding read_qpack_int
  read_full more =
      rw
        (prefix_value (2 ^ prefix_bits - 1) (omega (arith, one-le-pow prefix_bits 2 (omega arith))))
        (ground arith)

-- Every value that a QPACK encoder sends with a prefix of 1 to 8 bits below any flags is read back,
-- with the bytes after it, as long as its part beyond the prefix is below 2 ^ 31; beyond that the
-- read performs an operation that C++ leaves undefined.
pub read_qpack_int_lem :
    (prefix_bits flags v : ℕ) (rest : List ℕ)
    → 1 ≤ prefix_bits
    → prefix_bits ≤ 8
    → read_qpack_int prefix_bits (qpack_int prefix_bits flags v ++ rest)
      ≡ (if ltb v (2 ^ prefix_bits - 1 + 2 ^ 31) then done (v, rest) else undefined)
unfolding qpack_int
read_qpack_int_lem prefix_bits flags v rest lo hi = elim (dec_lt v (2 ^ prefix_bits - 1)) [
  | yes p ↦
      rw (lt→ltb v _ p, lt→ltb v (2 ^ prefix_bits - 1 + 2 ^ 31) (omega arith))
        (read_short prefix_bits flags rest lo hi v p)
  | no p ↦
      rw (ltb-false v (2 ^ prefix_bits - 1) (omega arith), read_full prefix_bits flags rest lo hi)
        (elim (dec_lt v (2 ^ prefix_bits - 1 + 2 ^ 31)) [
          | yes q ↦
              rw
                (
                  lt→ltb v (2 ^ prefix_bits - 1 + 2 ^ 31) q,
                  read_continuation-push (v - (2 ^ prefix_bits - 1)) 0 (2 ^ prefix_bits - 1)
                      (v - (2 ^ prefix_bits - 1)) rest (omega arith) (omega arith) (omega arith),
                )
                (ap (λ k. done (k, rest)) (omega arith))
          | no q ↦ rw (ltb-false v (2 ^ prefix_bits - 1 + 2 ^ 31) (omega arith)) (
              read_continuation_wide (2 ^ prefix_bits - 1) (v - (2 ^ prefix_bits - 1))
                (v - (2 ^ prefix_bits - 1)) rest (omega arith) (omega arith))
        ])
]
