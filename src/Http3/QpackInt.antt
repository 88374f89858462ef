-- ===== src/Http3/QpackInt.antt =====
-- src/http3/Http3Protocol.cpp: `readQpackInt`, integers with a prefix of some bits, and the loop of
-- src/webtransport/WebTransportSession.cpp that writes their continuation bytes.
pub mod Continuation
pub mod RoundTrip
pub mod Small
pub mod Consumes
use jacktrip.Base.{
  List, [], bit_or, if◌then◌else◌, leb, low_bits, ltb, shr, suc, test_bit, u8, zero, ℕ, ◌*◌, ◌+◌,
  ◌-◌, ◌==◌, ◌^◌, ◌||◌, ◌∷◌,
}
use jacktrip.Http3.Outcome.{Outcome, done, failed, undefined}

-- The do-while loop. `(b & 0x7F) * (1 << m)` is an `int`: it is defined below 2 ^ 31 only, and the
-- shift for `m` below 31 only. `value` has 64 bits.
pub read_continuation : ℕ → ℕ → List ℕ → Outcome (ℕ × List ℕ)
read_continuation m value [] = failed
read_continuation m value (b ∷ rest) =
    let term = low_bits b 7 * 2 ^ m in
    let more = read_continuation (m + 7) (value + term) rest in
    if leb 31 m || leb (2 ^ 31) term
    then undefined
    else if test_bit b 7
    then more
    else done (value + term, rest)

pub read_qpack_int : ℕ → List ℕ → Outcome (ℕ × List ℕ)
unfolding read_continuation
read_qpack_int prefix_bits [] = failed
read_qpack_int prefix_bits (b ∷ rest) =
    if ltb prefix_bits 1 || ltb 8 prefix_bits
    then failed
    else let mask = 2 ^ prefix_bits - 1 in
      let value = low_bits b prefix_bits in
      if value == mask then read_continuation 0 value rest else done (value, rest)

-- `while (remaining >= 128) { push(0x80 | (remaining & 0x7F)); remaining >>= 7; } push(remaining);`
-- on fuel; `remaining` itself is enough.
unfoldable pub push_remaining : ℕ → ℕ → List ℕ
push_remaining zero remaining = u8 remaining ∷ []
push_remaining (suc fuel) remaining =
    let rest = push_remaining fuel (shr remaining 7) in
    if leb 128 remaining then bit_or 0x80 (low_bits remaining 7) ∷ rest else u8 remaining ∷ []
