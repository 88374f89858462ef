-- ===== src/Http3/Varint/RoundTrip.antt =====
-- Reading back what `encodeQuicVarint` writes.
use jacktrip.Base.{
  List, [], every_below, every_below_at, arith, bit_or, dec_lt, if◌then◌else◌, length, ltb, none,
  refl, some, true, u8, ℕ, ◌%◌, ◌&&◌, ◌*◌, ◌++◌, ◌+◌, ◌/◌, ◌<◌, ◌==◌, ◌^◌, ◌∷◌, ◌≡◌, ◌≤◌,
}
use jacktrip.Http3.Varint.{read_varint, encode_quic_varint}

-- The `|` with a length prefix, at every byte.
prefix_table :
    every_below 256 (λ x. (u8 (bit_or 0xC0 x) / 64 == 3) && (u8 (bit_or 0xC0 x) % 64 == x % 64))
    ≡ true
unfolding every_below
prefix_table = refl

prefix_table_4 :
    every_below 64 (λ x. (u8 (bit_or 0x80 x) == 128 + x) && (u8 (bit_or 0x40 x) == 64 + x)) ≡ true
unfolding every_below
prefix_table_4 = refl

prefix_8 : (x : ℕ) → x < 256 → (u8 (bit_or 0xC0 x) / 64 ≡ 3) × (u8 (bit_or 0xC0 x) % 64 ≡ x % 64)
prefix_8 x h = ground (arith, every_below_at 256 _ x prefix_table h)

prefix_4 : (x : ℕ) → x < 64 → (u8 (bit_or 0x80 x) ≡ 128 + x) × (u8 (bit_or 0x40 x) ≡ 64 + x)
prefix_4 x h = ground (arith, every_below_at 64 _ x prefix_table_4 h)

module _ (a : ℕ) (rest : List ℕ) where
  read_one : a / 64 ≡ 0 → read_varint (a ∷ rest) ≡ some (a % 64, rest)
  unfolding read_varint
  read_one e = rw e (ground arith)

  read_two : (b : ℕ) → a / 64 ≡ 1 → read_varint (a ∷ b ∷ rest) ≡ some (a % 64 * 256 + b, rest)
  unfolding read_varint
  read_two b e = rw e (ground arith)

  read_four :
      (b c d : ℕ)
      → a / 64 ≡ 2
      → read_varint (a ∷ b ∷ c ∷ d ∷ rest) ≡ some (((a % 64 * 256 + b) * 256 + c) * 256 + d, rest)
  unfolding read_varint
  read_four b c d e = rw e (ground arith)

  read_eight :
      (b c d e f g i : ℕ)
      → a / 64 ≡ 3
      → read_varint (a ∷ b ∷ c ∷ d ∷ e ∷ f ∷ g ∷ i ∷ rest)
        ≡ some (
          ((((((a % 64 * 256 + b) * 256 + c) * 256 + d) * 256 + e) * 256 + f) * 256 + g) * 256 + i,
          rest,
        )
  unfolding read_varint
  read_eight b c d e f g i h = rw h (ground arith)

module _ (v : ℕ) where
  encode_one : v < 64 → encode_quic_varint v ≡ v ∷ []
  unfolding encode_quic_varint
  encode_one h = ground arith

  encode_two : 64 ≤ v → v < 16384 → encode_quic_varint v ≡ (64 + v / 256) ∷ v % 256 ∷ []
  unfolding encode_quic_varint
  encode_two lo hi = ground (arith, prefix_4 (v / 256))

  encode_four :
      16384 ≤ v
      → v < 1073741824
      → encode_quic_varint v
        ≡ (128 + v / 2 ^ 24) ∷ v / 2 ^ 16 % 256 ∷ v / 2 ^ 8 % 256 ∷ v % 256 ∷ []
  unfolding encode_quic_varint
  encode_four lo hi = ground (arith, prefix_4 (v / 2 ^ 24))

  abbrev top_byte : ℕ
  top_byte = u8 (bit_or 0xC0 (v / 2 ^ 56))

  encode_eight :
      1073741824 ≤ v
      → encode_quic_varint v
        ≡ top_byte
          ∷ v / 2 ^ 48 % 256
          ∷ v / 2 ^ 40 % 256
          ∷ v / 2 ^ 32 % 256
          ∷ v / 2 ^ 24 % 256
          ∷ v / 2 ^ 16 % 256
          ∷ v / 2 ^ 8 % 256
          ∷ v % 256
          ∷ []
  unfolding encode_quic_varint
  encode_eight lo = ground arith

  module _ (rest : List ℕ) where
    read_short : v < 16384 → read_varint (encode_quic_varint v ++ rest) ≡ some (v, rest)
    read_short h = elim (dec_lt v 64) [
      | yes p ↦ rw (encode_one p, read_one v rest (omega arith)) (ground arith)
      | no p ↦
          rw (encode_two (omega arith) h, read_two (64 + v / 256) rest (v % 256) (omega arith))
            (ground arith)
    ]

    read_long :
        16384 ≤ v
        → v < 2 ^ 64
        → read_varint (encode_quic_varint v ++ rest) ≡ some (v % 2 ^ 62, rest)
    read_long lo h = elim (dec_lt v 1073741824) [
      | yes p ↦
          rw
            (
              encode_four lo p,
              read_four (128 + v / 2 ^ 24) rest (v / 2 ^ 16 % 256) (v / 2 ^ 8 % 256) (v % 256)
                  (omega arith),
            )
            (ground arith)
      | no p ↦
          let top = prefix_8 (v / 2 ^ 56) (omega arith) in
          rw
            (
              encode_eight (omega arith),
              read_eight top_byte rest (v / 2 ^ 48 % 256) (v / 2 ^ 40 % 256) (v / 2 ^ 32 % 256)
                  (v / 2 ^ 24 % 256) (v / 2 ^ 16 % 256) (v / 2 ^ 8 % 256) (v % 256) top.0,
              top.1,
            )
            (ground arith)
    ]

-- Reading back what was written for any `uint64_t` gives its low 62 bits and the bytes after it.
pub read_varint-encode :
    (v : ℕ) (rest : List ℕ)
    → v < 2 ^ 64
    → read_varint (encode_quic_varint v ++ rest) ≡ some (v % 2 ^ 62, rest)
read_varint-encode v rest h = elim (dec_lt v 16384) [
  | yes p ↦ rw (read_short v rest p) (ground arith)
  | no p ↦ read_long v rest (omega arith) h
]

pub read_varint-nil : read_varint [] ≡ none
unfolding read_varint
read_varint-nil = refl

-- The number of bytes written is 1, 2, 4 or 8, the least of these that holds the value.
pub length-encode_quic_varint :
    (v : ℕ)
    → length (encode_quic_varint v)
      ≡ (if ltb v (2 ^ 6) then 1 else if ltb v (2 ^ 14) then 2 else if ltb v (2 ^ 30) then 4 else 8)
unfolding encode_quic_varint
length-encode_quic_varint v = ground arith

pub encode_short : (v : ℕ) → v < 64 → encode_quic_varint v ≡ v ∷ []
encode_short v h = encode_one v h
