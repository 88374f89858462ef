-- ===== src/Http3/Varint.antt =====
-- src/http3/Http3Protocol.cpp: `readVarint` and `encodeQuicVarint`, QUIC variable-length integers.
-- A reader's `(data, len, pos)` is the list of the bytes `data[pos..len)`: reading advances it.
pub mod RoundTrip
use jacktrip.Base.{
  ℕ, zero, suc, ◌+◌, ◌-◌, ◌*◌, ◌^◌, Option, none, some, List, [], ◌∷◌, ltb, leb, length,
  if◌then◌else◌, shr, low_bits, u8, bit_or,
}

-- The loop over the bytes after the first: `value = (value << 8) | data[pos++]`.
pub read_tail : ℕ → ℕ → List ℕ → Option (ℕ × List ℕ)
read_tail zero value rest = some (value, rest)
read_tail (suc n) value [] = none
read_tail (suc n) value (b ∷ rest) = read_tail n (value * 256 + b) rest

-- `none` is the result -1. `pos + numBytes > len` is tested before the loop.
pub read_varint : List ℕ → Option (ℕ × List ℕ)
unfolding read_tail
read_varint [] = none
read_varint (first_byte ∷ rest) =
    let num_bytes = 2 ^ shr first_byte 6 in
    if ltb (suc (length rest)) num_bytes
    then none
    else read_tail (num_bytes - 1) (low_bits first_byte 6) rest

-- The bytes written to `output`; their number is the result.
pub encode_quic_varint : ℕ → List ℕ
encode_quic_varint value =
    if leb value 63
    then u8 value ∷ []
    else if leb value 16383
    then u8 (bit_or 0x40 (shr value 8)) ∷ low_bits value 8 ∷ []
    else if leb value 1073741823
    then u8 (bit_or 0x80 (shr value 24))
      ∷ low_bits (shr value 16) 8
      ∷ low_bits (shr value 8) 8
      ∷ low_bits value 8
      ∷ []
    else u8 (bit_or 0xC0 (shr value 56))
      ∷ low_bits (shr value 48) 8
      ∷ low_bits (shr value 40) 8
      ∷ low_bits (shr value 32) 8
      ∷ low_bits (shr value 24) 8
      ∷ low_bits (shr value 16) 8
      ∷ low_bits (shr value 8) 8
      ∷ low_bits value 8
      ∷ []
