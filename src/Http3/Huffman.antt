-- ===== src/Http3/Huffman.antt =====
-- src/http3/Http3Protocol.cpp: `decodeHuffman`.
pub mod Fuel
mod Tests
use jacktrip.Base.{
  Bool, List, Option, [], false, if◌then◌else◌, leb, length, low_bits, ltb, none, not, shl, shr,
  some, suc, sym, true, u32, zero, ℕ, ◌%◌, ◌&&◌, ◌*◌, ◌+◌, ◌-◌, ◌==◌, ◌^◌, ◌||◌, ◌∷◌,
}
use jacktrip.Http3.HuffmanTable.{HuffmanCode, huffman_codes}

-- The 64-bit accumulator, of which the low `bits` bits are not decoded yet, and the bytes not loaded
-- yet.
pub record Window : Type 0 where
  pub accum : ℕ
  pub bits : ℕ
  pub bytes : List ℕ

-- `while (bits < 32 && bytePos < len) { accum = (accum << 8) | data[bytePos++]; bits += 8; }`
pub fill : ℕ → ℕ → List ℕ → Window
fill accum bits [] = record { accum = accum; bits = bits; bytes = [] }
fill accum bits (b ∷ bytes) =
    let more = fill (shl accum 8 % 2 ^ 64 + b) (bits + 8) bytes in
    if ltb bits 32 then more else record { accum = accum; bits = bits; bytes = b ∷ bytes }

-- The first entry of the table whose code stands at the head of the window.
pub find_code : ℕ → ℕ → List HuffmanCode → Option HuffmanCode
find_code accum bits [] = none
find_code accum bits (e ∷ es) =
    let next = find_code accum bits es in
    if ltb bits e.bits
    then next
    else if low_bits (u32 (shr accum (bits - e.bits))) e.bits == e.code
    then some e
    else next

-- What a round does with the filled window: stop, or drop some bits, after a symbol or without one.
pub data Round : Type 0 where
  stop : Round
  symbol : ℕ → Window → Round
  skip : Window → Round

pub round_missing : Window → Round
round_missing w =
    if leb w.bits 7 && low_bits w.accum w.bits == 2 ^ w.bits - 1
    then stop
    else let bits' = w.bits - 1 in
      skip
        (record w { accum = if ltb 0 bits' then low_bits w.accum bits' else w.accum; bits = bits' })

pub round_found : Window → Option HuffmanCode → Round
unfolding round_missing
round_found w none = round_missing w
round_found w (some e) =
    let bits' = w.bits - e.bits in
    symbol e.sym (record w { accum = low_bits w.accum bits'; bits = bits' })

pub round : Window → Round
round w = if ltb w.bits 5 then stop else round_found w (find_code w.accum w.bits huffman_codes)

unfoldable pub is_empty : List ℕ → Bool
is_empty [] = true
is_empty (b ∷ bytes) = false

-- The outer loop on fuel. What it returns is appended to `result`. Fuel that has run out would end the
-- string as well.
pub decode_loop : ℕ → Window → List ℕ
unfolding is_empty
decode_loop zero w = []
decode_loop (suc fuel) w =
    if not (is_empty w.bytes) || leb 5 w.bits
    then elim (round (fill w.accum w.bits w.bytes)) [
      | stop ↦ []
      | symbol sym w' ↦ sym ∷ decode_loop fuel w'
      | skip w' ↦ decode_loop fuel w'
    ]
    else []

-- Every round drops at least one bit, so one round more than there are bits is enough.
pub decode_huffman : List ℕ → List ℕ
unfolding decode_loop round round_found find_code huffman_codes fill
decode_huffman bytes =
    decode_loop (8 * length bytes + 1) (record { accum = 0; bits = 0; bytes = bytes })
