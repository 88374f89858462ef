-- ===== src/WebSocket.antt =====
-- src/webrtc/WebSocketSignalingConnection.cpp: `decodeWebSocketFrame` and `encodeWebSocketFrame`. A
-- `QByteArray` is the list of its bytes.
pub mod RoundTrip
mod Tests
use Prim.Native.Nat.{bit_xor}
use jacktrip.Base.{
  Bool, List, Option, [], drop, false, get_or, if◌then◌else◌, leb, length, low_bits, ltb, none, not,
  shr, some, suc, take, test_bit, zero, ℕ, ◌%◌, ◌*◌, ◌++◌, ◌+◌, ◌==◌, ◌>>=◌, ◌^◌, ◌∷◌,
}

-- The bytes of `length`, an `int`. For 65536 bytes and more the loop shifts it by up to 56 places,
-- which C++ leaves undefined: `none`.
pub encode_length : ℕ → Option (List ℕ)
encode_length n =
    if ltb n 126
    then some (n ∷ [])
    else if ltb n 65536
    then some (126 ∷ low_bits (shr n 8) 8 ∷ low_bits n 8 ∷ [])
    else none

pub encode_web_socket_frame : List ℕ → Option (List ℕ)
unfolding encode_length
encode_web_socket_frame payload = do
  head ← encode_length (length payload)
  some (0x81 ∷ (head ++ payload))

-- The length and the bytes after it, if they are there; `pos` is the number of bytes read.
pub record Length : Type 0 where
  pub length_of : ℕ
  pub pos : ℕ
  pub rest : List ℕ

-- `length = (length << 8) | byte` for eight bytes, in 64 bits.
pub eight_bytes : ℕ → ℕ → List ℕ → Option (ℕ × List ℕ)
eight_bytes zero n rest = some (n, rest)
eight_bytes (suc left) n [] = none
eight_bytes (suc left) n (b ∷ rest) = eight_bytes left (n * 256 % 2 ^ 64 + b) rest

pub two_bytes : List ℕ → Option Length
two_bytes (a ∷ b ∷ rest) = some (record { length_of = a * 256 + b; pos = 4; rest = rest })
two_bytes rest = none

pub extended_length : ℕ → List ℕ → Option Length
unfolding two_bytes eight_bytes
extended_length n rest =
    if n == 126
    then two_bytes rest
    else if n == 127
    then (do
      (m, rest') ← eight_bytes 8 0 rest
      some (record { length_of = m; pos = 10; rest = rest' }))
    else some (record { length_of = n; pos = 2; rest = rest })

-- The masking key, empty if there is none, with the position after it.
pub masking_key : Bool → Length → Option (List ℕ × Length)
masking_key masked l =
    if masked
    then (if ltb (length l.rest) 4
        then none
        else some (take 4 l.rest, record l { pos = l.pos + 4; rest = drop 4 l.rest }))
    else some ([], l)

-- `payload[i] = payload[i] ^ mask[i % 4]`
pub unmask : List ℕ → ℕ → List ℕ → List ℕ
unmask mask i [] = []
unmask mask i (b ∷ bytes) = bit_xor b (get_or mask (i % 4) 0) ∷ unmask mask (i + 1) bytes

-- The result with the buffer and the payload after the call; `overflows` where a length does not fit
-- an `int`, which the casts do not check.
pub data Decoded : Type 0 where
  decoded : Bool → List ℕ → List ℕ → Decoded
  overflows : Decoded

pub extract_payload : ℕ → Bool → List ℕ → List ℕ → List ℕ → Length → Decoded
unfolding unmask
extract_payload opcode masked mask buffer payload l =
    let n = l.length_of % 2 ^ 32 in
    let bytes = take n l.rest in
    if leb (2 ^ 31) (l.pos + n)
    then overflows
    else if ltb (length buffer) (l.pos + n)
    then decoded false buffer payload
    else decoded (not (opcode == 0x08)) (drop (l.pos + n) buffer)
        (if masked then unmask mask 0 bytes else bytes)

-- The rest of the function after the two first bytes; `buffer` and `payload` are the arguments.
pub after_length : ℕ → Bool → List ℕ → List ℕ → Option Length → Decoded
unfolding extract_payload masking_key
after_length opcode masked buffer payload none = decoded false buffer payload
after_length opcode masked buffer payload (some l) = elim (masking_key masked l) [
  | none ↦ decoded false buffer payload
  | some (mask, l') ↦ extract_payload opcode masked mask buffer payload l'
]

pub decode_web_socket_frame : List ℕ → List ℕ → Decoded
unfolding after_length extended_length
decode_web_socket_frame (byte0 ∷ byte1 ∷ rest) payload =
    after_length (low_bits byte0 4) (test_bit byte1 7) (byte0 ∷ byte1 ∷ rest) payload
      (extended_length (low_bits byte1 7) rest)
decode_web_socket_frame buffer payload = decoded false buffer payload
