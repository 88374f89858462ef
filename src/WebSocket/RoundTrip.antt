-- ===== src/WebSocket/RoundTrip.antt =====
-- A frame that the server encodes is decoded again.
use jacktrip.Base.{
  List, ap, arith, dec_lt, drop, drop-append_length, drop-drop, false, if◌then◌else◌, leb-false,
  length, length-append, low_bits, ltb, ltb-false, lt→ltb, none, refl, shr, some, sym,
  take-append_length, test_bit, true, ℕ, ◌%◌, ◌*◌, ◌++◌, ◌+◌, ◌<◌, ◌==◌, ◌>>=◌, ◌^◌, ◌∷◌, ◌≡◌, ◌≤◌,
}
use jacktrip.WebSocket.{
  encode_length, encode_web_socket_frame, two_bytes, extended_length, masking_key, decoded,
  extract_payload, after_length, decode_web_socket_frame,
}

-- A text frame without a mask, up to 65535 bytes, from whatever comes after it.
unmasked :
    (m rest old buffer : List ℕ) (pos : ℕ)
    → length m < 65536
    → pos ≤ 10
    → length buffer ≡ pos + length (m ++ rest)
    → drop pos buffer ≡ m ++ rest
    → after_length 1 false buffer old
        (some (record { length_of = length m; pos = pos; rest = m ++ rest }))
      ≡ decoded true rest m
unfolding after_length extract_payload masking_key
unmasked m rest old buffer pos small low e at =
    let n : length m % 2 ^ 32 ≡ length m = omega arith in
    rw
      (
        n,
        leb-false (2 ^ 31) (pos + length m) (omega arith),
        ltb-false (length buffer) (pos + length m) (omega (arith, length-append m rest)),
        sym (drop-drop (length m) pos buffer),
        at,
        take-append_length (length m) m rest refl,
        drop-append_length (length m) m rest refl,
      )
      refl

short_frame :
    (m rest old : List ℕ)
    → length m < 126
    → decode_web_socket_frame (0x81 ∷ length m ∷ (m ++ rest)) old ≡ decoded true rest m
unfolding decode_web_socket_frame extended_length
short_frame m rest old h =
    let bits : low_bits (length m) 7 ≡ length m = omega arith in
    let off : test_bit (length m) 7 ≡ false = ground arith in
    let not_126 : (length m == 126) ≡ false = ground arith in
    let not_127 : (length m == 127) ≡ false = ground arith in
    rw (bits, off, not_126, not_127)
      (unmasked m rest old (0x81 ∷ length m ∷ (m ++ rest)) 2 (omega arith) (omega arith)
        (omega arith) refl)

long_frame :
    (m rest old : List ℕ)
    → length m < 65536
    → decode_web_socket_frame
        (0x81 ∷ 126 ∷ low_bits (shr (length m) 8) 8 ∷ low_bits (length m) 8 ∷ (m ++ rest))
        old
      ≡ decoded true rest m
unfolding decode_web_socket_frame extended_length two_bytes
long_frame m rest old h =
    let sum : low_bits (shr (length m) 8) 8 * 256 + low_bits (length m) 8 ≡ length m =
      omega arith in
    rw sum (
      unmasked m rest old
        (0x81 ∷ 126 ∷ low_bits (shr (length m) 8) 8 ∷ low_bits (length m) 8 ∷ (m ++ rest)) 4
        (omega arith) (omega arith) (omega arith) refl)

-- A payload of up to 65535 bytes is encoded as a frame that, whatever follows it in the buffer, is
-- decoded to that payload and removed from the buffer; for a longer one the encoder has no defined
-- result.
pub decode-encode_web_socket_frame :
    (m rest old : List ℕ)
    → (encode_web_socket_frame m >>= λ frame. some (decode_web_socket_frame (frame ++ rest) old))
      ≡ (if ltb (length m) 65536 then some (decoded true rest m) else none)
unfolding encode_web_socket_frame encode_length
decode-encode_web_socket_frame m rest old = elim (dec_lt (length m) 126) [
  | yes p ↦
      rw (lt→ltb (length m) 126 p, lt→ltb (length m) 65536 (omega arith))
        (ap some (short_frame m rest old p))
  | no p ↦ elim (dec_lt (length m) 65536) [
    | yes q ↦
        rw (ltb-false (length m) 126 (omega arith), lt→ltb (length m) 65536 q)
          (ap some (long_frame m rest old q))
    | no q ↦
        rw (ltb-false (length m) 126 (omega arith), ltb-false (length m) 65536 (omega arith)) refl
  ]
]
