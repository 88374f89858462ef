-- ===== src/WebSocket/Tests.antt =====
-- Frames of concrete payloads; the second is the masked example of RFC 6455.
use jacktrip.Base.{
  [], codes, if◌then◌else◌, length, ltb, none, refl, some, true, ◌++◌, ◌>>=◌, ◌∷◌, ◌≡◌,
}
use jacktrip.WebSocket.{encode_web_socket_frame, decoded, decode_web_socket_frame}
use jacktrip.WebSocket.RoundTrip.{decode-encode_web_socket_frame}

decode-encode_web_socket_frame_example :
    (encode_web_socket_frame (codes "Hello") >>= λ frame.
    some (decode_web_socket_frame (frame ++ (1 ∷ 2 ∷ [])) []))
    ≡ (if ltb (length (codes "Hello")) 65536
        then some (decoded true (1 ∷ 2 ∷ []) (codes "Hello"))
        else none)
decode-encode_web_socket_frame_example =
    decode-encode_web_socket_frame (codes "Hello") (1 ∷ 2 ∷ []) []

masked_hello :
    decode_web_socket_frame
      (0x81 ∷ 0x85 ∷ 0x37 ∷ 0xfa ∷ 0x21 ∷ 0x3d ∷ 0x7f ∷ 0x9f ∷ 0x4d ∷ 0x51 ∷ 0x58 ∷ [])
      []
    ≡ decoded true [] (codes "Hello")
unfolding decode_web_socket_frame
masked_hello = refl
