-- ===== src/Http3/Tests.antt =====
-- Runs of src/http3/Http3Protocol.cpp at concrete inputs.
use jacktrip.Base.{
  All, List, [], arith, if◌then◌else◌, ltb, none, some, ℕ, ◌%◌, ◌++◌, ◌+◌, ◌-◌, ◌^◌, ◌∷◌, ◌≡◌,
}
use jacktrip.Http3.Outcome.{done, undefined}
use jacktrip.Http3.Varint.{read_varint, encode_quic_varint}
use jacktrip.Http3.Varint.RoundTrip.{read_varint-encode}
use jacktrip.Http3.QpackInt.{read_qpack_int}
use jacktrip.Http3.QpackInt.RoundTrip.{qpack_int, read_qpack_int_lem}
use jacktrip.Http3.Frame.{frame_headers, parse_http3_frame}
use jacktrip.Http3.Frame.Skip.{
  IsOther, frame_bytes, stream_bytes, parse_http3_frame-stream, parse_http3_frame-none,
}
use jacktrip.Http3.Huffman.{decode_huffman}
use jacktrip.Http3.Huffman.Fuel.{Ends, decode_huffman-Ends}

read_varint-encode_example :
    read_varint (encode_quic_varint 15293 ++ (7 ∷ [])) ≡ some (15293 % 2 ^ 62, 7 ∷ [])
read_varint-encode_example = read_varint-encode 15293 (7 ∷ []) (omega arith)

read_qpack_int_lem_example :
    read_qpack_int 5 (qpack_int 5 0xE0 1337 ++ (9 ∷ []))
    ≡ (if ltb 1337 (2 ^ 5 - 1 + 2 ^ 31) then done (1337, 9 ∷ []) else undefined)
read_qpack_int_lem_example = read_qpack_int_lem 5 0xE0 1337 (9 ∷ []) (omega arith) (omega arith)

abbrev other_frames : List (ℕ × List ℕ)
other_frames = (4, 1 ∷ 0 ∷ []) ∷ (0x21, []) ∷ []

other_frames_lem : All IsOther other_frames
other_frames_lem = (
  ((λ e. omega arith), omega arith, omega arith),
  (((λ e. omega arith), omega arith, omega arith), tt),
)

parse_http3_frame-stream_example :
    parse_http3_frame
      (stream_bytes other_frames (frame_bytes frame_headers (0 ∷ 0 ∷ 0xD9 ∷ []) ++ (5 ∷ [])))
    ≡ some (0 ∷ 0 ∷ 0xD9 ∷ [])
parse_http3_frame-stream_example =
    parse_http3_frame-stream other_frames (0 ∷ 0 ∷ 0xD9 ∷ []) (5 ∷ []) other_frames_lem
      (omega arith)

parse_http3_frame-none_example :
    (parse_http3_frame (stream_bytes other_frames []) ≡ none)
    × (parse_http3_frame (
          stream_bytes other_frames
            (encode_quic_varint 1 ++ (encode_quic_varint 300 ++ (0 ∷ 0 ∷ []))))
        ≡ none)
parse_http3_frame-none_example =
    parse_http3_frame-none other_frames 1 300 (0 ∷ 0 ∷ []) other_frames_lem (omega arith)
      (omega arith) (omega arith)

-- `www.example.com`
abbrev huffman_example : List ℕ
huffman_example =
    0xf1 ∷ 0xe3 ∷ 0xc2 ∷ 0xe5 ∷ 0xf2 ∷ 0x3a ∷ 0x6b ∷ 0xa0 ∷ 0xab ∷ 0x90 ∷ 0xf4 ∷ 0xff ∷ []

decode_huffman-Ends_example :
    Ends 96
      (record { accum = 0; bits = 0; bytes = huffman_example })
      (decode_huffman huffman_example)
decode_huffman-Ends_example = decode_huffman-Ends huffman_example

abbrev field_lines : List ℕ
field_lines = 0xD9 ∷ 0x50 ∷ 0x01 ∷ 0x2F ∷ []
