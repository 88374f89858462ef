-- ===== src/Http3/Huffman/Tests.antt =====
-- Decoding of Huffman codes at concrete inputs.
use jacktrip.Base.{[], codes, refl, ◌∷◌, ◌≡◌}
use jacktrip.Http3.Huffman.{decode_huffman}

-- The example of RFC 7541, C.4.1.
decode_huffman_www :
    decode_huffman
      (0xf1 ∷ 0xe3 ∷ 0xc2 ∷ 0xe5 ∷ 0xf2 ∷ 0x3a ∷ 0x6b ∷ 0xa0 ∷ 0xab ∷ 0x90 ∷ 0xf4 ∷ 0xff ∷ [])
    ≡ codes "www.example.com"
unfolding decode_huffman
decode_huffman_www = refl
