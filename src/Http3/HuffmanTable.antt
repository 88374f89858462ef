-- ===== src/Http3/HuffmanTable.antt =====
-- src/http3/Http3Protocol.cpp: `HUFFMAN_CODES`, the codes of RFC 7541 in the order of the source.
use jacktrip.Base.{ℕ, List, [], ◌∷◌, ◌++◌}

-- struct HuffmanCode
pub record HuffmanCode : Type 0 where
  pub code : ℕ
  pub bits : ℕ
  pub sym : ℕ

abbrev entry : ℕ → ℕ → ℕ → HuffmanCode
entry code bits sym = record { code = code; bits = bits; sym = sym }

-- The codes of 5 to 19 bits.
pub short_codes : List HuffmanCode
short_codes =
    entry 0x00 5 0x30
    ∷ entry 0x01 5 0x31
    ∷ entry 0x02 5 0x32
    ∷ entry 0x03 5 0x61
    ∷ entry 0x04 5 0x63
    ∷ entry 0x05 5 0x65
    ∷ entry 0x06 5 0x69
    ∷ entry 0x07 5 0x6f
    ∷ entry 0x08 5 0x73
    ∷ entry 0x09 5 0x74
    ∷ entry 0x14 6 0x20
    ∷ entry 0x15 6 0x25
    ∷ entry 0x16 6 0x2d
    ∷ entry 0x17 6 0x2e
    ∷ entry 0x18 6 0x2f
    ∷ entry 0x19 6 0x33
    ∷ entry 0x1a 6 0x34
    ∷ entry 0x1b 6 0x35
    ∷ entry 0x1c 6 0x36
    ∷ entry 0x1d 6 0x37
    ∷ entry 0x1e 6 0x38
    ∷ entry 0x1f 6 0x39
    ∷ entry 0x20 6 0x3d
    ∷ entry 0x21 6 0x41
    ∷ entry 0x22 6 0x5f
    ∷ entry 0x23 6 0x62
    ∷ entry 0x24 6 0x64
    ∷ entry 0x25 6 0x66
    ∷ entry 0x26 6 0x67
    ∷ entry 0x27 6 0x68
    ∷ entry 0x28 6 0x6c
    ∷ entry 0x29 6 0x6d
    ∷ entry 0x2a 6 0x6e
    ∷ entry 0x2b 6 0x70
    ∷ entry 0x2c 6 0x72
    ∷ entry 0x2d 6 0x75
    ∷ entry 0x5c 7 0x3a
    ∷ entry 0x5d 7 0x42
    ∷ entry 0x5e 7 0x43
    ∷ entry 0x5f 7 0x44
    ∷ entry 0x60 7 0x45
    ∷ entry 0x61 7 0x46
    ∷ entry 0x62 7 0x47
    ∷ entry 0x63 7 0x48
    ∷ entry 0x64 7 0x49
    ∷ entry 0x65 7 0x4a
    ∷ entry 0x66 7 0x4b
    ∷ entry 0x67 7 0x4c
    ∷ entry 0x68 7 0x4d
    ∷ entry 0x69 7 0x4e
    ∷ entry 0x6a 7 0x4f
    ∷ entry 0x6b 7 0x50
    ∷ entry 0x6c 7 0x51
    ∷ entry 0x6d 7 0x52
    ∷ entry 0x6e 7 0x53
    ∷ entry 0x6f 7 0x54
    ∷ entry 0x70 7 0x55
    ∷ entry 0x71 7 0x56
    ∷ entry 0x72 7 0x57
    ∷ entry 0x73 7 0x59
    ∷ entry 0x74 7 0x6a
    ∷ entry 0x75 7 0x6b
    ∷ entry 0x76 7 0x71
    ∷ entry 0x77 7 0x76
    ∷ entry 0x78 7 0x77
    ∷ entry 0x79 7 0x78
    ∷ entry 0x7a 7 0x79
    ∷ entry 0x7b 7 0x7a
    ∷ entry 0xf8 8 0x26
    ∷ entry 0xf9 8 0x2a
    ∷ entry 0xfa 8 0x2c
    ∷ entry 0xfb 8 0x3b
    ∷ entry 0xfc 8 0x58
    ∷ entry 0xfd 8 0x5a
    ∷ entry 0x3f8 10 0x21
    ∷ entry 0x3f9 10 0x22
    ∷ entry 0x3fa 10 0x28
    ∷ entry 0x3fb 10 0x29
    ∷ entry 0x3fc 10 0x3f
    ∷ entry 0x7fa 11 0x27
    ∷ entry 0x7fb 11 0x2b
    ∷ entry 0x7fc 11 0x7c
    ∷ entry 0xffa 12 0x23
    ∷ entry 0xffb 12 0x3e
    ∷ entry 0x1ff8 13 0x00
    ∷ entry 0x1ff9 13 0x24
    ∷ entry 0x1ffa 13 0x40
    ∷ entry 0x1ffb 13 0x5b
    ∷ entry 0x1ffc 13 0x5d
    ∷ entry 0x1ffd 13 0x7e
    ∷ entry 0x3ffc 14 0x5e
    ∷ entry 0x3ffd 14 0x7d
    ∷ entry 0x7ffc 15 0x3c
    ∷ entry 0x7ffd 15 0x60
    ∷ entry 0x7ffe 15 0x7b
    ∷ entry 0x7fff0 19 0x5c
    ∷ []

-- The codes of 20 to 23 bits.
pub middle_codes : List HuffmanCode
middle_codes =
    entry 0xfffe6 20 0xc3
    ∷ entry 0xfffe7 20 0xd0
    ∷ entry 0xfffe8 20 0x80
    ∷ entry 0xfffe9 20 0x82
    ∷ entry 0xfffea 20 0x83
    ∷ entry 0xfffeb 20 0xa2
    ∷ entry 0xfffec 20 0xb8
    ∷ entry 0xfffed 20 0xc2
    ∷ entry 0xfffee 20 0xe0
    ∷ entry 0xfffef 20 0xe2
    ∷ entry 0x1fffdc 21 0x99
    ∷ entry 0x1fffdd 21 0xa1
    ∷ entry 0x1fffde 21 0xa7
    ∷ entry 0x1fffdf 21 0xac
    ∷ entry 0x1fffe0 21 0xb0
    ∷ entry 0x1fffe1 21 0xb1
    ∷ entry 0x1fffe2 21 0xb3
    ∷ entry 0x1fffe3 21 0xd1
    ∷ entry 0x1fffe4 21 0xd8
    ∷ entry 0x1fffe5 21 0xd9
    ∷ entry 0x1fffe6 21 0xe3
    ∷ entry 0x1fffe7 21 0xe5
    ∷ entry 0x1fffe8 21 0xe6
    ∷ entry 0x3fffd2 22 0x81
    ∷ entry 0x3fffd3 22 0x84
    ∷ entry 0x3fffd4 22 0x85
    ∷ entry 0x3fffd5 22 0x86
    ∷ entry 0x3fffd6 22 0x88
    ∷ entry 0x3fffd7 22 0x92
    ∷ entry 0x3fffd8 22 0x9a
    ∷ entry 0x3fffd9 22 0x9c
    ∷ entry 0x3fffda 22 0xa0
    ∷ entry 0x3fffdb 22 0xa3
    ∷ entry 0x3fffdc 22 0xa4
    ∷ entry 0x3fffdd 22 0xa9
    ∷ entry 0x3fffde 22 0xaa
    ∷ entry 0x3fffdf 22 0xad
    ∷ entry 0x3fffe0 22 0xb2
    ∷ entry 0x3fffe1 22 0xb5
    ∷ entry 0x3fffe2 22 0xb9
    ∷ entry 0x3fffe3 22 0xba
    ∷ entry 0x3fffe4 22 0xbb
    ∷ entry 0x3fffe5 22 0xbd
    ∷ entry 0x3fffe6 22 0xbe
    ∷ entry 0x3fffe7 22 0xc4
    ∷ entry 0x3fffe8 22 0xc6
    ∷ entry 0x3fffe9 22 0xe4
    ∷ entry 0x3fffea 22 0xe8
    ∷ entry 0x3fffeb 22 0xe9
    ∷ entry 0x7fffd8 23 0x01
    ∷ entry 0x7fffd9 23 0x87
    ∷ entry 0x7fffda 23 0x89
    ∷ entry 0x7fffdb 23 0x8a
    ∷ entry 0x7fffdc 23 0x8b
    ∷ entry 0x7fffdd 23 0x8c
    ∷ entry 0x7fffde 23 0x8d
    ∷ entry 0x7fffdf 23 0x8f
    ∷ entry 0x7fffe0 23 0x93
    ∷ entry 0x7fffe1 23 0x95
    ∷ entry 0x7fffe2 23 0x96
    ∷ entry 0x7fffe3 23 0x97
    ∷ entry 0x7fffe4 23 0x98
    ∷ entry 0x7fffe5 23 0x9b
    ∷ entry 0x7fffe6 23 0x9d
    ∷ entry 0x7fffe7 23 0x9e
    ∷ entry 0x7fffe8 23 0xa5
    ∷ entry 0x7fffe9 23 0xa6
    ∷ entry 0x7fffea 23 0xa8
    ∷ entry 0x7fffeb 23 0xae
    ∷ entry 0x7fffec 23 0xaf
    ∷ entry 0x7fffed 23 0xb4
    ∷ entry 0x7fffee 23 0xb6
    ∷ entry 0x7fffef 23 0xb7
    ∷ entry 0x7ffff0 23 0xbc
    ∷ entry 0x7ffff1 23 0xbf
    ∷ entry 0x7ffff2 23 0xc5
    ∷ entry 0x7ffff3 23 0xe7
    ∷ entry 0x7ffff4 23 0xef
    ∷ []

-- The codes of 24 to 28 bits.
pub long_codes : List HuffmanCode
long_codes =
    entry 0xffffea 24 0x09
    ∷ entry 0xffffeb 24 0x8e
    ∷ entry 0xffffec 24 0x90
    ∷ entry 0xffffed 24 0x91
    ∷ entry 0xffffee 24 0x94
    ∷ entry 0xffffef 24 0x9f
    ∷ entry 0xfffff0 24 0xab
    ∷ entry 0xfffff1 24 0xce
    ∷ entry 0xfffff2 24 0xd7
    ∷ entry 0xfffff3 24 0xe1
    ∷ entry 0xfffff4 24 0xec
    ∷ entry 0xfffff5 24 0xed
    ∷ entry 0x1ffffec 25 0xc7
    ∷ entry 0x1ffffed 25 0xcf
    ∷ entry 0x1ffffee 25 0xea
    ∷ entry 0x1ffffef 25 0xeb
    ∷ entry 0x3ffffe0 26 0xc0
    ∷ entry 0x3ffffe1 26 0xc1
    ∷ entry 0x3ffffe2 26 0xc8
    ∷ entry 0x3ffffe3 26 0xc9
    ∷ entry 0x3ffffe4 26 0xca
    ∷ entry 0x3ffffe5 26 0xcd
    ∷ entry 0x3ffffe6 26 0xd2
    ∷ entry 0x3ffffe7 26 0xd5
    ∷ entry 0x3ffffe8 26 0xda
    ∷ entry 0x3ffffe9 26 0xdb
    ∷ entry 0x3ffffea 26 0xee
    ∷ entry 0x3ffffeb 26 0xf0
    ∷ entry 0x3ffffec 26 0xf2
    ∷ entry 0x3ffffed 26 0xf3
    ∷ entry 0x3ffffee 26 0xff
    ∷ entry 0x7ffffde 27 0xcb
    ∷ entry 0x7ffffdf 27 0xcc
    ∷ entry 0x7ffffe0 27 0xd3
    ∷ entry 0x7ffffe1 27 0xd4
    ∷ entry 0x7ffffe2 27 0xd6
    ∷ entry 0x7ffffe3 27 0xdd
    ∷ entry 0x7ffffe4 27 0xde
    ∷ entry 0x7ffffe5 27 0xdf
    ∷ entry 0x7ffffe6 27 0xf1
    ∷ entry 0x7ffffe7 27 0xf4
    ∷ entry 0x7ffffe8 27 0xf5
    ∷ entry 0x7ffffe9 27 0xf6
    ∷ entry 0x7ffffea 27 0xf7
    ∷ entry 0x7ffffeb 27 0xf8
    ∷ entry 0x7ffffec 27 0xfa
    ∷ entry 0x7ffffed 27 0xfb
    ∷ entry 0x7ffffee 27 0xfc
    ∷ entry 0x7ffffef 27 0xfd
    ∷ entry 0x7fffff0 27 0xfe
    ∷ entry 0xfffffe2 28 0x02
    ∷ entry 0xfffffe3 28 0x03
    ∷ entry 0xfffffe4 28 0x04
    ∷ entry 0xfffffe5 28 0x05
    ∷ entry 0xfffffe6 28 0x06
    ∷ entry 0xfffffe7 28 0x07
    ∷ entry 0xfffffe8 28 0x08
    ∷ entry 0xfffffe9 28 0x0b
    ∷ entry 0xfffffea 28 0x0c
    ∷ entry 0xfffffeb 28 0x0e
    ∷ entry 0xfffffec 28 0x0f
    ∷ entry 0xfffffed 28 0x10
    ∷ entry 0xfffffee 28 0x11
    ∷ entry 0xfffffef 28 0x12
    ∷ entry 0xffffff0 28 0x13
    ∷ entry 0xffffff1 28 0x14
    ∷ entry 0xffffff2 28 0x15
    ∷ entry 0xffffff3 28 0x17
    ∷ entry 0xffffff4 28 0x18
    ∷ entry 0xffffff5 28 0x19
    ∷ entry 0xffffff6 28 0x1a
    ∷ entry 0xffffff7 28 0x1b
    ∷ entry 0xffffff8 28 0x1c
    ∷ entry 0xffffff9 28 0x1d
    ∷ entry 0xffffffa 28 0x1e
    ∷ entry 0xffffffb 28 0x1f
    ∷ entry 0xffffffc 28 0x7f
    ∷ entry 0xffffffd 28 0xdc
    ∷ entry 0xffffffe 28 0xf9
    ∷ []

unfoldable pub huffman_codes : List HuffmanCode
unfolding short_codes middle_codes long_codes
huffman_codes = short_codes ++ (middle_codes ++ long_codes)
