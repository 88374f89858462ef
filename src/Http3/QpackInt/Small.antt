-- ===== src/Http3/QpackInt/Small.antt =====
-- The integers that the server's own field lines hold.
use jacktrip.Base.{List, [], arith, refl, ℕ, ◌+◌, ◌<◌, ◌∷◌, ◌≡◌}
use jacktrip.Http3.Outcome.{done, failed}
use jacktrip.Http3.QpackInt.{read_qpack_int}

pub read_small : (n : ℕ) (rest : List ℕ) → n < 127 → read_qpack_int 7 (n ∷ rest) ≡ done (n, rest)
unfolding read_qpack_int
read_small n rest h = ground arith

-- The name index 24 with a prefix of four bits: `0x5F 0x09`.
pub read_index_24 : (rest : List ℕ) → read_qpack_int 4 (0x5F ∷ 0x09 ∷ rest) ≡ done (24, rest)
unfolding read_qpack_int
read_index_24 rest = refl

-- The name length 28 with a prefix of three bits: `0x27 0x15`.
pub read_length_28 : (rest : List ℕ) → read_qpack_int 3 (0x27 ∷ 0x15 ∷ rest) ≡ done (28, rest)
unfolding read_qpack_int
read_length_28 rest = refl

-- An index that fits a prefix of six bits, behind the bits `11`.
pub read_static_index :
    (index : ℕ) (rest : List ℕ)
    → index < 63
    → read_qpack_int 6 ((0xC0 + index) ∷ rest) ≡ done (index, rest)
unfolding read_qpack_int
read_static_index index rest h = ground arith

-- The index 63 fills the prefix, so that a byte has to follow.
pub read_index_63 : read_qpack_int 6 (0xFF ∷ []) ≡ failed
unfolding read_qpack_int
read_index_63 = refl

pub read_zero :
    (b : ℕ) (rest : List ℕ)
    → (read_qpack_int 8 (0 ∷ rest) ≡ done (0, rest))
      × (read_qpack_int 7 (0 ∷ rest) ≡ done (0, rest))
unfolding read_qpack_int
read_zero b rest = (refl, refl)
