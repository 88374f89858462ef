-- ===== src/Http3/Huffman/Fuel.antt =====
-- The loop of `decodeHuffman` ends by its own test within the fuel that is given.
use jacktrip.Base.{
  Bool, Bool-cases, List, Option, [], arith, dec_lt, false, inl, inr, leb, length, low_bits, ltb,
  ltb-false, ltb→lt, lt→ltb, none, not, refl, shl, some, suc, sym, true, zero, ℕ, ◌%◌, ◌&&◌, ◌*◌,
  ◌+◌, ◌-◌, ◌<◌, ◌==◌, ◌^◌, ◌||◌, ◌∷◌, ◌≡◌, ◌≤◌,
}
use jacktrip.Http3.HuffmanTable.{HuffmanCode, huffman_codes}
use jacktrip.Http3.Huffman.{
  Window, fill, find_code, Round, stop, symbol, skip, round_missing, round_found, round, is_empty,
  decode_loop, decode_huffman,
}

every_code : (HuffmanCode → Bool) → List HuffmanCode → Bool
every_code p [] = true
every_code p (e ∷ es) = p e && every_code p es

every_code_found :
    (p : HuffmanCode → Bool) (es : List HuffmanCode) (accum bits : ℕ) (e : HuffmanCode)
    → every_code p es ≡ true
    → find_code accum bits es ≡ some e
    → p e ≡ true
unfolding every_code find_code
every_code_found p [] accum bits e all h = cc
every_code_found p (x ∷ es) accum bits e all h = ground (arith, every_code_found p es accum bits e)

codes_pos : every_code (λ e. ltb 0 e.bits) huffman_codes ≡ true
unfolding every_code huffman_codes
codes_pos = refl

-- The bits that are not decoded yet.
abbrev measure : Window → ℕ
measure w = w.bits + 8 * length w.bytes

fill-measure :
    (accum bits : ℕ) (bytes : List ℕ) → measure (fill accum bits bytes) ≡ bits + 8 * length bytes
unfolding fill
fill-measure accum bits [] = refl
fill-measure accum bits (b ∷ bytes) =
    ground (arith, fill-measure (shl accum 8 % 2 ^ 64 + b) (bits + 8) bytes)

-- A round that goes on has dropped a bit, and has loaded nothing.
abbrev Shrinks : Window → Round → Type 0
Shrinks w stop = Unit
Shrinks w (symbol sym w') = measure w' < measure w
Shrinks w (skip w') = measure w' < measure w

round_found-Shrinks :
    (w : Window) (o : Option HuffmanCode)
    → 5 ≤ w.bits
    → ((e : HuffmanCode) → o ≡ some e → 0 < e.bits)
    → Shrinks w (round_found w o)
unfolding round_found round_missing
round_found-Shrinks w none big pos =
    elim (Bool-cases (leb w.bits 7 && low_bits w.accum w.bits == 2 ^ w.bits - 1)) [
      | inl e ↦ rw e tt
      | inr e ↦ rw e (omega arith)
    ]
round_found-Shrinks w (some e) big pos = omega (arith, pos e refl)

round-Shrinks : (w : Window) → Shrinks w (round w)
unfolding round
round-Shrinks w = elim (dec_lt w.bits 5) [
  | yes p ↦ rw (lt→ltb w.bits 5 p) tt
  | no p ↦ rw (ltb-false w.bits 5 (omega arith)) (round_found-Shrinks w _ (omega arith) found)
]
  where
    found : (e : HuffmanCode) → find_code w.accum w.bits huffman_codes ≡ some e → 0 < e.bits
    found e h =
        ltb→lt 0 e.bits
          (every_code_found (λ x. ltb 0 x.bits) huffman_codes w.accum w.bits e codes_pos h)

-- The rounds of the loop as they are written, without fuel: it ends where its test fails or a round
-- stops, and the rounds before that are counted.
pub data Runs : ℕ → Window → List ℕ → Type 0 where
  exhausted : (w : Window) → (not (is_empty w.bytes) || leb 5 w.bits) ≡ false → Runs 0 w []
  stopped :
      (w : Window)
      → (not (is_empty w.bytes) || leb 5 w.bits) ≡ true
      → round (fill w.accum w.bits w.bytes) ≡ stop
      → Runs 0 w []
  emitted :
      (n sym : ℕ) (w next : Window) (rest : List ℕ)
      → (not (is_empty w.bytes) || leb 5 w.bits) ≡ true
      → round (fill w.accum w.bits w.bytes) ≡ symbol sym next
      → Runs n next rest
      → Runs (n + 1) w (sym ∷ rest)
  skipped :
      (n : ℕ) (w next : Window) (rest : List ℕ)
      → (not (is_empty w.bytes) || leb 5 w.bits) ≡ true
      → round (fill w.accum w.bits w.bytes) ≡ skip next
      → Runs n next rest
      → Runs (n + 1) w rest

-- The loop ends with a string, after at most `bound` rounds that go on.
pub record Ends (bound : ℕ) (w : Window) (decoded : List ℕ) : Type 0 where
  pub rounds : ℕ
  pub rounds_le : rounds ≤ bound
  pub runs : Runs rounds w decoded

module _ (fuel : ℕ) (w : Window) (more : (not (is_empty w.bytes) || leb 5 w.bits) ≡ true)
    (small : measure w < suc fuel)
    (rest : (next : Window)
      → measure next < fuel
      → Ends (measure next) next (decode_loop fuel next)) where
  -- A round that goes on, by what it does.
  one_round :
      (r : Round)
      → round (fill w.accum w.bits w.bytes) ≡ r
      → Shrinks (fill w.accum w.bits w.bytes) r
      → Ends (measure w) w (elim r [
        | stop ↦ []
        | symbol sym next ↦ sym ∷ decode_loop fuel next
        | skip next ↦ decode_loop fuel next
      ])
  one_round stop e s = record { rounds = 0; rounds_le = omega arith; runs = stopped w more e }
  one_round (symbol sym next) e s =
      let same = fill-measure w.accum w.bits w.bytes in
      let k = rest next (omega (arith, same, s, small)) in
      record {
        rounds = k.rounds + 1;
        rounds_le = omega (arith, same, s, k.rounds_le);
        runs = emitted k.rounds sym w next (decode_loop fuel next) more e k.runs;
      }
  one_round (skip next) e s =
      let same = fill-measure w.accum w.bits w.bytes in
      let k = rest next (omega (arith, same, s, small)) in
      record {
        rounds = k.rounds + 1;
        rounds_le = omega (arith, same, s, k.rounds_le);
        runs = skipped k.rounds w next (decode_loop fuel next) more e k.runs;
      }

decode_loop-Ends :
    (fuel : ℕ) (w : Window) → measure w < fuel → Ends (measure w) w (decode_loop fuel w)
unfolding decode_loop
decode_loop-Ends zero w h = elim h [ ]
decode_loop-Ends (suc fuel) w h = elim (Bool-cases (not (is_empty w.bytes) || leb 5 w.bits)) [
  | inl t ↦ rw t (
      one_round fuel w t h (decode_loop-Ends fuel) (round (fill w.accum w.bits w.bytes)) refl
        (round-Shrinks (fill w.accum w.bits w.bytes)))
  | inr t ↦ rw t (record { rounds = 0; rounds_le = omega arith; runs = exhausted w t })
]

-- On any bytes the loop of `decodeHuffman`, run without fuel, ends, where its own test fails or a
-- round stops, and it ends with the string that `decode_huffman` gives; no more rounds go on than
-- there are bits.
pub decode_huffman-Ends :
    (bytes : List ℕ)
    → Ends (8 * length bytes) (record { accum = 0; bits = 0; bytes = bytes }) (decode_huffman bytes)
unfolding decode_huffman
decode_huffman-Ends bytes =
    let start : Window = record { accum = 0; bits = 0; bytes = bytes } in
    let k = decode_loop-Ends (8 * length bytes + 1) start (omega arith) in
    record { rounds = k.rounds; rounds_le = omega (arith, k.rounds_le); runs = k.runs }
