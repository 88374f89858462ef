-- ===== src/Auth/Crypt/Fuel.antt =====
-- src/Auth.cpp: the loops of `generateSha512Hash` over the length of the password end.
use jacktrip.Auth.Crypt.{stretch, bit_blocks}
use jacktrip.Base.{
  Bool-cases, List, [], ap, arith, false, if◌then◌else◌, inl, inr, length, length-append, ltb, refl,
  shr, suc, take, true, zero, ℕ, ◌%◌, ◌++◌, ◌+◌, ◌-◌, ◌==◌, ◌∷◌, ◌≡◌, ◌≤◌,
}

length-take_le : (n : ℕ) (xs : List ℕ) → n ≤ length xs → length (take n xs) ≡ n
length-take_le zero xs h = refl
length-take_le (suc n) [] h = absurd (omega (arith, h))
length-take_le (suc n) (x ∷ xs) h = ap suc (length-take_le n xs (omega (arith, h)))

whole_block : (n : ℕ) {m k j : ℕ} → m ≡ k + j → k ≡ 64 → j ≡ n - 64 → ltb 64 n ≡ true → m ≡ n
whole_block n a b c p = ground (arith, a, b, c, p)

last_block : (n : ℕ) {k : ℕ} → ltb 64 n ≡ false → k ≡ 64 → n ≤ k
last_block n p b = ground (arith, p, b)

half_le : (n m : ℕ) → (n == 0) ≡ false → n ≤ suc m → shr n 1 ≤ m
half_le n m p h = ground (arith, p, h)

-- Steps 16 and 20 give as many bytes as the password or the salt has, for a hash of 64 bytes.
length-stretch :
    (fuel n : ℕ) (block : List ℕ) → length block ≡ 64 → n ≤ fuel → length (stretch fuel n block) ≡ n
unfolding stretch
length-stretch zero n block b h = length-take_le n block (omega (arith, b, h))
length-stretch (suc fuel) n block b h = elim (Bool-cases (ltb 64 n)) [
  | inl p ↦
      let rest = length-stretch fuel (n - 64) block b (omega (arith, h)) in
      rw p (whole_block n (length-append block (stretch fuel (n - 64) block)) b rest p)
  | inr p ↦ rw p (length-take_le n block (last_block n p b))
]

-- More rounds than the number has bits change nothing.
bit_blocks-fuel :
    (fuel more n : ℕ) (odd even : List ℕ)
    → n ≤ fuel
    → n ≤ more
    → bit_blocks fuel n odd even ≡ bit_blocks more n odd even
unfolding bit_blocks
bit_blocks-fuel zero zero n odd even h k = refl
bit_blocks-fuel zero (suc more) n odd even h k = let e : n ≡ 0 = omega (arith, h) in rw e refl
bit_blocks-fuel (suc fuel) zero n odd even h k = let e : n ≡ 0 = omega (arith, k) in rw e refl
bit_blocks-fuel (suc fuel) (suc more) n odd even h k = elim (Bool-cases (n == 0)) [
  | inl p ↦ rw p refl
  | inr p ↦ rw p (
      ap (λ r. (if n % 2 == 1 then odd else even) ++ r)
        (bit_blocks-fuel fuel more (shr n 1) odd even (half_le n fuel p h) (half_le n more p k)))
]
