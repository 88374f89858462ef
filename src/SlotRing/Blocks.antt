-- ===== src/SlotRing/Blocks.antt =====
-- A memory that is a row of blocks of one size, which memcpy reads and writes a block at a time.
use native.Mathlib.Nat.{mul-suc, mul-zero, zero-add}
use jacktrip.SlotRing.{bytes_at, copy_to}
use jacktrip.Base.{
  All, List, [], ap, append-nil, append_assoc, arith, drop, drop-append_add, drop-append_length,
  get_elem?, length, length-replicate, refl, replicate, set, some, suc, sym, take, take-append_add,
  take-append_length, zero, ℕ, ◌*◌, ◌++◌, ◌+◌, ◌<◌, ◌∙◌, ◌∷◌, ◌≡◌,
}

module _ {ℓ} {A : Type ℓ} where
  abbrev pub flat : List (List A) → List A
  flat [] = []
  flat (xs ∷ xss) = xs ++ flat xss

  take_all : (n : ℕ) (xs : List A) → length xs ≡ n → take n xs ≡ xs
  take_all n xs e = ap (take n) (sym (append-nil xs)) ∙ take-append_length n xs [] e

-- Past the first block a memory is what its other blocks are.
bytes_at_past :
    (n p : ℕ) (c bytes : List ℕ) → bytes_at n (length c + p) (c ++ bytes) ≡ bytes_at n p bytes
bytes_at_past n p c bytes = ap (take n) (drop-append_add p c bytes)

copy_to_past :
    (n p : ℕ) (b c bytes : List ℕ)
    → copy_to n (length c + p) b (c ++ bytes) ≡ c ++ copy_to n p b bytes
copy_to_past n p b c bytes =
    let e : length c + p + n ≡ length c + (p + n) = omega arith in
    rw (e, take-append_add c bytes p, drop-append_add (p + n) c bytes)
      (append_assoc c (take p bytes) (take n b ++ drop (p + n) bytes))

module _ (size : ℕ) where
  -- All blocks have the size `size`.
  abbrev pub IsEven : List (List ℕ) → Type 0
  IsEven cells = All (λ c. length c ≡ size) cells

  mul-suc_sum : (i : ℕ) → size * suc i ≡ size + size * i
  mul-suc_sum i = mul-suc size i ∙ omega arith

  pub bytes_at-flat :
      (cells : List (List ℕ)) (i : ℕ)
      → IsEven cells
      → i < length cells
      → get_elem? cells i ≡ some (bytes_at size (size * i) (flat cells))
  bytes_at-flat [] i e h = elim h [ ]
  bytes_at-flat (c ∷ cells) zero e h =
      rw (mul-zero size) (ap some (sym (take-append_length size c (flat cells) e.0)))
  bytes_at-flat (c ∷ cells) (suc i) e h =
      bytes_at-flat cells i e.1 (omega arith)
      ∙ ap some (
          sym (bytes_at_past size (size * i) c (flat cells))
          ∙ ap (λ p. bytes_at size p (c ++ flat cells)) (omega (arith, mul-suc_sum i, e.0)))

  pub copy_to-flat :
      (cells : List (List ℕ)) (i : ℕ) (b : List ℕ)
      → IsEven cells
      → i < length cells
      → length b ≡ size
      → copy_to size (size * i) b (flat cells) ≡ flat (set cells i b)
  copy_to-flat [] i b e h w = elim h [ ]
  copy_to-flat (c ∷ cells) zero b e h w =
      let start : 0 + size ≡ size = omega arith in
      rw (mul-zero size, start, drop-append_length size c (flat cells) e.0)
        (ap (λ r. r ++ flat cells) (take_all size b w))
  copy_to-flat (c ∷ cells) (suc i) b e h w =
      ap (λ p. copy_to size p b (c ++ flat cells)) (omega (arith, mul-suc_sum i, e.0))
      ∙ copy_to_past size (size * i) b c (flat cells)
      ∙ ap (λ r. c ++ r) (copy_to-flat cells i b e.1 (omega arith) w)

  pub set-IsEven :
      (cells : List (List ℕ)) (i : ℕ) (b : List ℕ)
      → IsEven cells
      → length b ≡ size
      → IsEven (set cells i b)
  set-IsEven [] i b e w = tt
  set-IsEven (c ∷ cells) zero b e w = (w, e.1)
  set-IsEven (c ∷ cells) (suc i) b e w = (e.0, set-IsEven cells i b e.1 w)

  replicate-add : (a b : ℕ) → replicate {A = ℕ} (a + b) 0 ≡ replicate a 0 ++ replicate b 0
  replicate-add zero b = ap (λ m. replicate {A = ℕ} m 0) (zero-add b)
  replicate-add (suc a) b =
      let e : suc a + b ≡ suc (a + b) = omega arith in rw e (ap (λ r. 0 ∷ r) (replicate-add a b))

  -- Silence, as blocks.
  pub replicate-flat :
      (n : ℕ) → replicate {A = ℕ} (size * n) 0 ≡ flat (replicate n (replicate size 0))
  replicate-flat zero = rw (mul-zero size) refl
  replicate-flat (suc n) =
      rw (mul-suc_sum n)
        (replicate-add size (size * n) ∙ ap (λ r. replicate size 0 ++ r) (replicate-flat n))

  pub replicate-IsEven : (n : ℕ) → IsEven (replicate n (replicate size 0))
  replicate-IsEven zero = tt
  replicate-IsEven (suc n) = (length-replicate size 0, replicate-IsEven n)
