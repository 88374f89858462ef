-- ===== src/Interleave/Bytes.antt =====
-- Bytes of a list after some of them were copied to a place in it.
use native.Mathlib.Nat.{mul-le-mul_right, add-mul}
use mathlib.Core.Option.{some-injective}
use jacktrip.Udp.Receive.{copy_bytes}
use jacktrip.Base.{
  List, [], ap, ap₂, arith, dec_lt, drop, get_elem?, get_elem?-append_left, get_elem?-drop, inl,
  inr, length, length-append, length-drop, length-take, refl, suc, take, zero, ℕ, ◌*◌, ◌++◌, ◌+◌,
  ◌-◌, ◌<◌, ◌∙◌, ◌∷◌, ◌≡◌, ◌≢◌, ◌≤◌, ◌⊎◌,
}

pub get_elem?-append_add :
    (xs ys : List ℕ) (m i : ℕ) → i ≡ length xs + m → get_elem? (xs ++ ys) i ≡ get_elem? ys m
get_elem?-append_add [] ys m i e = ap (get_elem? ys) (omega (arith, e))
get_elem?-append_add (x ∷ xs) ys m zero e = absurd (omega (arith, e))
get_elem?-append_add (x ∷ xs) ys m (suc i) e = get_elem?-append_add xs ys m i (omega (arith, e))

pub get_elem?-take :
    (n : ℕ) (xs : List ℕ) (i : ℕ) → i < n → get_elem? (take n xs) i ≡ get_elem? xs i
get_elem?-take zero xs i h = absurd (omega (arith, h))
get_elem?-take (suc n) [] i h = refl
get_elem?-take (suc n) (x ∷ xs) zero h = refl
get_elem?-take (suc n) (x ∷ xs) (suc i) h = get_elem?-take n xs i (omega (arith, h))

-- Two lists of the same length with the same elements.
pub same_elements :
    (xs ys : List ℕ)
    → length xs ≡ length ys
    → ((i : ℕ) → i < length ys → get_elem? xs i ≡ get_elem? ys i)
    → xs ≡ ys
same_elements [] [] e h = refl
same_elements [] (y ∷ ys) e h = absurd (omega (arith, e))
same_elements (x ∷ xs) [] e h = absurd (omega (arith, e))
same_elements (x ∷ xs) (y ∷ ys) e h =
    ap₂ (λ a rest. a ∷ rest) (some-injective x y (h 0 (omega arith)))
      (same_elements xs ys (omega (arith, e)) (λ i l. h (suc i) (omega (arith, l))))

-- Blocks at different places do not overlap.
pub apart :
    (k j size b : ℕ)
    → k ≢ j
    → b < size
    → (k * size + b < j * size) ⊎ (j * size + size ≤ k * size + b)
apart k j size b d l = elim (dec_lt k j) [
  | yes p ↦ inl (
      omega
        (arith, l, mul-le-mul_right {m = k + 1} {n = j} size (omega (arith, p)), add-mul k 1 size))
  | no p ↦
      let above : j < k = omega (arith, p, d) in
      inr (
        omega (
          arith,
          mul-le-mul_right {m = j + 1} {n = k} size (omega (arith, above)),
          add-mul j 1 size,
        ))
]

module _ (n at : ℕ) (src dst : List ℕ) (fits : at + n ≤ length dst) (enough : n ≤ length src) where
  pub length-copy_bytes : length (copy_bytes n at src dst) ≡ length dst
  unfolding copy_bytes
  length-copy_bytes = omega (
    arith,
    fits,
    enough,
    length-append (take at dst) (take n src ++ drop (at + n) dst),
    length-append (take n src) (drop (at + n) dst),
    length-take at dst,
    length-take n src,
    length-drop (at + n) dst,
  )

  pub copy_bytes_inside :
      (b : ℕ) → b < n → get_elem? (copy_bytes n at src dst) (at + b) ≡ get_elem? src b
  unfolding copy_bytes
  copy_bytes_inside b l =
      get_elem?-append_add (take at dst) (take n src ++ drop (at + n) dst) b (at + b)
        (omega (arith, fits, length-take at dst))
      ∙ get_elem?-append_left (take n src) (drop (at + n) dst) b
          (omega (arith, l, enough, length-take n src))
      ∙ get_elem?-take n src b l

  pub copy_bytes_outside :
      (i : ℕ) → (i < at) ⊎ (at + n ≤ i) → get_elem? (copy_bytes n at src dst) i ≡ get_elem? dst i
  unfolding copy_bytes
  copy_bytes_outside i (inl l) =
      get_elem?-append_left (take at dst) (take n src ++ drop (at + n) dst) i
        (omega (arith, l, fits, length-take at dst))
      ∙ get_elem?-take at dst i l
  copy_bytes_outside i (inr l) =
      get_elem?-append_add (take at dst) (take n src ++ drop (at + n) dst) (i - at) i
        (omega (arith, l, fits, length-take at dst))
      ∙ get_elem?-append_add (take n src) (drop (at + n) dst) (i - at - n) (i - at)
          (omega (arith, l, fits, enough, length-take n src))
      ∙ get_elem?-drop (at + n) dst (i - at - n)
      ∙ ap (get_elem? dst) (omega (arith, l))
