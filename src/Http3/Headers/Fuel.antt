-- ===== src/Http3/Headers/Fuel.antt =====
-- The loop over the field lines ends by its own test within the fuel that is given.
use jacktrip.Base.{
  Bool, Bool-cases, List, [], arith, inl, inr, length, length-drop, ltb, refl, suc, test_bit, zero,
  ℕ, ◌∷◌, ◌≡◌, ◌≤◌,
}
use jacktrip.Http3.Outcome.{Outcome, done, failed, undefined, ◌>>=◌}
use jacktrip.Http3.QpackInt.{read_qpack_int}
use jacktrip.Http3.QpackInt.Consumes.{Leaves, Leaves-weaken, Leaves-bind, read_qpack_int-Leaves}
use jacktrip.Http3.Headers.{Headers, take_string, read_string, field_line, field_loop}

same_bind :
    (n : ℕ) (o : Outcome (Headers × List ℕ)) (k l : Headers × List ℕ → Outcome Headers)
    → Leaves n o
    → ((a : Headers) (rest : List ℕ) → length rest ≤ n → k (a, rest) ≡ l (a, rest))
    → (o >>= k) ≡ (o >>= l)
same_bind n (done (a, rest)) k l h e = e a rest h
same_bind n failed k l h e = refl
same_bind n undefined k l h e = refl

module _ (from_utf8 : List ℕ → List ℕ) where
  take_string-Leaves :
      (huffman : Bool) (n : ℕ) (bytes : List ℕ)
      → Leaves (length bytes) (take_string from_utf8 huffman n bytes)
  unfolding take_string
  take_string-Leaves huffman n bytes = elim (Bool-cases (ltb (length bytes) n)) [
    | inl e ↦ rw e tt
    | inr e ↦ rw e (omega (arith, length-drop n bytes))
  ]

  read_string_cons-Leaves :
      (bit prefix_bits b : ℕ) (bytes : List ℕ)
      → Leaves (length bytes) (read_string from_utf8 bit prefix_bits (b ∷ bytes))
  unfolding read_string
  read_string_cons-Leaves bit prefix_bits b bytes =
      Leaves-bind (length bytes) (length bytes) (read_qpack_int prefix_bits (b ∷ bytes)) _
        (read_qpack_int-Leaves prefix_bits b bytes)
        λ n rest h. Leaves-weaken (length rest) (length bytes) _ h (take_string-Leaves _ n rest)

  read_string-Leaves :
      (bit prefix_bits n : ℕ) (bytes : List ℕ)
      → length bytes ≤ n
      → Leaves n (read_string from_utf8 bit prefix_bits bytes)
  read_string-Leaves bit prefix_bits n [] h = unfold read_string in tt
  read_string-Leaves bit prefix_bits n (b ∷ bytes) h =
      Leaves-weaken (length bytes) n _ (omega arith)
        (read_string_cons-Leaves bit prefix_bits b bytes)

  field_line-Leaves :
      (b : ℕ) (bytes : List ℕ) (headers : Headers)
      → Leaves (length bytes) (field_line from_utf8 b bytes headers)
  unfolding field_line
  field_line-Leaves b bytes headers =
      let n = length bytes in
      elim (Bool-cases (test_bit b 7)) [
        | inl e ↦ rw e (
            Leaves-bind n n (read_qpack_int 6 (b ∷ bytes)) _ (read_qpack_int-Leaves 6 b bytes)
              (λ a rest h. h))
        | inr e ↦ rw e (elim (Bool-cases (test_bit b 6)) [
          | inl t ↦ rw t (
              Leaves-bind n n (read_qpack_int 4 (b ∷ bytes)) _ (read_qpack_int-Leaves 4 b bytes)
                (λ a rest h.
                  Leaves-bind n n (read_string from_utf8 7 7 rest) _
                    (read_string-Leaves 7 7 n rest h) (λ v r k. k)))
          | inr t ↦ rw t (elim (Bool-cases (test_bit b 5)) [
            | inl u ↦ rw u (
                Leaves-bind n n (read_string from_utf8 3 3 (b ∷ bytes)) _
                  (read_string_cons-Leaves 3 3 b bytes)
                  (λ a rest h.
                    Leaves-bind n n (read_string from_utf8 7 7 rest) _
                      (read_string-Leaves 7 7 n rest h) (λ v r k. k)))
            | inr u ↦ rw u (omega arith)
          ])
        ])
      ]

  agree :
      (f g : ℕ) (bytes : List ℕ) (headers : Headers)
      → length bytes ≤ f
      → length bytes ≤ g
      → field_loop from_utf8 f bytes headers ≡ field_loop from_utf8 g bytes headers
  unfolding field_loop
  agree zero zero [] headers p q = refl
  agree zero (suc g) [] headers p q = refl
  agree (suc f) zero [] headers p q = refl
  agree (suc f) (suc g) [] headers p q = refl
  agree zero g (b ∷ bytes) headers p q = absurd (omega arith)
  agree (suc f) zero (b ∷ bytes) headers p q = absurd (omega arith)
  agree (suc f) (suc g) (b ∷ bytes) headers p q =
      same_bind (length bytes) (field_line from_utf8 b bytes headers) _ _
        (field_line-Leaves b bytes headers)
        (λ after rest h. agree f g rest after (omega arith) (omega arith))

  -- The loop of `decodeQPackHeaders` ends by its own test: with any more fuel than there are bytes
  -- left it has the same outcome.
  field_loop-fuel :
      (fuel : ℕ) (bytes : List ℕ) (headers : Headers)
      → length bytes ≤ fuel
      → field_loop from_utf8 fuel bytes headers ≡ field_loop from_utf8 (length bytes) bytes headers
  field_loop-fuel fuel bytes headers h = agree fuel (length bytes) bytes headers h (omega arith)
