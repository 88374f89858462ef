-- ===== src/Jitter/Wrap.antt =====
-- src/JitterBuffer.cpp: what the ring holds after bytes were copied to it, and what is read from it.
use native.Mathlib.Nat.{mod-lt, mod-add-mod, mod-eq_of_lt, add-mod_right}
use jacktrip.Udp.Receive.{copy_bytes}
use jacktrip.Interleave.Bytes.{
  get_elem?-append_add, get_elem?-take, length-copy_bytes, copy_bytes_inside, copy_bytes_outside,
}
use jacktrip.Jitter.{write_wrapped, read_wrapped}
use jacktrip.Base.{
  List, ap, arith, dec_lt, drop, get_elem?, get_elem?-append_left, get_elem?-drop, inl, inr, length,
  length-append, length-drop, length-take, min, sym, take, ℕ, ◌%◌, ◌++◌, ◌+◌, ◌-◌, ◌<◌, ◌∙◌, ◌≡◌,
  ◌≤◌, ◌⊎◌,
}

-- `a` and `a + d` in a ring of `t` places.
pub step_mod :
    (a d t : ℕ) → 0 < t → d ≤ t → (a % t + d ≡ (a + d) % t) ⊎ (a % t + d ≡ (a + d) % t + t)
step_mod a d t pos l = elim (dec_lt (a % t + d) t) [
  | yes p ↦ inl (sym (mod-eq_of_lt p) ∙ mod-add-mod a t d)
  | no p ↦
      let low : a % t + d - t < t = omega (arith, mod-lt a pos, l) in
      let e : a % t + d ≡ a % t + d - t + t = omega (arith, p) in
      inr (
        e
        ∙ ap (λ n. n + t)
            (sym (mod-eq_of_lt low)
              ∙ sym (add-mod_right (a % t + d - t) t)
              ∙ ap (λ n. n % t) (sym e)
              ∙ mod-add-mod a t d))
]

zero_plus : (k : ℕ) → k ≡ 0 + k
zero_plus k = omega arith

module _ (total at len : ℕ) (src ring : List ℕ) (sized : length ring ≡ total) (at_lt : at < total)
    (fits : len ≤ total) (enough : len ≤ length src) where
  pub length-write_wrapped : length (write_wrapped total at len src ring) ≡ total
  unfolding write_wrapped
  length-write_wrapped =
      let n = min (total - at) len in
      let first =
        length-copy_bytes n at src ring (omega (arith, sized, at_lt)) (omega (arith, enough)) in
      omega (
        arith,
        sized,
        first,
        length-copy_bytes (len - n) 0 (drop n src) (copy_bytes n at src ring)
            (omega (arith, first, sized, fits)) (omega (arith, length-drop n src, enough)),
      )

  pub write_wrapped_inside :
      (m k : ℕ)
      → m < len
      → k < total
      → (at + m ≡ k) ⊎ (at + m ≡ k + total)
      → get_elem? (write_wrapped total at len src ring) k ≡ get_elem? src m
  unfolding write_wrapped
  write_wrapped_inside m k l kl e =
      let n = min (total - at) len in
      let first =
        length-copy_bytes n at src ring (omega (arith, sized, at_lt)) (omega (arith, enough)) in
      elim e [
        | inl q ↦
            copy_bytes_outside (len - n) 0 (drop n src) (copy_bytes n at src ring)
              (omega (arith, first, sized, fits)) (omega (arith, length-drop n src, enough)) k
              (inr (omega (arith, q, at_lt, fits)))
            ∙ ap (get_elem? (copy_bytes n at src ring)) (sym q)
            ∙ copy_bytes_inside n at src ring (omega (arith, sized, at_lt)) (omega (arith, enough))
                m (omega (arith, q, kl, l))
        | inr q ↦
            ap (get_elem? (write_wrapped total at len src ring)) (zero_plus k)
            ∙ copy_bytes_inside (len - n) 0 (drop n src) (copy_bytes n at src ring)
                (omega (arith, first, sized, fits)) (omega (arith, length-drop n src, enough)) k
                (omega (arith, q, l, at_lt))
            ∙ get_elem?-drop n src k
            ∙ ap (get_elem? src) (omega (arith, q, l, at_lt))
      ]

  pub write_wrapped_outside :
      (d k : ℕ)
      → 0 < d
      → d + len ≤ total
      → k < total
      → (k + d ≡ at) ⊎ (k + d ≡ at + total)
      → get_elem? (write_wrapped total at len src ring) k ≡ get_elem? ring k
  unfolding write_wrapped
  write_wrapped_outside d k pos room kl e =
      let n = min (total - at) len in
      let first =
        length-copy_bytes n at src ring (omega (arith, sized, at_lt)) (omega (arith, enough)) in
      copy_bytes_outside (len - n) 0 (drop n src) (copy_bytes n at src ring)
        (omega (arith, first, sized, fits)) (omega (arith, length-drop n src, enough)) k
        (inr (elim e [
          | inl q ↦ omega (arith, q, pos, room)
          | inr q ↦ omega (arith, q, pos, room, at_lt)
        ]))
      ∙ copy_bytes_outside n at src ring (omega (arith, sized, at_lt)) (omega (arith, enough)) k
          (elim e [
            | inl q ↦ inl (omega (arith, q, pos))
            | inr q ↦ inr (omega (arith, q, pos, room, at_lt))
          ])

module _ (total at len : ℕ) (ring rest : List ℕ) (sized : length ring ≡ total) (at_lt : at < total)
    (fits : len ≤ total) where
  pub length-read_wrapped : length (read_wrapped total at len ring) ≡ len
  unfolding read_wrapped
  length-read_wrapped =
      let n = min (total - at) len in
      omega (
        arith,
        sized,
        at_lt,
        length-append (take n (drop at ring)) (take (len - n) ring),
        length-take n (drop at ring),
        length-drop at ring,
        length-take (len - n) ring,
      )

  pub read_wrapped_inside :
      (m k : ℕ)
      → m < len
      → k < total
      → (at + m ≡ k) ⊎ (at + m ≡ k + total)
      → get_elem? (read_wrapped total at len ring ++ rest) m ≡ get_elem? ring k
  unfolding read_wrapped
  read_wrapped_inside m k l kl e =
      let n = min (total - at) len in
      let first = take n (drop at ring) in
      let second = take (len - n) ring in
      get_elem?-append_left (first ++ second) rest m (omega (arith, l, length-read_wrapped))
      ∙ elim e [
        | inl q ↦
            get_elem?-append_left first second m
              (omega (arith, q, kl, l, length-take n (drop at ring), length-drop at ring, sized))
            ∙ get_elem?-take n (drop at ring) m (omega (arith, q, kl, l))
            ∙ get_elem?-drop at ring m
            ∙ ap (get_elem? ring) q
        | inr q ↦
            get_elem?-append_add first second k m (
              omega
                (arith, q, kl, l, at_lt, length-take n (drop at ring), length-drop at ring, sized))
            ∙ get_elem?-take (len - n) ring k (omega (arith, q, kl, l, at_lt))
      ]
