-- ===== src/Jitter/Stream.antt =====
-- src/JitterBuffer.cpp: the ring as the end of a stream of bytes, that starts with the silence of the
-- initial delay and goes on with the slots and the silence for lost packets. A position is the number
-- of bytes before it.
use mathlib.Core.Path.{subst}
use native.Mathlib.Nat.{mod-lt}
use jacktrip.Jitter.{write_wrapped}
use jacktrip.Jitter.Wrap.{
  step_mod, length-write_wrapped, write_wrapped_inside, write_wrapped_outside,
}
use jacktrip.Interleave.Bytes.{get_elem?-append_add}
use jacktrip.Base.{
  List, arith, dec_lt, get_elem?, get_elem?-append_left, get_elem?-replicate, length, length-append,
  length-replicate, replicate, sym, ℕ, ◌%◌, ◌++◌, ◌+◌, ◌-◌, ◌<◌, ◌∙◌, ◌≡◌, ◌≤◌, ◌⊎◌,
}

-- The ring holds the last `total` bytes of the stream.
pub record Tail (total : ℕ) (ring stream : List ℕ) : Type 0 where
  pub sized : length ring ≡ total
  pub last :
      (j : ℕ)
      → j < length stream
      → length stream ≤ j + total
      → get_elem? ring (j % total) ≡ get_elem? stream j

module _ (total : ℕ) (pos : 0 < total) where
  -- Bytes that are written from the place of the end of the stream on.
  pub write_wrapped-Tail :
      (len : ℕ) (src ring stream : List ℕ)
      → len ≤ total
      → length src ≡ len
      → Tail total ring stream
      → Tail total (write_wrapped total (length stream % total) len src ring) (stream ++ src)
  write_wrapped-Tail len src ring stream fits e h =
      let at = length stream % total in
      let at_lt = mod-lt (length stream) pos in
      record {
        sized = length-write_wrapped total at len src ring h.sized at_lt fits (omega (arith, e));
        last = λ j l w. elim (dec_lt j (length stream)) [
          | yes p ↦
              let d = length stream - j in
              let there : j + d ≡ length stream = omega (arith, p) in
              let whole = length-append stream src in
              write_wrapped_outside total at len src ring h.sized at_lt fits (omega (arith, e)) d
                (j % total) (omega (arith, p)) (omega (arith, p, w, e, whole)) (mod-lt j pos)
                (subst (λ n. (j % total + d ≡ n % total) ⊎ (j % total + d ≡ n % total + total))
                  there (step_mod j d total pos (omega (arith, w, e, whole, p))))
              ∙ h.last j p (omega (arith, w, whole))
              ∙ sym (get_elem?-append_left stream src j p)
          | no p ↦
              let m = j - length stream in
              let there : length stream + m ≡ j = omega (arith, p) in
              let whole = length-append stream src in
              write_wrapped_inside total at len src ring h.sized at_lt fits (omega (arith, e)) m
                (j % total) (omega (arith, p, l, e, whole)) (mod-lt j pos)
                (subst (λ n. (at + m ≡ n % total) ⊎ (at + m ≡ n % total + total)) there
                  (step_mod (length stream) m total pos (omega (arith, l, e, whole, fits, p))))
              ∙ sym (get_elem?-append_add stream src m j (sym there))
        ];
      }

  -- A ring of silence, after a stream that ends with as much.
  pub silence-Tail :
      (n : ℕ) (stream : List ℕ)
      → total ≤ n
      → Tail total (replicate total 0) (stream ++ replicate n 0)
  silence-Tail n stream l = record {
    sized = length-replicate total 0;
    last = λ j h w.
        let size = length-append stream (replicate {A = ℕ} n 0) in
        let more = length-replicate {A = ℕ} n 0 in
        get_elem?-replicate total 0 (j % total) (mod-lt j pos)
        ∙ sym (
            get_elem?-append_add stream (replicate n 0) (j - length stream) j
              (omega (arith, w, l, size, more))
            ∙ get_elem?-replicate n 0 (j - length stream) (omega (arith, h, w, l, size, more)));
  }

  pub initial-Tail : (n : ℕ) → Tail total (replicate total 0) (replicate n 0)
  initial-Tail n = record {
    sized = length-replicate total 0;
    last = λ j h w.
        get_elem?-replicate total 0 (j % total) (mod-lt j pos)
        ∙ sym (get_elem?-replicate n 0 j (omega (arith, h, length-replicate {A = ℕ} n 0)));
  }
