-- ===== src/Interleave/RoundTrip.antt =====
-- The audio that a sender puts in a packet is the audio that a receiver of as many channels takes out.
use native.Mathlib.Nat.{add-mul, mul_comm}
use mathlib.Core.Path.{subst}
use jacktrip.Udp.Receive.{Settings, interleave}
use jacktrip.Udp.Send.{deinterleave}
use jacktrip.Interleave.Bytes.{same_elements, get_elem?-take}
use jacktrip.Interleave.Layouts.{
  block_le, channel_lt, frame_lt, length-interleave, interleave_sample, deinterleave_sample,
}
use jacktrip.Base.{
  List, ap, arith, dec_lt, get_elem?, length, length-take, suc, sym, take, zero, ℕ, ◌*◌, ◌+◌, ◌-◌,
  ◌<◌, ◌∙◌, ◌≡◌, ◌≤◌,
}

-- A place in `count` blocks of `size`.
split_place :
    (count size i : ℕ)
    → i < count * size
    → (q : ℕ) × (r : ℕ) × (q < count) × (r < size) × (i ≡ q * size + r)
split_place zero size i l = absurd (omega (arith, l))
split_place (suc count) size i l = elim (dec_lt i size) [
  | yes p ↦ (0, i, omega arith, p, omega arith)
  | no p ↦
      let k = split_place count size (i - size) (omega (arith, l, p, add-mul 1 count size)) in
      (suc k.0, k.1, omega (arith, k.2), k.3, omega (arith, k.4, p, add-mul 1 k.0 size))
]

-- Every byte belongs to a sample.
each_byte {ℓ} :
    (P : ℕ → Type ℓ) (chans samples size : ℕ)
    → ((n c b : ℕ) → n < samples → c < chans → b < size → P ((n * chans + c) * size + b))
    → (i : ℕ) → i < samples * chans * size
    → P i
each_byte P chans samples size h i l =
    let k = split_place (samples * chans) size i l in
    let m = split_place samples chans k.0 k.2 in
    subst P (sym (k.4 ∙ ap (λ q. q * size + k.1) m.4)) (h m.0 m.1 k.1 m.2 m.3 k.3)

-- Audio that is whole, put in a packet channel after channel and interleaved again, is what it was,
-- whatever the two buffers held, if they are large enough, and whatever follows the audio in the
-- packet.
pub interleave-deinterleave :
    (p : Settings) (samples : ℕ) (audio wire before after : List ℕ)
    → length audio ≡ samples * p.chans * p.smpl_size
    → samples * p.chans * p.smpl_size ≤ length before
    → samples * p.chans * p.smpl_size ≤ length after
    → samples * p.chans * p.smpl_size ≤ length wire
    → take (samples * p.chans * p.smpl_size) wire
      ≡ take (samples * p.chans * p.smpl_size) (deinterleave p samples audio 0 samples before)
    → take (samples * p.chans * p.smpl_size) (interleave p samples p.chans wire 0 samples after)
      ≡ audio
interleave-deinterleave p samples audio wire before after la room lf lw e =
    let total = samples * p.chans * p.smpl_size in
    let sent = deinterleave p samples audio 0 samples before in
    let result = interleave p samples p.chans wire 0 samples after in
    let other : p.chans * samples * p.smpl_size ≡ total =
      ap (λ k. k * p.smpl_size) (mul_comm p.chans samples) in
    let whole : length result ≡ length after =
      length-interleave p samples wire after p.chans (omega arith) lf (omega (arith, other, lw)) in
    same_elements (take total result) audio (omega (arith, length-take total result, whole, lf, la))
      (λ i l.
        each_byte (λ i. get_elem? (take total result) i ≡ get_elem? audio i) p.chans samples
          p.smpl_size
          (λ n c b ln lc lb.
            let k = (n * p.chans + c) * p.smpl_size + b in
            let j = (n + c * samples) * p.smpl_size + b in
            let j_lt : j < total = omega (
              arith,
              lb,
              other,
              block_le (n + c * samples) (p.chans * samples) p.smpl_size
                  (channel_lt p.chans samples n c ln lc),
            ) in
            get_elem?-take total result k (
              omega (
                arith,
                lb,
                block_le (n * p.chans + c) (samples * p.chans) p.smpl_size
                    (frame_lt p.chans samples n c ln lc),
              ))
            ∙ interleave_sample p samples wire after p.chans n c b (omega arith) lf
                (omega (arith, other, lw)) ln lc lb
            ∙ sym (get_elem?-take total wire j j_lt)
            ∙ ap (λ r. get_elem? r j) e
            ∙ get_elem?-take total sent j j_lt
            ∙ deinterleave_sample p samples audio before n c b (omega (arith, other, lb))
                (omega (arith, la)) ln lc lb)
          i (omega (arith, l, la)))
