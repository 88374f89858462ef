-- ===== src/Interleave/Layouts.antt =====
-- The places of a sample in the two layouts, and the loops of the data protocols over them.
use native.Mathlib.Nat.{mul-le-mul_right, add-mul}
use jacktrip.Udp.Receive.{Settings, copy_channels, interleave}
use jacktrip.Udp.Send.{copy_out, deinterleave}
use jacktrip.Interleave.Blocks.{
  copy_frame, copy_frames, Placed, copy_frames_lem, length-copy_frames,
}
use jacktrip.Base.{
  List, ap, arith, get_elem?, length, refl, suc, zero, ℕ, ◌*◌, ◌+◌, ◌<◌, ◌∙◌, ◌≡◌, ◌≤◌,
}

-- The sample of the frame `n` and the channel `c`, frame after frame and channel after channel.
abbrev pub frame_place : ℕ → ℕ → ℕ → ℕ
frame_place chans n c = n * chans + c

abbrev pub channel_place : ℕ → ℕ → ℕ → ℕ
channel_place samples n c = n + c * samples

pub block_le : (k m size : ℕ) → k < m → k * size + size ≤ m * size
block_le k m size l =
    omega (arith, mul-le-mul_right {m = k + 1} {n = m} size (omega (arith, l)), add-mul k 1 size)

pub frame_lt : (chans samples n c : ℕ) → n < samples → c < chans → n * chans + c < samples * chans
frame_lt chans samples n c ln lc = omega (arith, block_le n samples chans ln, lc)

pub channel_lt :
    (width samples n c : ℕ) → n < samples → c < width → n + c * samples < width * samples
channel_lt width samples n c ln lc = omega (arith, block_le c width samples lc, ln)

place_unique : (w a b x y : ℕ) → a < w → b < w → a + x * w ≡ b + y * w → (a ≡ b) × (x ≡ y)
place_unique w a b zero zero la lb e = (omega (arith, e), refl)
place_unique w a b zero (suc y) la lb e = absurd (omega (arith, la, e, add-mul 1 y w))
place_unique w a b (suc x) zero la lb e = absurd (omega (arith, lb, e, add-mul 1 x w))
place_unique w a b (suc x) (suc y) la lb e =
    let k = place_unique w a b x y la lb (omega (arith, e, add-mul 1 x w, add-mul 1 y w)) in
    (k.0, ap suc k.1)

module _ (chans samples size width : ℕ) (narrow : width ≤ chans) where
  frame_unique :
      (n m c d : ℕ)
      → c < width
      → d < width
      → frame_place chans n c ≡ frame_place chans m d
      → (n ≡ m) × (c ≡ d)
  frame_unique n m c d lc ld e =
      let k =
        place_unique chans c d n m (omega (arith, lc, narrow)) (omega (arith, ld, narrow))
          (omega (arith, e)) in
      (k.1, k.0)

  frames-Placed :
      (total available : ℕ)
      → samples * chans * size ≤ total
      → width * samples * size ≤ available
      → Placed size (frame_place chans) (channel_place samples) samples width total available
  frames-Placed total available t a = record {
    within = λ n c ln lc. omega (
      arith,
      t,
      block_le (n * chans + c) (samples * chans) size
          (frame_lt chans samples n c ln (omega (arith, lc, narrow))),
    );
    enough = λ n c ln lc. omega (
      arith,
      a,
      block_le (n + c * samples) (width * samples) size (channel_lt width samples n c ln lc),
    );
    distinct = λ n m c d ln lm lc ld e. frame_unique n m c d lc ld e;
  }

  channels-Placed :
      (total available : ℕ)
      → width * samples * size ≤ total
      → samples * chans * size ≤ available
      → Placed size (channel_place samples) (frame_place chans) samples width total available
  channels-Placed total available t a = record {
    within = λ n c ln lc. omega (
      arith,
      t,
      block_le (n + c * samples) (width * samples) size (channel_lt width samples n c ln lc),
    );
    enough = λ n c ln lc. omega (
      arith,
      a,
      block_le (n * chans + c) (samples * chans) size
          (frame_lt chans samples n c ln (omega (arith, lc, narrow))),
    );
    distinct = λ n m c d ln lm lc ld e. place_unique samples n m c d ln lm e;
  }

module _ (p : Settings) (samples : ℕ) (src : List ℕ) where
  copy_channels-copy_frame :
      (n c left : ℕ) (dst : List ℕ)
      → copy_channels p samples src n c left dst
        ≡ copy_frame p.smpl_size (frame_place p.chans) (channel_place samples) src n c left dst
  unfolding copy_channels copy_frame
  copy_channels-copy_frame n c zero dst = refl
  copy_channels-copy_frame n c (suc left) dst = copy_channels-copy_frame n (c + 1) left _

  interleave-copy_frames :
      (width n left : ℕ) (dst : List ℕ)
      → interleave p samples width src n left dst
        ≡ copy_frames p.smpl_size (frame_place p.chans) (channel_place samples) src width n left dst
  unfolding interleave copy_frames
  interleave-copy_frames width n zero dst = refl
  interleave-copy_frames width n (suc left) dst =
      interleave-copy_frames width (n + 1) left (copy_channels p samples src n 0 width dst)
      ∙ ap
          (copy_frames p.smpl_size (frame_place p.chans) (channel_place samples) src width (n + 1)
            left)
          (copy_channels-copy_frame n 0 width dst)

  copy_out-copy_frame :
      (n c left : ℕ) (dst : List ℕ)
      → copy_out p samples src n c left dst
        ≡ copy_frame p.smpl_size (channel_place samples) (frame_place p.chans) src n c left dst
  unfolding copy_out copy_frame
  copy_out-copy_frame n c zero dst = refl
  copy_out-copy_frame n c (suc left) dst = copy_out-copy_frame n (c + 1) left _

  deinterleave-copy_frames :
      (n left : ℕ) (dst : List ℕ)
      → deinterleave p samples src n left dst
        ≡ copy_frames p.smpl_size
            (channel_place samples)
            (frame_place p.chans)
            src
            p.chans
            n
            left
            dst
  unfolding deinterleave copy_frames
  deinterleave-copy_frames n zero dst = refl
  deinterleave-copy_frames n (suc left) dst =
      deinterleave-copy_frames (n + 1) left (copy_out p samples src n 0 p.chans dst)
      ∙ ap
          (copy_frames p.smpl_size (channel_place samples) (frame_place p.chans) src p.chans (n + 1)
            left)
          (copy_out-copy_frame n 0 p.chans dst)

-- A sample of the audio after it was interleaved, and after it was put in a packet.
module _ (p : Settings) (samples : ℕ) (src dst : List ℕ) where
  pub length-interleave :
      (width : ℕ)
      → width ≤ p.chans
      → samples * p.chans * p.smpl_size ≤ length dst
      → width * samples * p.smpl_size ≤ length src
      → length (interleave p samples width src 0 samples dst) ≡ length dst
  length-interleave width w d s =
      ap length (interleave-copy_frames p samples src width 0 samples dst)
      ∙ length-copy_frames src
          (frames-Placed p.chans samples p.smpl_size width w (length dst) (length src) d s) 0
          samples dst (omega arith) refl

  pub interleave_sample :
      (width n c b : ℕ)
      → width ≤ p.chans
      → samples * p.chans * p.smpl_size ≤ length dst
      → width * samples * p.smpl_size ≤ length src
      → n < samples
      → c < width
      → b < p.smpl_size
      → get_elem?
          (interleave p samples width src 0 samples dst)
          ((n * p.chans + c) * p.smpl_size + b)
        ≡ get_elem? src ((n + c * samples) * p.smpl_size + b)
  interleave_sample width n c b w d s ln lc lb =
      ap (λ r. get_elem? r ((n * p.chans + c) * p.smpl_size + b))
        (interleave-copy_frames p samples src width 0 samples dst)
      ∙ copy_frames_lem src
          (frames-Placed p.chans samples p.smpl_size width w (length dst) (length src) d s) 0
          samples dst n c b (omega arith) refl (omega arith) (omega (arith, ln)) lc lb

  pub length-deinterleave :
      p.chans * samples * p.smpl_size ≤ length dst
      → samples * p.chans * p.smpl_size ≤ length src
      → length (deinterleave p samples src 0 samples dst) ≡ length dst
  length-deinterleave d s =
      ap length (deinterleave-copy_frames p samples src 0 samples dst)
      ∙ length-copy_frames src
          (channels-Placed p.chans samples p.smpl_size p.chans (omega arith) (length dst)
            (length src) d s)
          0 samples dst (omega arith) refl

  pub deinterleave_sample :
      (n c b : ℕ)
      → p.chans * samples * p.smpl_size ≤ length dst
      → samples * p.chans * p.smpl_size ≤ length src
      → n < samples
      → c < p.chans
      → b < p.smpl_size
      → get_elem? (deinterleave p samples src 0 samples dst) ((n + c * samples) * p.smpl_size + b)
        ≡ get_elem? src ((n * p.chans + c) * p.smpl_size + b)
  deinterleave_sample n c b d s ln lc lb =
      ap (λ r. get_elem? r ((n + c * samples) * p.smpl_size + b))
        (deinterleave-copy_frames p samples src 0 samples dst)
      ∙ copy_frames_lem src
          (channels-Placed p.chans samples p.smpl_size p.chans (omega arith) (length dst)
            (length src) d s)
          0 samples dst n c b (omega arith) refl (omega arith) (omega (arith, ln)) lc lb
