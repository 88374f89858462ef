-- ===== src/Interleave/Blocks.antt =====
-- The copying loops of the data protocols: blocks of `size` bytes of `src` to places in `dst`, one for
-- each frame and channel.

use jacktrip.Udp.Receive.{copy_bytes}
use jacktrip.Interleave.Bytes.{apart, length-copy_bytes, copy_bytes_inside, copy_bytes_outside}
use jacktrip.Base.{
  List, arith, drop, get_elem?, get_elem?-drop, length, length-drop, refl, suc, sym, zero, ℕ,
  ℕ_discrete, ◌*◌, ◌+◌, ◌<◌, ◌∙◌, ◌≡◌, ◌≤◌, ◌⊎◌,
}

-- The two loops: `to` and `from` are the places of the block of a frame and a channel.
module _ (size : ℕ) (to from : ℕ → ℕ → ℕ) (src : List ℕ) where
  unfoldable pub copy_frame : ℕ → ℕ → ℕ → List ℕ → List ℕ
  copy_frame n c zero dst = dst
  copy_frame n c (suc left) dst =
      copy_frame n (c + 1) left (copy_bytes size (to n c * size) (drop (from n c * size) src) dst)

  unfoldable pub copy_frames : ℕ → ℕ → ℕ → List ℕ → List ℕ
  copy_frames width n zero dst = dst
  copy_frames width n (suc left) dst = copy_frames width (n + 1) left (copy_frame n 0 width dst)

-- The places are in the two lists and are all different, for `frames` frames of `width` channels.
pub record Placed (size : ℕ) (to from : ℕ → ℕ → ℕ) (frames width total available : ℕ) : Type 0 where
  pub within : (n c : ℕ) → n < frames → c < width → to n c * size + size ≤ total
  pub enough : (n c : ℕ) → n < frames → c < width → from n c * size + size ≤ available
  pub distinct :
      (n m c d : ℕ)
      → n < frames
      → m < frames
      → c < width
      → d < width
      → to n c ≡ to m d
      → (n ≡ m) × (c ≡ d)

module _ {size : ℕ} {to from : ℕ → ℕ → ℕ} {frames width total : ℕ} (src : List ℕ)
    (placed : Placed size to from frames width total (length src)) where
  one_block :
      (n c : ℕ) (dst : List ℕ)
      → n < frames
      → c < width
      → length dst ≡ total
      → (to n c * size + size ≤ length dst) × (size ≤ length (drop (from n c * size) src))
  one_block n c dst ln lc e = (
    omega (arith, e, placed.within n c ln lc),
    omega (arith, placed.enough n c ln lc, length-drop (from n c * size) src),
  )

  length-copy_frame :
      (n c left : ℕ) (dst : List ℕ)
      → n < frames
      → c + left ≤ width
      → length dst ≡ total
      → length (copy_frame size to from src n c left dst) ≡ total
  unfolding copy_frame
  length-copy_frame n c zero dst ln lw e = e
  length-copy_frame n c (suc left) dst ln lw e =
      let k = one_block n c dst ln (omega (arith, lw)) e in
      let next = copy_bytes size (to n c * size) (drop (from n c * size) src) dst in
      length-copy_frame n (c + 1) left next ln (omega (arith, lw))
        (length-copy_bytes size (to n c * size) (drop (from n c * size) src) dst k.0 k.1 ∙ e)

  copy_frame_other :
      (n c left : ℕ) (dst : List ℕ) (i : ℕ)
      → n < frames
      → c + left ≤ width
      → length dst ≡ total
      → ((d : ℕ) → c ≤ d → d < c + left → (i < to n d * size) ⊎ (to n d * size + size ≤ i))
      → get_elem? (copy_frame size to from src n c left dst) i ≡ get_elem? dst i
  unfolding copy_frame
  copy_frame_other n c zero dst i ln lw e out = refl
  copy_frame_other n c (suc left) dst i ln lw e out =
      let k = one_block n c dst ln (omega (arith, lw)) e in
      let rest = drop (from n c * size) src in
      let next = copy_bytes size (to n c * size) rest dst in
      copy_frame_other n (c + 1) left next i ln (omega (arith, lw))
        (length-copy_bytes size (to n c * size) rest dst k.0 k.1 ∙ e)
        (λ d l h. out d (omega (arith, l)) (omega (arith, h)))
      ∙ copy_bytes_outside size (to n c * size) rest dst k.0 k.1 i
          (out c (omega arith) (omega arith))

  copy_frame_lem :
      (n c left : ℕ) (dst : List ℕ) (d b : ℕ)
      → n < frames
      → c + left ≤ width
      → length dst ≡ total
      → c ≤ d
      → d < c + left
      → b < size
      → get_elem? (copy_frame size to from src n c left dst) (to n d * size + b)
        ≡ get_elem? src (from n d * size + b)
  unfolding copy_frame
  copy_frame_lem n c zero dst d b ln lw e l h lb = absurd (omega (arith, l, h))
  copy_frame_lem n c (suc left) dst d b ln lw e l h lb =
      let lc : c < width = omega (arith, lw) in
      let k = one_block n c dst ln lc e in
      let rest = drop (from n c * size) src in
      let next = copy_bytes size (to n c * size) rest dst in
      let same : length next ≡ total =
        length-copy_bytes size (to n c * size) rest dst k.0 k.1 ∙ e in
      elim (ℕ_discrete c d) [
        | yes p ↦ rw (sym p) (
            copy_frame_other n (c + 1) left next (to n c * size + b) ln (omega (arith, lw)) same
              (λ x lx hx.
                apart (to n c) (to n x) size b
                  (λ q. absurd (
                    omega
                      (arith, lx, (placed.distinct n n c x ln ln lc (omega (arith, hx, lw)) q).1)))
                  lb)
            ∙ copy_bytes_inside size (to n c * size) rest dst k.0 k.1 b lb
            ∙ get_elem?-drop (from n c * size) src b)
        | no p ↦
            copy_frame_lem n (c + 1) left next d b ln (omega (arith, lw)) same (omega (arith, l, p))
              (omega (arith, h)) lb
      ]

  pub length-copy_frames :
      (n left : ℕ) (dst : List ℕ)
      → n + left ≤ frames
      → length dst ≡ total
      → length (copy_frames size to from src width n left dst) ≡ total
  unfolding copy_frames
  length-copy_frames n zero dst ln e = e
  length-copy_frames n (suc left) dst ln e =
      length-copy_frames (n + 1) left (copy_frame size to from src n 0 width dst)
        (omega (arith, ln)) (length-copy_frame n 0 width dst (omega (arith, ln)) (omega arith) e)

  copy_frames_other :
      (n left : ℕ) (dst : List ℕ) (i : ℕ)
      → n + left ≤ frames
      → length dst ≡ total
      → ((m d : ℕ)
          → n ≤ m
          → m < frames
          → d < width
          → (i < to m d * size) ⊎ (to m d * size + size ≤ i))
      → get_elem? (copy_frames size to from src width n left dst) i ≡ get_elem? dst i
  unfolding copy_frames
  copy_frames_other n zero dst i ln e out = refl
  copy_frames_other n (suc left) dst i ln e out =
      let l : n < frames = omega (arith, ln) in
      copy_frames_other (n + 1) left (copy_frame size to from src n 0 width dst) i
        (omega (arith, ln)) (length-copy_frame n 0 width dst l (omega arith) e)
        (λ m d lm hm hd. out m d (omega (arith, lm)) hm hd)
      ∙ copy_frame_other n 0 width dst i l (omega arith) e
          (λ d ld hd. out n d (omega arith) l (omega (arith, hd)))

  -- Each block is copied from its place to its place.
  pub copy_frames_lem :
      (n left : ℕ) (dst : List ℕ) (m d b : ℕ)
      → n + left ≤ frames
      → length dst ≡ total
      → n ≤ m
      → m < n + left
      → d < width
      → b < size
      → get_elem? (copy_frames size to from src width n left dst) (to m d * size + b)
        ≡ get_elem? src (from m d * size + b)
  unfolding copy_frames
  copy_frames_lem n zero dst m d b ln e l h hd lb = absurd (omega (arith, l, h))
  copy_frames_lem n (suc left) dst m d b ln e l h hd lb =
      let ln' : n < frames = omega (arith, ln) in
      let next = copy_frame size to from src n 0 width dst in
      let same : length next ≡ total = length-copy_frame n 0 width dst ln' (omega arith) e in
      elim (ℕ_discrete n m) [
        | yes p ↦ rw (sym p) (
            copy_frames_other (n + 1) left next (to n d * size + b) (omega (arith, ln)) same
              (λ x y lx hx hy.
                apart (to n d) (to x y) size b
                  (λ q. absurd (omega (arith, lx, (placed.distinct n x d y ln' hx hd hy q).0))) lb)
            ∙ copy_frame_lem n 0 width dst d b ln' (omega arith) e (omega arith) (omega (arith, hd))
                lb)
        | no p ↦
            copy_frames_lem (n + 1) left next m d b (omega (arith, ln)) same (omega (arith, l, p))
              (omega (arith, h)) hd lb
      ]
