-- ===== src/Signaling/RoundTrip.antt =====
-- Messages that are framed are extracted again, however the stream is cut.
use jacktrip.Base.{
  All, List, [], arith, drop-append_length, false, if◌then◌else◌, length, length-append,
  length-take, low_bits, ltb-false, lt→ltb, refl, shr, suc, take, take-append_length, true, u32,
  zero, ℕ, ◌*◌, ◌++◌, ◌+◌, ◌<◌, ◌^◌, ◌∷◌, ◌≡◌, ◌≤◌,
}
use jacktrip.Signaling.{length_prefix, frame_message, extract_body, extract_framed_message}

read_prefix :
    (n : ℕ)
    → n < 2 ^ 32
    → ((shr (u32 n) 24 * 256 + low_bits (shr (u32 n) 16) 8) * 256 + low_bits (shr (u32 n) 8) 8)
          * 256
        + low_bits (u32 n) 8
      ≡ n
read_prefix n h = omega arith

-- The message at the head of a buffer.
extract-frame :
    (m rest old : List ℕ)
    → length m ≤ 2 ^ 20
    → extract_framed_message (frame_message m ++ rest) old
      ≡ record { complete = true; buffer = rest; message = m }
unfolding extract_framed_message extract_body frame_message length_prefix
extract-frame m rest old h =
    rw
      (
        read_prefix (length m) (omega arith),
        ltb-false (1024 * 1024) (length m) (omega arith),
        ltb-false (length (length_prefix (length m) ++ (m ++ rest))) (4 + length m)
            (omega (arith, length-append m rest)),
        take-append_length (length m) m rest refl,
        drop-append_length (length m) m rest refl,
      )
      refl

-- A buffer that holds the first bytes of a frame only.
extract-part :
    (k : ℕ) (m old : List ℕ)
    → length m ≤ 2 ^ 20
    → k < length (frame_message m)
    → extract_framed_message (take k (frame_message m)) old
      ≡ record { complete = false; buffer = take k (frame_message m); message = old }
unfolding extract_framed_message extract_body frame_message length_prefix
extract-part zero m old h lt = refl
extract-part (suc zero) m old h lt = refl
extract-part (suc (suc zero)) m old h lt = refl
extract-part (suc (suc (suc zero))) m old h lt = refl
extract-part (suc (suc (suc (suc k)))) m old h lt =
    rw
      (
        read_prefix (length m) (omega arith),
        ltb-false (1024 * 1024) (length m) (omega arith),
        lt→ltb (length (length_prefix (length m) ++ take k m)) (4 + length m)
            (omega (arith, length-take k m)),
      )
      refl

-- The messages extracted one after the other, on fuel, and the bytes that are left.
pub extract_all : ℕ → List ℕ → List (List ℕ) × List ℕ
extract_all zero buffer = ([], buffer)
extract_all (suc fuel) buffer =
    let e = extract_framed_message buffer [] in
    let r = extract_all fuel e.buffer in
    if e.complete then (e.message ∷ r.0, r.1) else ([], e.buffer)

-- The frames of a sequence of messages, and the bytes after them.
pub frames : List (List ℕ) → List ℕ → List ℕ
frames [] rest = rest
frames (m ∷ ms) rest = frame_message m ++ frames ms rest

-- From the frames of any messages of up to 2 ^ 20 bytes and the first bytes of one more, exactly
-- these messages are extracted in their order, and the first bytes of the last frame are left in the
-- buffer, where the next bytes of the stream can be appended to them.
pub extract_all-frames :
    (fuel k : ℕ) (ms : List (List ℕ)) (m : List ℕ)
    → All (λ n. length n ≤ 2 ^ 20) ms
    → length m ≤ 2 ^ 20
    → k < length (frame_message m)
    → length ms < fuel
    → extract_all fuel (frames ms (take k (frame_message m))) ≡ (ms, take k (frame_message m))
unfolding extract_all frames
extract_all-frames zero k ms m small h lt few = absurd (omega arith)
extract_all-frames (suc fuel) k [] m small h lt few = rw (extract-part k m [] h lt) refl
extract_all-frames (suc fuel) k (n ∷ ms) m small h lt few =
    rw
      (
        extract-frame n (frames ms (take k (frame_message m))) [] small.0,
        extract_all-frames fuel k ms m small.1 h lt (omega arith),
      )
      refl
