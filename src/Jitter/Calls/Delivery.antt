-- ===== src/Jitter/Calls/Delivery.antt =====
-- src/JitterBuffer.cpp: the slot that `readSlotNonBlocking` reads, as a part of the stream.
use native.Mathlib.Nat.{mod-lt}
use mathlib.Core.Path.{subst}
use jacktrip.SlotRing.{minus32}
use jacktrip.Interleave.Bytes.{get_elem?-append_add}
use jacktrip.Jitter.{
  JitterDoubles, JitterSettings, JitterBuffer, new_jitter_buffer, available, read_wrapped, less32,
}
use jacktrip.Jitter.Stream.{Tail, initial-Tail}
use jacktrip.Jitter.Wrap.{step_mod, read_wrapped_inside, length-read_wrapped}
use jacktrip.Jitter.Calls.{read_bytes, read_ready, before_read}
use jacktrip.Jitter.Calls.Inserts.{Streams}
use jacktrip.Jitter.Calls.Trace.{
  JitterCall, jitter_calls, HasLengths, most_bytes, GoesOn, before_read-Unmoved,
  jitter_calls-Reached,
}
use jacktrip.Base.{
  Bool, List, ap, arith, get_elem?, get_elem?-replicate, if◌then◌else◌, length, length-append,
  length-replicate, min, refl, replicate, some, sym, true, u32, ℕ, ◌%◌, ◌++◌, ◌+◌, ◌-◌, ◌<◌, ◌^◌,
  ◌∙◌, ◌≡◌, ◌≤◌,
}

-- The bytes of the stream from a position on, and silence after its end.
pub record PartOf (size position : ℕ) (stream slot : List ℕ) : Type 0 where
  pub sized : length slot ≡ size
  pub ready :
      (i : ℕ)
      → i < size
      → position + i < length stream
      → get_elem? slot i ≡ get_elem? stream (position + i)
  pub silent : (i : ℕ) → i < size → length stream ≤ position + i → get_elem? slot i ≡ some 0

-- How many bytes are read, from the positions.
ready_len :
    (w r size : ℕ)
    → w < 2 ^ 32
    → r < 2 ^ 32
    → w < r + 2 ^ 31
    → r ≤ w + 2 ^ 31
    → (if less32 (minus32 w r) 0 then 0 else min (minus32 w r) size) ≡ min (w - r) size
ready_len w r size a b c d = ground (arith, a, b, c, d)

if_true {ℓ} : {A : Type ℓ} (b : Bool) (x y : A) → b ≡ true → (if b then x else y) ≡ x
if_true b x y e = rw e refl

module _ (D : JitterDoubles) (p : JitterSettings D) where
  -- What the calls before it make a read of `s` give.
  pub record Delivered (start : List ℕ) (calls : List JitterCall) (s : JitterBuffer D)
      : Type 0 where
    pub stream : List ℕ
    pub goes_on : GoesOn D p start calls stream
    pub written : s.write_position ≡ length stream
    pub part : PartOf p.slot_size s.read_position stream (read_bytes D p s).0
    pub advances : (read_bytes D p s).1.read_position ≡ u32 (s.read_position + p.slot_size)

module _ (D : JitterDoubles) (p : JitterSettings D) (pos : 0 < p.total_size)
    (slot_le : p.slot_size ≤ p.total_size) (total_lt : p.total_size < 2 ^ 31) where
  -- A ring that is read at `position`, of which `len` bytes are there.
  wrapped-PartOf :
      (ring stream : List ℕ) (position len : ℕ)
      → Tail p.total_size ring stream
      → len ≡ min (length stream - position) p.slot_size
      → length stream ≤ position + p.total_size
      → PartOf p.slot_size position stream (
          read_wrapped p.total_size (position % p.total_size) len ring
          ++ replicate (p.slot_size - len) 0)
  wrapped-PartOf ring stream position len h e near =
      let at = position % p.total_size in
      let at_lt = mod-lt position pos in
      let fits : len ≤ p.total_size = omega (arith, e, slot_le) in
      let part = read_wrapped p.total_size at len ring in
      let part_len =
        length-read_wrapped p.total_size at len ring (replicate (p.slot_size - len) 0) h.sized at_lt
          fits in
      record {
        sized = omega (
          arith,
          e,
          part_len,
          length-append part (replicate (p.slot_size - len) 0),
          length-replicate {A = ℕ} (p.slot_size - len) 0,
        );
        ready = λ i l k.
            read_wrapped_inside p.total_size at len ring (replicate (p.slot_size - len) 0) h.sized
              at_lt fits i ((position + i) % p.total_size) (omega (arith, e, l, k))
              (mod-lt (position + i) pos)
              (step_mod position i p.total_size pos (omega (arith, l, slot_le)))
            ∙ h.last (position + i) k (omega (arith, near));
        silent = λ i l k.
            get_elem?-append_add part (replicate (p.slot_size - len) 0) (i - len) i
              (omega (arith, e, part_len, k))
            ∙ get_elem?-replicate (p.slot_size - len) 0 (i - len) (omega (arith, e, l, k));
      }

  read_ready-PartOf :
      (s : JitterBuffer D) (stream : List ℕ)
      → Streams D p s stream
      → s.write_position < 2 ^ 32
      → s.read_position < 2 ^ 32
      → s.write_position ≤ s.read_position + p.total_size
      → s.read_position ≤ s.write_position + 2 ^ 31
      → PartOf p.slot_size s.read_position stream (read_ready D p s).0
  unfolding read_ready available
  read_ready-PartOf s stream h wl rl near far =
      wrapped-PartOf s.ring_buffer stream s.read_position _ h.tail
        (ready_len s.write_position s.read_position p.slot_size wl rl
            (omega (arith, near, total_lt)) far
          ∙ ap (λ w. min (w - s.read_position) p.slot_size) h.written)
        (omega (arith, near, h.written))

  read_bytes-PartOf :
      (s : JitterBuffer D) (stream : List ℕ)
      → Streams D p s stream
      → s.active ≡ true
      → s.write_position < 2 ^ 32
      → s.write_position ≤ s.read_position + p.total_size
      → s.read_position ≤ s.write_position + 2 ^ 31
      → PartOf p.slot_size s.read_position stream (read_bytes D p s).0
  unfolding read_bytes
  read_bytes-PartOf s stream h a wl near far =
      let t = before_read D p s in
      let k = before_read-Unmoved D p s in
      let kept : Streams D p t stream = record {
        tail = rw k.same_ring h.tail;
        written = k.same_write ∙ h.written;
        read_lt = omega (arith, k.same_read, h.read_lt);
      } in
      let read =
        read_ready-PartOf t stream kept (omega (arith, k.same_write, wl)) kept.read_lt
          (omega (arith, k.same_write, k.same_read, near))
          (omega (arith, k.same_write, k.same_read, far)) in
      subst (PartOf p.slot_size s.read_position stream)
        (sym (ap (λ r. r.0) (if_true s.active (read_ready D p t) (replicate p.slot_size 0, s) a)))
        (subst (λ r. PartOf p.slot_size r stream (read_ready D p t).0) k.same_read read)

  read_bytes_advances :
      (s : JitterBuffer D)
      → s.active ≡ true
      → (read_bytes D p s).1.read_position ≡ u32 (s.read_position + p.slot_size)
  unfolding read_bytes read_ready
  read_bytes_advances s a =
      let t = before_read D p s in
      ap (λ r. r.1.read_position)
        (if_true s.active (read_ready D p t) (replicate p.slot_size 0, s) a)
      ∙ ap (λ r. u32 (r + p.slot_size)) (before_read-Unmoved D p s).same_read

  -- The state after the calls, of a buffer that was just made.
  module _ (max_latency auto_queue reads misses : ℕ) (calls : List JitterCall) where
    abbrev pub after_jitter_calls : JitterBuffer D
    after_jitter_calls =
        jitter_calls D p calls (new_jitter_buffer D p max_latency auto_queue reads misses)

    -- With a ring of fewer than 2 ^ 31 bytes that has room for a slot, and after any calls of a new
    -- buffer that has been given a slot, fewer than 2 ^ 32 bytes in all and slots as long as is said:
    -- a read gives the bytes of a stream from the read position on, and silence after its end, if the
    -- write position is at most a ring ahead of the read position and the read position at most
    -- 2 ^ 31 ahead of the write position. The stream starts with the initial delay and goes on with
    -- every slot that is not longer than the ring, after silence up to as long as the loss before it;
    -- it ends at the write position. The read position advances by a slot.
    pub read_bytes-jitter_calls :
        HasLengths D p calls
        → max_latency + most_bytes D p calls < 2 ^ 32
        → after_jitter_calls.active ≡ true
        → after_jitter_calls.write_position ≤ after_jitter_calls.read_position + p.total_size
        → after_jitter_calls.read_position ≤ after_jitter_calls.write_position + 2 ^ 31
        → Delivered D p (replicate max_latency 0) calls after_jitter_calls
    unfolding new_jitter_buffer
    read_bytes-jitter_calls v l a near far =
        let start = new_jitter_buffer D p max_latency auto_queue reads misses in
        let silent = length-replicate {A = ℕ} max_latency 0 in
        let r =
          jitter_calls-Reached D p pos calls start (replicate max_latency 0) v
            (omega (arith, l, silent))
            (record {
              tail = initial-Tail p.total_size pos max_latency;
              written = sym silent;
              read_lt = omega arith;
            }) in
        record {
          stream = r.end;
          goes_on = r.goes_on;
          written = r.streams.written;
          part =
              read_bytes-PartOf after_jitter_calls r.end r.streams a
                (omega (arith, r.streams.written, r.end_le, l, silent)) near far;
          advances = read_bytes_advances after_jitter_calls a;
        }
